-- ===== src/Samples/Queries.antt =====
-- Tag rules and listing parameters.
use uigraph_api.Prelude.{String, Option, some, List, [], ◌∷◌, ◌≡◌, map, filter, any, refl}
use uigraph_api.Prelude.Int.{ℤ, pos}
use uigraph_api.Billing.{TagRule, Resource, filter_matched}
use uigraph_api.Billing.Selection.{holds, labelled, filter_matched_lem}

abbrev checkout : TagRule
checkout = record {
  id = "r1";
  org_id = "o1";
  service_id = "svc";
  tag_key = "team";
  tag_value = "checkout";
  created_by = "u1";
}

abbrev resource : String → List (String × String) → Resource
resource id tags = record {
  id = id;
  org_id = "o1";
  cloud_connection_id = "c1";
  external_resource_id = id;
  name = id;
  resource_type = "bucket";
  provider = "aws";
  region = "eu";
  environment = "prod";
  status = "active";
  tags = tags;
  matched_tags = [];
}

abbrev resources : List Resource
resources = resource "a" (("team", "checkout") ∷ []) ∷ resource "b" (("team", "other") ∷ []) ∷ []

filter_matched_lem_example :
    filter_matched resources (checkout ∷ [])
    ≡ map (labelled (checkout ∷ [])) (filter (λ r. any (holds r.tags) (checkout ∷ [])) resources)
filter_matched_lem_example =
    filter_matched_lem resources (checkout ∷ []) ((refl, tt), ((refl, tt), tt))

-- Every text is read as 500.
abbrev atoi : String → Option ℤ
atoi raw = some (pos 500)
