-- ===== src/Billing.antt =====
-- internal/billing/match.go: the resources that a service's tag rules select. The map of tags is a
-- list of its entries; the cost and the time of the last sync, which are only copied, are left out.
pub mod Selection
use Prim.Native.String
use uigraph_api.Prelude.{
  String, Bool, true, false, Option, none, some, List, [], ◌∷◌, ◌==◌, if◌then◌else◌,
}

pub record TagRule : Type 0 where
  pub id : String
  pub org_id : String
  pub service_id : String
  pub tag_key : String
  pub tag_value : String
  pub created_by : String

pub record Resource : Type 0 where
  pub id : String
  pub org_id : String
  pub cloud_connection_id : String
  pub external_resource_id : String
  pub name : String
  pub resource_type : String
  pub provider : String
  pub region : String
  pub environment : String
  pub status : String
  pub tags : List (String × String)
  pub matched_tags : List String

unfoldable pub tag : List (String × String) → String → Option String
tag [] key = none
tag (e ∷ tags) key = if e.0 == key then some e.1 else tag tags key

-- `v, ok := tags[key]; ok && v == value`
abbrev pub satisfies : Option String → String → Bool
satisfies none value = false
satisfies (some v) value = v == value

unfoldable pub match_tags : List (String × String) → List TagRule → List String
match_tags tags [] = []
match_tags tags (rule ∷ rules) =
    let rest = match_tags tags rules in
    if satisfies (tag tags rule.tag_key) rule.tag_value
    then String.◌++◌ rule.tag_key (String.◌++◌ ":" rule.tag_value) ∷ rest
    else rest

-- A resource with the tags that matched, if any did.
abbrev pub with_matched : List String → Resource → List Resource → List Resource
with_matched [] r rest = rest
with_matched (t ∷ ts) r rest = record r { matched_tags = t ∷ ts } ∷ rest

unfoldable pub matched_loop : List TagRule → List Resource → List Resource
unfolding match_tags
matched_loop rules [] = []
matched_loop rules (r ∷ resources) =
    with_matched (match_tags r.tags rules) r (matched_loop rules resources)

unfoldable pub filter_matched : List Resource → List TagRule → List Resource
unfolding matched_loop
filter_matched resources [] = []
filter_matched resources (rule ∷ rules) = matched_loop (rule ∷ rules) resources
