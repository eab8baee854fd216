-- ===== src/Providers/Mappings.antt =====
-- internal/api/auth/authprovider.go: the handlers for the role mappings of a provider.
use uigraph_api.Prelude.{String, Bool, Option, none, some, List, map}
use uigraph_api.Prelude.Int.{ℤ}
use uigraph_api.Prelude.Text.{trim_space}
use uigraph_api.Authz.Scope.{Role}
use uigraph_api.Db.{AuthProvider, Rule}
use uigraph_api.Http.{Reply, json, no_content, bad_request}
use uigraph_api.Exec.{Exec, pure, stop, require, attempt, ◌>>=◌, ◌>>◌}
use uigraph_api.Rolemap.{RuleError, Compile, validate_rule, valid_operators, takes_value}
use uigraph_api.Store.Providers as Store
use uigraph_api.Providers.{Backend, load}

pub record RoleMappingRequest : Type 0 where
  pub priority : ℤ
  pub attribute_key : String
  pub operator : String
  pub attribute_value : String
  pub role : Role

-- The rule that a request describes.
unfoldable pub rule_of : String → AuthProvider → RoleMappingRequest → Rule
rule_of id p req = record {
  id = id;
  provider_id = p.id;
  priority = req.priority;
  attribute_key = trim_space req.attribute_key;
  operator = req.operator;
  attribute_value = req.attribute_value;
  role = req.role;
}

-- Each operator, and whether it takes a value.
unfoldable pub mapping_operators :
    Exec (Reply (List (String × Bool))) (Reply (List (String × Bool)))
mapping_operators = pure (json 200 (map (λ op. (op, takes_value op)) valid_operators))

unfoldable pub list_role_mappings : String → String → Exec (Reply (List Rule)) (Reply (List Rule))
list_role_mappings org_id slug = do
  p ← attempt (load org_id slug)
  rules ← attempt (Store.list_role_mappings p.id)
  pure (json 200 rules)

unfoldable pub delete_role_mapping : String → String → String → Exec (Reply Rule) (Reply Rule)
delete_role_mapping org_id slug mapping_id = do
  p ← attempt (load org_id slug)
  attempt (Store.delete_role_mapping p.id mapping_id)
  pure no_content

module _ (h : Backend) (compile : Compile) where
  abbrev pub or_invalid : Rule → Option RuleError → Exec (Reply Rule) (Unit {0})
  or_invalid r none = pure tt
  or_invalid r (some e) = stop (bad_request (h.rule_message e r))

  unfoldable pub create_role_mapping :
      String → String → String → Option RoleMappingRequest → Exec (Reply Rule) (Reply Rule)
  create_role_mapping new_id org_id slug body = do
    p ← attempt (load org_id slug)
    req ← require body (bad_request "invalid JSON")
    let rule = rule_of new_id p req
    or_invalid rule (validate_rule compile rule)
    attempt (Store.create_role_mapping rule)
    pure (json 201 rule)

  unfoldable pub update_role_mapping :
      String → String → String → Option RoleMappingRequest → Exec (Reply Rule) (Reply Rule)
  update_role_mapping org_id slug mapping_id body = do
    p ← attempt (load org_id slug)
    req ← require body (bad_request "invalid JSON")
    let rule = rule_of mapping_id p req
    or_invalid rule (validate_rule compile rule)
    attempt (Store.update_role_mapping rule)
    pure (json 200 rule)
