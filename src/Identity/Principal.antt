-- ===== src/Identity/Principal.antt =====
-- internal/identity/principal.go: who a request is made by.
use uigraph_api.Prelude.{String, Bool, List}

pub data PrincipalKind : Type 0 where
  user service_account : PrincipalKind

pub record Principal : Type 0 where
  pub kind : PrincipalKind
  pub user_id : String
  pub org_id : String
  pub is_server_admin : Bool
  pub service_account_id : String
  pub scopes : List String
  pub auth_provider : String
