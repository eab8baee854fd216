-- ===== src/Sessions/Reads.antt =====
-- internal/api/auth/session.go: Me, MyOrgs and SAMLMetadata.
use uigraph_api.Prelude.{String, Bool, false, not, ◌==◌, Option, List, [], ◌∷◌, map, if◌then◌else◌}
use uigraph_api.Http.{not_found, Reply, json, error_reply, unauthorized_reply}
use uigraph_api.Authz.Scope.{role_admin}
use uigraph_api.Db.{Org}
use uigraph_api.Exec.{Exec, pure, stop_if, lift, require, attempt, ◌>>=◌, ◌>>◌}
use uigraph_api.Identity.Principal.{Principal, user, service_account}
use uigraph_api.Store.Users.{get_user}
use uigraph_api.Store.Accounts.{get_service_account}
use uigraph_api.Store.Orgs.{get_org, list_orgs}
use uigraph_api.Store.Domains.{list_orgs_for_user}
use uigraph_api.Store.Ordered.{Locale}
use uigraph_api.Identity.Provider.{kind_saml}
use uigraph_api.Providers.{acs_url, saml_metadata_url, unexpected}
use uigraph_api.Sessions.{SessionBackend}
use uigraph_api.Sessions.SignOn.{load_provider, saml_provider}

-- meResponse without the address of the avatar.
pub record MeResponse : Type 0 where
  pub user_id : String
  pub org_id : String
  pub email : String
  pub name : String
  pub login : String
  pub kind : String
  pub role : String
  pub auth_provider : String

-- myOrg without the address of the logo.
pub record MyOrg : Type 0 where
  pub id : String
  pub name : String
  pub role : String
  pub onboarding_done : Bool

abbrev me_account : Principal → Exec (Reply MeResponse) (Reply MeResponse)
me_account p = do
  found ← attempt (get_service_account p.service_account_id)
  sa ← require found (error_reply not_found)
  pure (
      json 200 (record {
        user_id = sa.id;
        org_id = sa.org_id;
        email = "";
        name = sa.name;
        login = "";
        kind = "service_account";
        role = "";
        auth_provider = "";
      }))

abbrev me_user : Principal → Exec (Reply MeResponse) (Reply MeResponse)
me_user p = do
  found ← attempt (get_user p.user_id)
  u ← require found (error_reply not_found)
  pure (
      json 200 (record {
        user_id = p.user_id;
        org_id = "";
        email = u.email;
        name = u.name;
        login = u.login;
        kind = "user";
        role = u.role;
        auth_provider = p.auth_provider;
      }))

unfoldable pub me : Option Principal → Exec (Reply MeResponse) (Reply MeResponse)
me principal = do
  p ← require principal unauthorized_reply
  elim p.kind [ service_account ↦ me_account p | user ↦ me_user p ]

abbrev account_org : Principal → Exec (Reply (List MyOrg)) (Reply (List MyOrg))
account_org p = do
  account ← attempt (get_service_account p.service_account_id)
  sa ← require account (error_reply not_found)
  found ← attempt (get_org sa.org_id)
  o ← require found (error_reply not_found)
  pure (json 200 (record { id = o.id; name = o.name; role = ""; onboarding_done = false } ∷ []))

abbrev with_role : String → Org → MyOrg
with_role role o = record {
  id = o.id;
  name = o.name;
  role = role;
  onboarding_done = o.onboarding_done;
}

module _ (locale : Locale) where
  abbrev all_orgs : Exec (Reply (List MyOrg)) (Reply (List MyOrg))
  all_orgs = do orgs ← attempt (list_orgs locale); pure (json 200 (map (with_role role_admin) orgs))

  abbrev own_orgs : String → Exec (Reply (List MyOrg)) (Reply (List MyOrg))
  own_orgs user_id = do
    memberships ← attempt (list_orgs_for_user locale user_id)
    pure (json 200 (map (λ m. with_role m.1 m.0) memberships))

  unfoldable pub my_orgs : Option Principal → Exec (Reply (List MyOrg)) (Reply (List MyOrg))
  my_orgs principal = do
    p ← require principal unauthorized_reply
    elim p.kind [
      | service_account ↦ account_org p
      | user ↦ if p.is_server_admin then all_orgs else own_orgs p.user_id
    ]

-- The document that the provider's metadata address serves; its content type is left out.
unfoldable pub saml_metadata : SessionBackend → String → String → Exec (Reply String) (Reply String)
saml_metadata h org_id slug = do
  prov ← attempt (load_provider org_id slug)
  stop_if (not (prov.kind == kind_saml)) (error_reply not_found)
  p ← attempt (saml_provider h prov)
  document ← attempt (
      lift (
        unexpected (
          h.protocols.sp_metadata p (acs_url h.public_url prov.org_id prov.slug)
            (saml_metadata_url h.public_url prov.org_id prov.slug))))
  pure (json 200 document)
