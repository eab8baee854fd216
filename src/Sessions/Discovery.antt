-- ===== src/Sessions/Discovery.antt =====
-- internal/api/auth/session.go: DiscoverOrgs and OrgProviders, which answer before a sign-in.
use Prim.Native.String
use uigraph_api.Prelude.{
  ◌-◌, String, ◌||◌, Option, none, some, List, [], ◌∷◌, ◌==◌, ◌++◌, map, any, leb, if◌then◌else◌,
}
use uigraph_api.Prelude.Text.{trim_space, to_lower, cut_last}
use uigraph_api.Http.{Reply, json, bad_request, too_many_requests}
use uigraph_api.Db.{User, Org, AuthProvider}
use uigraph_api.Exec.{Exec, pure, stop_if, require, attempt, now_of, ◌>>=◌, ◌>>◌}
use uigraph_api.Store.Users.{get_user_by_email}
use uigraph_api.Store.Domains.{list_orgs_by_domain, list_orgs_for_user}
use uigraph_api.Store.Logins.{count_login_attempts, record_login_attempt}
use uigraph_api.Store.Providers.{list_enabled_auth_providers}
use uigraph_api.Sessions.{SessionBackend, discover_window, discover_limit}

-- discoveredOrg without the address of the logo.
pub record DiscoveredOrg : Type 0 where
  pub id : String
  pub name : String

-- providerInfo without the address of the icon.
pub record ProviderInfo : Type 0 where
  pub id : String
  pub slug : String
  pub kind : String
  pub display_name : String
  pub login_url : String

abbrev pub discovered : Org → DiscoveredOrg
discovered o = record { id = o.id; name = o.name }

-- The organisations of a user that are not listed yet, each once.
unfoldable pub add_unseen : List DiscoveredOrg → List (Org × String) → List DiscoveredOrg
add_unseen orgs [] = orgs
add_unseen orgs (m ∷ memberships) =
    if any (λ o. o.id == m.0.id) orgs
    then add_unseen orgs memberships
    else add_unseen (orgs ++ discovered m.0 ∷ []) memberships

-- What is behind the last "@", if there is something on both sides of it.
abbrev pub domain_if_whole : Option (String × String) → Option String
domain_if_whole none = none
domain_if_whole (some parts) = if parts.0 == "" || parts.1 == "" then none else some parts.1

module _ (h : SessionBackend) where
  abbrev pub spelled : String → String
  spelled value = to_lower h.lower (trim_space value)

  abbrev pub add_memberships :
      List DiscoveredOrg → Option User → Exec (Reply (List DiscoveredOrg)) (List DiscoveredOrg)
  add_memberships orgs none = pure orgs
  add_memberships orgs (some u) = do
    memberships ← attempt (list_orgs_for_user h.locale u.id)
    pure (add_unseen orgs memberships)

  -- The attempt counts before the answer is looked up.
  unfoldable pub admit : String → String → Exec (Reply (List DiscoveredOrg)) (Unit {0})
  admit remote_addr email = do
    now ← now_of
    n ← attempt (count_login_attempts email (now - discover_window))
    stop_if (leb discover_limit n) (too_many_requests "too many attempts, try again later")
    attempt (record_login_attempt email remote_addr)

  -- What follows the checks of DiscoverOrgs on the request, and on the attempts.
  unfoldable pub look_up :
      String → String → Exec (Reply (List DiscoveredOrg)) (Reply (List DiscoveredOrg))
  look_up email domain = do
    by_domain ← attempt (list_orgs_by_domain h.locale domain)
    found ← attempt (get_user_by_email email)
    orgs ← add_memberships (map discovered by_domain) found
    pure (json 200 orgs)

  unfoldable pub discover_orgs :
      String → Option String → Exec (Reply (List DiscoveredOrg)) (Reply (List DiscoveredOrg))
  discover_orgs remote_addr body = do
    value ← require body (bad_request "invalid JSON")
    domain ←
        require (domain_if_whole (cut_last b'@' (spelled value)))
          (bad_request "a valid email address is required")
    admit remote_addr (spelled value)
    look_up (spelled value) domain

  abbrev info : AuthProvider → ProviderInfo
  info p = record {
    id = p.id;
    slug = p.slug;
    kind = p.kind;
    display_name = p.display_name;
    login_url =
        String.◌++◌ "/api/v1/auth/orgs/" (String.◌++◌ p.org_id (String.◌++◌ "/login/" p.slug));
  }

  unfoldable pub org_providers :
      String → Exec (Reply (List ProviderInfo)) (Reply (List ProviderInfo))
  org_providers org_id = do
    providers ← attempt (list_enabled_auth_providers h.locale org_id)
    pure (json 200 (map info providers))
