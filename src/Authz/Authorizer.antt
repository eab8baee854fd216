-- ===== src/Authz/Authorizer.antt =====
-- internal/authz/authorizer.go, over the users and the memberships of the database.
pub mod Decisions
use uigraph_api.Prelude.{String, Bool, false, List, [], Option, none, some, ◌==◌, if◌then◌else◌}
use uigraph_api.Http.{Error, membership_not_found}
use uigraph_api.Db.{User, Member}
use uigraph_api.Exec.{Exec, Result, ok, err, pure, stop, lift, ◌>>=◌}
use uigraph_api.Store.Users.{get_user}
use uigraph_api.Store.Members.{get_member}
use uigraph_api.Authz.Scope.{Scope, role_admin, scopes_for_role}

-- GetOrgMember of authz_store.go: no row is the error `authz.ErrNotFound`.
abbrev row_or_not_found : Option Member → Result Error Member
row_or_not_found none = err membership_not_found
row_or_not_found (some m) = ok m

unfoldable pub get_org_member : String → String → Exec Error Member
get_org_member user_id org_id = do found ← get_member user_id org_id; lift (row_or_not_found found)

unfoldable pub is_server_admin : Option User → Bool
is_server_admin none = false
is_server_admin (some u) = if u.disabled then false else u.role == "server_admin"

unfoldable pub is_user_server_admin : String → Exec Error Bool
is_user_server_admin user_id = do u ← get_user user_id; pure (is_server_admin u)

-- What ScopesForUser makes of the answer of GetOrgMember.
abbrev scopes_of : Result Error Member → Result Error (List Scope)
scopes_of (ok m) = ok (scopes_for_role m.role)
scopes_of (err membership_not_found) = ok []
scopes_of (err e) = err e

abbrev membership_scopes : Exec Error Member → Exec Error (List Scope)
membership_scopes get w = (scopes_of (get w).0, (get w).1)

unfoldable pub scopes_for_user : String → String → Exec Error (List Scope)
scopes_for_user user_id org_id = do
  server_admin ← is_user_server_admin user_id
  if server_admin
      then pure (scopes_for_role role_admin)
      else membership_scopes (get_org_member user_id org_id)
