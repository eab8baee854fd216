-- ===== src/Authz/Authorizer/Decisions.antt =====
-- What the authorizer decides, on every branch.
use uigraph_api.Prelude.{
  false, ◌+◌, String, ◌≡◌, List, [], none, some, arith, ◌==◌, find, if◌then◌else◌,
}
use uigraph_api.Exec.{World, ok, ◌>>=◌}
use uigraph_api.Store.Users.{get_user}
use uigraph_api.Store.Members.{get_member, is_member}
use uigraph_api.Authz.Scope.{Scope, role_admin, scopes_for_role}
use uigraph_api.Authz.Authorizer.{
  get_org_member, is_server_admin, is_user_server_admin, scopes_for_user,
}

-- The scopes that the rows of the database give a user in an organisation.
abbrev pub entitled : World → String → String → List Scope
entitled w user_id org_id =
    if is_server_admin (find (λ u. u.id == user_id) w.db.users)
    then scopes_for_role role_admin
    else elim (find (is_member user_id org_id) w.db.members) [
      | none ↦ []
      | some m ↦ scopes_for_role m.role
    ]

-- An answer without an error is what the rows say: the admin scopes for an enabled server admin,
-- in every organisation; else the scopes of the role of the membership, and none without one.
pub scopes_for_user_sound :
    (user_id org_id : String) (w : World) (scopes : List Scope)
    → (scopes_for_user user_id org_id w).0 ≡ ok scopes
    → scopes ≡ entitled w user_id org_id
unfolding scopes_for_user is_user_server_admin get_org_member get_user get_member ◌>>=◌
scopes_for_user_sound user_id org_id w scopes h = ground arith

-- While the database answers, so does the authorizer, and with the scopes of the rows.
pub scopes_for_user_total :
    (user_id org_id : String) (w : World)
    → w.fails w.calls ≡ false
    → w.fails (w.calls + 1) ≡ false
    → (scopes_for_user user_id org_id w).0 ≡ ok (entitled w user_id org_id)
unfolding scopes_for_user is_user_server_admin get_org_member get_user get_member ◌>>=◌
scopes_for_user_total user_id org_id w h k = ground arith

-- Asking for scopes changes no row.
pub scopes_for_user-db :
    (user_id org_id : String) (w : World) → (scopes_for_user user_id org_id w).1.db ≡ w.db
unfolding scopes_for_user is_user_server_admin get_org_member get_user get_member ◌>>=◌
scopes_for_user-db user_id org_id w = ground arith
