-- ===== src/Members/Email.antt =====
-- What UpdateMember changes of a user.
use uigraph_api.Prelude.{
  ◌+◌, String, Bool, true, some, ◌≡◌, refl, ◌==◌, eq_refl, arith, find, Option-cases, Bool-cases,
  inl, inr, ◌∙◌, sym, ap,
}
use uigraph_api.Http.{json}
use uigraph_api.Db.{Db, User}
use uigraph_api.Exec.{World, ok, ◌>>=◌}
use uigraph_api.Store.Tables.{update_where, find-update_where, find-test}
use uigraph_api.Store.Users as Users
use uigraph_api.Store.Users.{updated_user}
use uigraph_api.Store.Members as Rows
use uigraph_api.Store.Members.{MemberView}
use uigraph_api.Store.Teams.{add_team_member, remove_user_from_org_teams}
use uigraph_api.Members.{UpdateRequest, changed_user, write_member, update}

written_rows :
    (org_id user_id : String) (req : UpdateRequest) (u : User) (w : World) (m : MemberView)
    → (write_member org_id user_id req u w).0 ≡ ok (json 200 m)
    → (m.email ≡ req.email)
      × ((write_member org_id user_id req u w).1.db.users
          ≡ update_where (λ v. v.id == u.id) (updated_user (changed_user u req)) w.db.users)
unfolding write_member Users.update_user Rows.update_member_role remove_user_from_org_teams
    add_team_member ◌>>=◌
written_rows org_id user_id req u w m done = (ground arith, ground arith)

checked :
    (org_id user_id : String) (req : UpdateRequest) (w : World) (m : MemberView)
    → (update org_id user_id (some req) w).0 ≡ ok (json 200 m)
    → (u : User) × (w' : World) × (find (λ u. u.id == user_id) w.db.users ≡ some u)
      × (w'.db ≡ w.db)
      × (update org_id user_id (some req) w ≡ write_member org_id user_id req u w')
unfolding update Users.get_user Users.get_user_by_email ◌>>=◌
checked org_id user_id req w m done = elim (Option-cases (find (λ u. u.id == user_id) w.db.users)) [
  | inl missing ↦ absurd (ground arith)
  | inr (u, found) ↦ elim (Bool-cases (req.email == u.email)) [
    | inl same ↦ (u, record w { calls = w.calls + 1 }, found, refl, ground arith)
    | inr other ↦ (u, record w { calls = w.calls + 1 + 1 }, found, refl, ground arith)
  ]
]

-- After UpdateMember replied 200, the user's row has the new name and login, but its e-mail is the
-- old one, whatever the request asked for; the reply shows the new e-mail.
pub update_keeps_email :
    (org_id user_id : String) (req : UpdateRequest) (w : World) (m : MemberView) (old : User)
    → find (λ u. u.id == user_id) w.db.users ≡ some old
    → (update org_id user_id (some req) w).0 ≡ ok (json 200 m)
    → (new : User) × (find (λ u. u.id == user_id) (update org_id user_id (some req) w).1.db.users
        ≡ some new)
      × (new.name ≡ req.name)
      × (new.login ≡ req.email)
      × (new.email ≡ old.email)
      × (m.email ≡ req.email)
update_keeps_email org_id user_id req w m old listed done =
    let (u, w', found, same_db, same) = checked org_id user_id req w m done in
    let (shown, rows) = written_rows org_id user_id req u w' m (ap (λ a. a.0) (sym same) ∙ done) in
    let q : User → Bool = λ x. x.id == user_id in
    let f : User → User = updated_user (changed_user u req) in
    let is_u : u ≡ old = ground (arith, found, listed) in
    let named : (u.id == user_id) ≡ true = find-test q w.db.users u found in
    let after : find q (update org_id user_id (some req) w).1.db.users
        ≡ find q (update_where (λ v. v.id == u.id) f w'.db.users) =
      ap (λ a. find q a.1.db.users) same ∙ ap (find q) rows in
    let changed = find-update_where (λ v. v.id == u.id) q f w'.db.users (λ _. refl) in
    let found' : find q w'.db.users ≡ some u = ap (λ (db : Db). find q db.users) same_db ∙ found in
    (
      f u,
      after ∙ changed ∙ ground (arith, found', eq_refl u.id),
      refl,
      refl,
      ap (λ (x : User). x.email) is_u,
      shown,
    )
