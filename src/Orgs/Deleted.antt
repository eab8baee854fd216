-- ===== src/Orgs/Deleted.antt =====
-- Who may do what in an organisation after it was created, and after it was deleted.
use uigraph_api.Prelude.{
  ℕ, ◌+◌, String, Bool, true, false, none, some, List, [], ◌∷◌, ◌≡◌, refl, ◌==◌, eq_refl, ap, sym,
  ◌∙◌, arith, any, find, inl, inr, Bool-cases,
}
use uigraph_api.Http.{not_found, json, no_content, error_reply}
use uigraph_api.Db.{Org, Member, ServiceAccount}
use uigraph_api.Exec.{World, ok, err, attempt, ◌>>=◌}
use uigraph_api.Exec.Steps.{call_ok, insert_if_ok, pure_ok}
use uigraph_api.Authz.Scope.{all_scopes, role_admin, scopes_for_role}
use uigraph_api.Authz.Authorizer.{is_server_admin, scopes_for_user}
use uigraph_api.Authz.Authorizer.Decisions.{entitled, scopes_for_user_total}
use uigraph_api.Identity.Principal.{Principal, user}
use uigraph_api.Store.Tables.{insert, delete_where}
use uigraph_api.Store.Orgs.{create_org, get_org, delete_org}
use uigraph_api.Store.Members.{add_member, is_member}
use uigraph_api.Store.Accounts.{create_service_account}
use uigraph_api.Orgs.{
  CreateRequest, new_org, system_account, admin_member, join_creator, write_org, create, get,
  delete,
}

find-deleted :
    {A : Type 0} (key : A → String) (id : String) (p : A → Bool) (rows : List A)
    → ((a : A) → p a ≡ true → (key a == id) ≡ true)
    → find p (delete_where (λ a. key a == id) rows) ≡ none
unfolding delete_where
find-deleted key id p [] k = refl
find-deleted key id p (a ∷ rows) k = ground (arith, k a, find-deleted key id p rows k)

find-insert_member :
    (m : Member) (rows : List Member)
    → any (is_member m.user_id m.org_id) rows ≡ false
    → find (is_member m.user_id m.org_id) (insert m rows) ≡ some m
find-insert_member m [] h = ground (arith, eq_refl m.user_id, eq_refl m.org_id)
find-insert_member m (x ∷ rows) h = ground (arith, find-insert_member m rows)

delete_org_ok :
    (id : String) (w : World) (t : Unit {0})
    → (delete_org id w).0 ≡ ok t
    → ((delete_org id w).1.db.members ≡ delete_where (λ m. m.org_id == id) w.db.members)
      × ((delete_org id w).1.db.orgs ≡ delete_where (λ o. o.id == id) w.db.orgs)
unfolding delete_org ◌>>=◌
delete_org_ok id w t e = elim (Bool-cases (w.fails w.calls)) [
  | inl failed ↦ absurd (ground arith)
  | inr fine ↦ (rw fine refl, rw fine refl)
]

-- Once Delete replied 204, while the database answers: Get replies 404, and no user but a server
-- admin has a scope in the organisation.
pub delete-scopes :
    (org_id user_id : String) (w later : World)
    → (delete org_id w).0 ≡ ok no_content
    → later.db ≡ (delete org_id w).1.db
    → ((n : ℕ) → later.fails n ≡ false)
    → is_server_admin (find (λ u. u.id == user_id) later.db.users) ≡ false
    → ((get org_id later).0 ≡ err (error_reply not_found))
      × ((scopes_for_user user_id org_id later).0 ≡ ok [])
unfolding delete
delete-scopes org_id user_id w later e kept answers plain =
    let (t, done, e1, same) = call_ok (delete_org org_id) _ w _ e in
    let (members, orgs) = delete_org_ok org_id w t done in
    let (_, still) = pure_ok no_content no_content (delete_org org_id w).1 e1 in
    let no_member : find (is_member user_id org_id) later.db.members ≡ none =
      rw (kept, same, still, members)
        (find-deleted (λ m. m.org_id) org_id (is_member user_id org_id) w.db.members
          (λ m h. ground arith)) in
    let no_org : find (λ o. o.id == org_id) later.db.orgs ≡ none =
      rw (kept, same, still, orgs)
        (find-deleted (λ o. o.id) org_id (λ o. o.id == org_id) w.db.orgs (λ o h. h)) in
    (
      unfold get get_org ◌>>=◌ in rw (answers later.calls, no_org) refl,
      scopes_for_user_total user_id org_id later (answers later.calls) (answers (later.calls + 1))
          ∙ ap ok (rw (plain, no_member) refl),
    )

-- The membership that the three writes of a new organisation leave for its first admin.
pub founded :
    (o : Org) (m : Member) (sa : ServiceAccount) (w : World) (a b c : Unit {0})
    → (create_org o w).0 ≡ ok a
    → (add_member m (create_org o w).1).0 ≡ ok b
    → (create_service_account sa (add_member m (create_org o w).1).1).0 ≡ ok c
    → find
        (is_member m.user_id m.org_id)
        (create_service_account sa (add_member m (create_org o w).1).1).1.db.members
      ≡ some m
unfolding create_org add_member create_service_account
founded o m sa w a b c e1 e2 e3 =
    let (_, first, _) = insert_if_ok _ _ w a e1 in
    let (free, second, _) = insert_if_ok _ _ _ b e2 in
    let (_, third, _) = insert_if_ok _ _ _ c e3 in
    rw (third, second) (find-insert_member m _ (ground (arith, free)))

entitled_admin :
    (user_id org_id : String) (w : World)
    → find (is_member user_id org_id) w.db.members ≡ some (admin_member user_id org_id)
    → entitled w user_id org_id ≡ scopes_for_role role_admin
entitled_admin user_id org_id w e =
    elim (Bool-cases (is_server_admin (find (λ u. u.id == user_id) w.db.users))) [
      | inl t ↦ rw t refl
      | inr f ↦ rw (f, e) refl
    ]

create_checked :
    (org_id account_id : String) (p : Principal) (body : CreateRequest) (o : Org) (w : World)
    → (create org_id account_id (some p) (some body) w).0 ≡ ok (json 201 o)
    → create org_id account_id (some p) (some body) w ≡ write_org org_id account_id p body w
unfolding create ◌>>=◌
create_checked org_id account_id p body o w e = elim (Bool-cases (body.name == "")) [
  | inl unnamed ↦ absurd (ground (arith, unnamed))
  | inr named ↦ rw named refl
]

write_org-member :
    (org_id account_id : String) (p : Principal) (body : CreateRequest) (o : Org) (w : World)
    → p.kind ≡ user
    → (write_org org_id account_id p body w).0 ≡ ok (json 201 o)
    → find (is_member p.user_id org_id) (write_org org_id account_id p body w).1.db.members
      ≡ some (admin_member p.user_id org_id)
unfolding write_org
write_org-member org_id account_id p body o w is_user e =
    let joins : join_creator p org_id ≡ attempt (add_member (admin_member p.user_id org_id)) =
      rw is_user refl in
    let (a, d1, e1, s1) = call_ok _ _ w _ e in
    let (b, d2, e2, s2) = call_ok _ _ _ _ (rw joins at e1) in
    let (c, d3, e3, s3) = call_ok _ _ _ _ e2 in
    let (_, still) = pure_ok _ _ _ e3 in
    rw (s1, joins, s2, s3, still)
      (founded (new_org org_id body) (admin_member p.user_id org_id)
        (system_account account_id org_id all_scopes) w a b c d1 d2 d3)

-- Once Create replied 201 to a user, while the members stay as it left them and the database
-- answers, that user has the scopes of an admin in the new organisation.
pub create-scopes :
    (org_id account_id : String) (p : Principal) (body : CreateRequest) (o : Org) (w later : World)
    → p.kind ≡ user
    → (create org_id account_id (some p) (some body) w).0 ≡ ok (json 201 o)
    → later.db.members ≡ (create org_id account_id (some p) (some body) w).1.db.members
    → ((n : ℕ) → later.fails n ≡ false)
    → (scopes_for_user p.user_id org_id later).0 ≡ ok (scopes_for_role role_admin)
create-scopes org_id account_id p body o w later is_user e kept answers =
    let same = create_checked org_id account_id p body o w e in
    let admin : find (is_member p.user_id org_id) later.db.members
        ≡ some (admin_member p.user_id org_id) =
      rw (kept, same)
        (write_org-member org_id account_id p body o w is_user (ap (λ r. r.0) (sym same) ∙ e)) in
    scopes_for_user_total p.user_id org_id later (answers later.calls) (answers (later.calls + 1))
    ∙ ap ok (entitled_admin p.user_id org_id later admin)
