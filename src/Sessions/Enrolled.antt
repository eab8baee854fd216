-- ===== src/Sessions/Enrolled.antt =====
-- The membership that enroll leaves.
use uigraph_api.Prelude.{
  String, Bool, true, false, not, ◌||◌, some, List, [], ◌∷◌, ◌≡◌, ◌==◌, ◌∙◌, refl, sym, ap, subst,
  arith, any, find, filter, eq_refl, inl, inr, Bool-cases,
}
use uigraph_api.Prelude.Int.{lt_int}
use uigraph_api.Authz.Scope.{Role}
use uigraph_api.Db.{Db, User, Member, AuthProvider, Rule}
use uigraph_api.Exec.{World, Result, ok, err, lift, ◌>>=◌}
use uigraph_api.Exec.Steps.{called, bind_ok, query_ok, attempt_ok}
use uigraph_api.Rolemap.{RuleError, resolve}
use uigraph_api.Rolemap.Values.{Attributes}
use uigraph_api.Store.Tables.{insert, find-update_where}
use uigraph_api.Store.Members.{is_member, get_member, upsert_member, upserted}
use uigraph_api.Store.Ordered.{order_by}
use uigraph_api.Store.Providers.{list_role_mappings}
use uigraph_api.Sessions.{SessionBackend}
use uigraph_api.Sessions.Complete.{sso_member, unexpected_rule, enroll}

-- The user is a member of the organisation, with the role.
pub record HasRole (user_id org_id : String) (role : Role) (db : Db) : Type 0 where
  pub member : Member
  pub listed : find (is_member user_id org_id) db.members ≡ some member
  pub given : member.role ≡ role

find-present :
    {A : Type 0} (p : A → Bool) (xs : List A)
    → any p xs ≡ true
    → (x : A) × (find p xs ≡ some x) × (p x ≡ true)
find-present p [] h = absurd (ground arith)
find-present p (x ∷ xs) h = elim (Bool-cases (p x)) [
  | inl t ↦ (x, rw t refl, t)
  | inr f ↦
      let (y, found, holds) = find-present p xs (ground (arith, f)) in
      (y, ground (arith, f, found), holds)
]

find-inserted :
    {A : Type 0} (p : A → Bool) (x : A) (xs : List A)
    → any p xs ≡ false
    → p x ≡ true
    → find p (insert x xs) ≡ some x
find-inserted p x [] h t = ground (arith, t)
find-inserted p x (y ∷ ys) h t = ground (arith, find-inserted p x ys, t)

upserted-HasRole :
    (user_id org_id : String) (role : Role) (db : Db)
    → HasRole user_id org_id role
        (record db { members = upserted (sso_member user_id org_id role) db.members })
unfolding upserted
upserted-HasRole user_id org_id role db =
    let p : Member → Bool = is_member user_id org_id in
    elim (Bool-cases (any p db.members)) [
      | inl t ↦
          let (m, found, holds) = find-present p db.members t in
          record {
            member = record m { role = role; source = "sso" };
            listed = rw t (
                find-update_where p p (λ row. record row { role = role; source = "sso" }) db.members
                  (λ x. refl)
                ∙ rw (found, holds) refl);
            given = refl;
          }
      | inr f ↦ record {
        member = sso_member user_id org_id role;
        listed = rw f (
            find-inserted p (sso_member user_id org_id role) db.members f
              (ground (arith, eq_refl user_id, eq_refl org_id)));
        given = refl;
      }
    ]

upsert_member_ok :
    (user_id org_id : String) (role : Role) (w : World) (t : Unit {0})
    → (upsert_member (sso_member user_id org_id role) w).0 ≡ ok t
    → HasRole user_id org_id role (upsert_member (sso_member user_id org_id role) w).1.db
unfolding upsert_member
upsert_member_ok user_id org_id role w t e =
    elim (Bool-cases (w.fails w.calls || not (any (λ u. u.id == user_id) w.db.users))) [
      | inl refused ↦ absurd (unfold ◌>>=◌ in ground (arith, refused))
      | inr fine ↦ unfold ◌>>=◌ in rw fine (upserted-HasRole user_id org_id role w.db)
    ]

module _ (h : SessionBackend) where
  -- What Resolve makes of the rules that the database lists.
  abbrev pub resolved_role : AuthProvider → Attributes → List Rule → Result RuleError Role
  resolved_role prov attributes rules =
      resolve h.compile h.show
        (order_by (λ r q. lt_int r.priority q.priority)
          (filter (λ r. r.provider_id == prov.id) rules))
        attributes prov.default_role

  unexpected_rule_ok :
      (r : Result RuleError Role) (role : Role) (w : World)
      → (lift (unexpected_rule r) w).0 ≡ ok role
      → (r ≡ ok role) × ((lift (unexpected_rule r) w).1 ≡ w)
  unexpected_rule_ok (ok x) role w e = unfold ◌>>=◌ in (ground arith, refl)
  unexpected_rule_ok (err x) role w e = absurd (unfold ◌>>=◌ in ground arith)

  pub enroll_ok :
      (prov : AuthProvider) (attributes : Attributes) (u : User) (w : World) (t : Unit {0})
      → (enroll h prov attributes u w).0 ≡ ok t
      → (role : Role) × (resolved_role prov attributes w.db.rules ≡ ok role)
        × HasRole u.id prov.org_id role (enroll h prov attributes u w).1.db
  unfolding enroll list_role_mappings get_member
  enroll_ok prov attributes u w t e =
      let (e1, same1) = query_ok _ _ w t e in
      let (role, e2, e3, same2) = bind_ok _ _ (called w) t e1 in
      let (resolved, still) = unexpected_rule_ok _ role (called w) e2 in
      let (e4, same3) = query_ok _ _ _ t e3 in
      let (x, e5, e6, same4) = bind_ok _ _ _ t e4 in
      let (done, same5) = attempt_ok (upsert_member (sso_member u.id prov.org_id role)) _ t e6 in
      (
        role,
        resolved,
        subst (HasRole u.id prov.org_id role)
            (ap (λ v. v.db) (sym (same1 ∙ same2 ∙ same3 ∙ same4 ∙ same5)))
            (upsert_member_ok u.id prov.org_id role _ t done),
      )
