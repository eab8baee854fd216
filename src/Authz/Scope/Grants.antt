-- ===== src/Authz/Scope/Grants.antt =====
-- What each role grants, and how a list of granted scopes is read.
use uigraph_api.Prelude.{
  String, ◌≡◌, refl, ◌↔◌, ◌⊎◌, Bool, true, false, not, ◌&&◌, List, [], ◌∷◌, ◌==◌, eq_iff, arith,
  all, Bool-cases, All, all→All, Any, subst, inl, inr,
}
use uigraph_api.Prelude.Text.{cut}
use uigraph_api.Authz.Scope.{
  Scope, Role, role_viewer, role_editor, role_admin, all_scopes, scopes_for_role, valid_scope,
  grants, has,
}

-- A wildcard "<resource>:*" of the resource of `want`.
abbrev pub IsWildcardFor : Scope → String → Type 0
IsWildcardFor want s =
    ((cut b':' s).found ≡ true)
    × ((cut b':' s).after ≡ "*")
    × ((cut b':' s).before ≡ (cut b':' want).before)

grants_iff :
    (want : Scope) (s : String) → (grants want s ≡ true) ↔ ((s ≡ want) ⊎ IsWildcardFor want s)
unfolding grants
grants_iff want s = ground (
  arith,
  eq_iff s want,
  eq_iff (cut b':' s).after "*",
  eq_iff (cut b':' s).before (cut b':' want).before,
)

-- A list of granted scopes satisfies `want` exactly when it holds `want` itself or a wildcard
-- "<resource>:*" of the resource of `want`.
pub has_iff :
    (scopes : List String) (want : Scope)
    → (has scopes want ≡ true) ↔ Any (λ s. (s ≡ want) ⊎ IsWildcardFor want s) scopes
unfolding has
has_iff [] want = ground arith
has_iff (s ∷ scopes) want = ground (arith, grants_iff want s, has_iff scopes want)

-- `s` is no wildcard, and `b` grants it.
abbrev covered : List String → String → Bool
covered b s = not ((cut b':' s).found && (cut b':' s).after == "*") && has b s

grants_of_covered :
    (b : List String) (want : Scope) (s : String)
    → covered b s ≡ true
    → grants want s ≡ true
    → has b want ≡ true
unfolding grants
grants_of_covered b want s h k =
    let e : s ≡ want = ground (arith, eq_iff s want) in subst (λ x. has b x ≡ true) e (ground arith)

has_of_covered :
    (a b : List String) (want : Scope)
    → all (covered b) a ≡ true
    → has a want ≡ true
    → has b want ≡ true
unfolding has
has_of_covered [] b want h k = cc
has_of_covered (s ∷ a) b want h k = elim (Bool-cases (grants want s)) [
  | inl here ↦ grants_of_covered b want s (ground arith) here
  | inr other ↦ has_of_covered a b want (ground arith) (ground arith)
]

viewer_covered : all (covered (scopes_for_role role_editor)) (scopes_for_role role_viewer) ≡ true
unfolding scopes_for_role has grants cut
viewer_covered = refl

editor_covered : all (covered (scopes_for_role role_admin)) (scopes_for_role role_editor) ≡ true
unfolding scopes_for_role has grants cut
editor_covered = refl

-- Whatever scope is wanted, an editor has it if a viewer has it, and an admin if an editor has it.
pub roles_nested :
    (want : Scope)
    → ((has (scopes_for_role role_viewer) want && not (has (scopes_for_role role_editor) want))
        ≡ false)
      × ((has (scopes_for_role role_editor) want && not (has (scopes_for_role role_admin) want))
          ≡ false)
roles_nested want = ground (
  arith,
  has_of_covered (scopes_for_role role_viewer) (scopes_for_role role_editor) want viewer_covered,
  has_of_covered (scopes_for_role role_editor) (scopes_for_role role_admin) want editor_covered,
)

admin_all : all (has (scopes_for_role role_admin)) all_scopes ≡ true
unfolding scopes_for_role has grants cut all_scopes
admin_all = refl

-- An admin has every scope of the catalog.
admin_holds_catalog : All (λ s. has (scopes_for_role role_admin) s ≡ true) all_scopes
admin_holds_catalog = all→All (has (scopes_for_role role_admin)) all_scopes admin_all

abbrev role_is_valid : Role → Bool
role_is_valid role = all valid_scope (scopes_for_role role)

roles_valid :
    (role_is_valid role_viewer ≡ true)
    × (role_is_valid role_editor ≡ true)
    × (role_is_valid role_admin ≡ true)
unfolding scopes_for_role valid_scope cut
roles_valid = (refl, refl, refl)

scopes_for_role_other :
    (role : Role)
    → (role == role_viewer) ≡ false
    → (role == role_editor) ≡ false
    → (role == role_admin) ≡ false
    → scopes_for_role role ≡ []
unfolding scopes_for_role
scopes_for_role_other role v e a = rw (v, e, a)

role_is_valid_any : (role : Role) → role_is_valid role ≡ true
role_is_valid_any role = elim (Bool-cases (role == role_viewer)) [
  | inl v ↦ rw ((eq_iff role role_viewer).0 v) roles_valid.0
  | inr v ↦ elim (Bool-cases (role == role_editor)) [
    | inl e ↦ rw ((eq_iff role role_editor).0 e) roles_valid.1
    | inr e ↦ elim (Bool-cases (role == role_admin)) [
      | inl a ↦ rw ((eq_iff role role_admin).0 a) roles_valid.2
      | inr a ↦ rw (scopes_for_role_other role v e a)
    ]
  ]
]

-- Every scope that a role grants, known or not, is a catalog scope or a wildcard of a known resource.
pub scopes_for_role-IsValid : (role : Role) → All (λ s. valid_scope s ≡ true) (scopes_for_role role)
scopes_for_role-IsValid role = all→All valid_scope (scopes_for_role role) (role_is_valid_any role)
