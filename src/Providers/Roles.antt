-- ===== src/Providers/Roles.antt =====
-- The stored role mappings, as a sign-in through their provider resolves them.
use uigraph_api.Prelude.{
  String, Bool, true, false, List, [], ◌∷◌, All, some, ◌≡◌, ◌==◌, arith, find, filter,
}
use uigraph_api.Prelude.Int.{lt_int}
use uigraph_api.Authz.Scope.{Role}
use uigraph_api.Db.{AuthProvider, Rule}
use uigraph_api.Exec.{World, ok, ◌>>=◌}
use uigraph_api.Identity.Provider.{validate}
use uigraph_api.Rolemap.{Compile, known_role, resolve}
use uigraph_api.Rolemap.Values.{Attribute, Attributes}
use uigraph_api.Rolemap.Operators.{resolve_total}
use uigraph_api.Store.Tables.{find-holds}
use uigraph_api.Store.Ordered.{order_by, All-order_by}
use uigraph_api.Store.Providers.{has_slug, list_role_mappings}
use uigraph_api.Providers.Valid.{IsValidProvider, IsSound, IsValidRule}

All-filter : (P : Rule → Type 0) (p : Rule → Bool) (xs : List Rule) → All P xs → All P (filter p xs)
All-filter P p [] h = h
All-filter P p (x ∷ xs) (h, hs) = ground (arith, All-filter P p xs hs)

validate-role : (p : AuthProvider) → IsValidProvider p → known_role p.default_role ≡ true
unfolding validate
validate-role p h = ground arith

module _ (compile : Compile) (show : Attribute → String) where
  -- In a database whose providers and mappings pass their checks: for a provider that the lookup by
  -- organisation and slug finds, reading its mappings while the database answers and resolving
  -- them against any attributes gives one of the three roles, and never an error.
  pub resolve-stored :
      (w : World) (org_id slug : String) (p : AuthProvider) (attrs : Attributes)
      → IsSound compile w.db
      → find (has_slug org_id slug) w.db.providers ≡ some p
      → w.fails w.calls ≡ false
      → (rules : List Rule) × (role : Role) × ((list_role_mappings p.id w).0 ≡ ok rules)
        × (resolve compile show rules attrs p.default_role ≡ ok role)
        × (known_role role ≡ true)
  unfolding list_role_mappings ◌>>=◌
  resolve-stored w org_id slug p attrs s found answers =
      let rules : List Rule =
        order_by (λ r q. lt_int r.priority q.priority)
          (filter (λ r. r.provider_id == p.id) w.db.rules) in
      let (role, done, known) =
        resolve_total compile show rules attrs p.default_role
          (All-order_by (IsValidRule compile) _ _
            (All-filter (IsValidRule compile) _ w.db.rules s.rules))
          (validate-role p
            (find-holds IsValidProvider (has_slug org_id slug) w.db.providers p found
              s.providers).0) in
      (rules, role, ground (arith, answers), done, known)
