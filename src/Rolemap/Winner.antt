-- ===== src/Rolemap/Winner.antt =====
-- Which rule decides the role that Resolve returns.
use uigraph_api.Prelude.{
  Bool, true, false, none, some, List, [], ◌∷◌, ◌++◌, ◌≡◌, ◌⊎◌, refl, sym, ap, Bool-cases, All,
  All-map, subst, inl, inr, arith,
}
use uigraph_api.Prelude.Int.{lt_int, not-lt_int_trans}
use uigraph_api.Exec.{Result, ok, Result-cases}
use uigraph_api.Authz.Scope.{Role}
use uigraph_api.Rolemap.{Rule, RuleError, insert_rule, by_priority, first_match, resolve_with}
use uigraph_api.Rolemap.Priority.{IsSorted, by_priority_inv, by_priority-IsSorted}

module _ (matches : Rule → Result RuleError Bool) where
  -- The rule that decides: it matches, the rules of a lower priority number do not, nor do those of
  -- its own priority that the list has before it.
  pub record Winner (rules : List Rule) (r : Rule) : Type 0 where
    pub before : List Rule
    pub after : List Rule
    pub split : rules ≡ before ++ r ∷ after
    pub matched : matches r ≡ ok true
    pub earlier :
        All (λ (q : Rule). (lt_int r.priority q.priority ≡ true) ⊎ (matches q ≡ ok false)) before
    pub later :
        All (λ (q : Rule). (lt_int q.priority r.priority ≡ false) ⊎ (matches q ≡ ok false)) after

  -- What first_match returned, over the list with a rule inserted.
  abbrev Inserted : Rule → List Rule → Rule → Type 0
  Inserted r rules w =
      ((w ≡ r)
        × (matches r ≡ ok true)
        × All (λ (q : Rule). lt_int q.priority r.priority ≡ true → matches q ≡ ok false) rules)
      ⊎ ((first_match matches rules ≡ ok (some w))
          × (lt_int w.priority r.priority ≡ false → matches r ≡ ok false))

  Inserted-behind :
      (r q : Rule) (rules : List Rule) (w : Rule)
      → lt_int q.priority r.priority ≡ true
      → first_match matches (insert_rule r (q ∷ rules)) ≡ ok (some w)
      → (first_match matches (insert_rule r rules) ≡ ok (some w) → Inserted r rules w)
      → Inserted r (q ∷ rules) w
  unfolding insert_rule first_match
  Inserted-behind r q rules w lower h again = ground arith

  none_lower :
      (r q : Rule) (rules : List Rule)
      → lt_int q.priority r.priority ≡ false
      → All (λ (x : Rule). lt_int x.priority q.priority ≡ false) rules
      → All (λ (x : Rule). lt_int x.priority r.priority ≡ true → matches x ≡ ok false) rules
  none_lower r q rules other low =
      All-map {Q = λ (x : Rule). lt_int x.priority r.priority ≡ true → matches x ≡ ok false}
        (λ (x : Rule) (k : lt_int x.priority q.priority ≡ false)
            (lower : lt_int x.priority r.priority ≡ true).
          absurd (ground (arith, lower, not-lt_int_trans r.priority q.priority x.priority other k)))
        rules low

  inserted :
      (r : Rule) (rules : List Rule) (w : Rule)
      → IsSorted rules
      → first_match matches (insert_rule r rules) ≡ ok (some w)
      → Inserted r rules w
  unfolding insert_rule first_match
  inserted r [] w sorted h = inl (ground arith, ground arith, tt)
  inserted r (q ∷ rules) w (low, sorted) h = elim (Bool-cases (lt_int q.priority r.priority)) [
    | inl lower ↦ Inserted-behind r q rules w lower h (inserted r rules w sorted)
    | inr other ↦ ground (arith, none_lower r q rules other low)
  ]

  none_inserted :
      (r : Rule) (rules : List Rule)
      → first_match matches (insert_rule r rules) ≡ ok none
      → (matches r ≡ ok false) × (first_match matches rules ≡ ok none)
  unfolding insert_rule first_match
  none_inserted r [] h = ground arith
  none_inserted r (q ∷ rules) h = ground (arith, none_inserted r rules)

  put_first :
      (r q : Rule) (rules : List Rule)
      → Winner rules r
      → (lt_int r.priority q.priority ≡ false → matches q ≡ ok false)
      → Winner (q ∷ rules) r
  put_first r q rules w earlier = record {
    before = q ∷ w.before;
    after = w.after;
    split = ap (λ xs. q ∷ xs) w.split;
    matched = w.matched;
    earlier = (ground (arith, earlier), w.earlier);
    later = w.later;
  }

  first_is_Winner :
      (rules : List Rule) (r : Rule)
      → first_match matches (by_priority rules) ≡ ok (some r)
      → Winner rules r
  unfolding by_priority first_match
  first_is_Winner [] r h = absurd (ground arith)
  first_is_Winner (q ∷ rules) r h =
      elim (inserted q (by_priority rules) r (by_priority-IsSorted rules) h) [
        | inl (same, matched, lower) ↦ subst (Winner (q ∷ rules)) (sym same) (record {
          before = [];
          after = rules;
          split = refl;
          matched = matched;
          earlier = tt;
          later =
              All-map
                {Q = λ (x : Rule). (lt_int x.priority q.priority ≡ false) ⊎ (matches x ≡ ok false)}
                (λ (x : Rule) (k : lt_int x.priority q.priority ≡ true → matches x ≡ ok false).
                  ground (arith, k))
                rules
                (by_priority_inv
                  (λ (x : Rule). lt_int x.priority q.priority ≡ true → matches x ≡ ok false) rules
                  lower);
        })
        | inr (found, passed) ↦ put_first r q rules (first_is_Winner rules r found) passed
      ]

  every_rule_passed :
      (rules : List Rule)
      → first_match matches (by_priority rules) ≡ ok none
      → All (λ q. matches q ≡ ok false) rules
  unfolding by_priority
  every_rule_passed [] h = tt
  every_rule_passed (r ∷ rules) h =
      let (passed, rest) = none_inserted r (by_priority rules) h in
      (passed, every_rule_passed rules rest)

  -- What Resolve returns without an error is the role of the rule that decides: it matches, no
  -- rule of a lower priority number does, nor an earlier one of the same number. If no rule
  -- matches, it is the default role.
  pub resolve_with_sound :
      (rules : List Rule) (default_role role : Role)
      → resolve_with matches rules default_role ≡ ok role
      → ((r : Rule) × Winner rules r × (role ≡ r.role))
        ⊎ (All (λ q. matches q ≡ ok false) rules × (role ≡ default_role))
  unfolding resolve_with
  resolve_with_sound rules default_role role h =
      elim (Result-cases (first_match matches (by_priority rules))) [
        | inl (some r, found) ↦ inl (r, first_is_Winner rules r found, ground arith)
        | inl (none, found) ↦ inr (every_rule_passed rules found, ground arith)
        | inr (e, failed) ↦ absurd (ground arith)
      ]
