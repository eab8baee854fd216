-- ===== src/Rolemap/Operators.antt =====
-- What the operators test, and the rules that ValidateRule lets through.
use uigraph_api.Prelude.{
  String, Bool, true, false, not, ◌&&◌, none, List, [], ◌∷◌, ◌≡◌, ◌≢◌, ◌⊎◌, refl, All, All-map, sym,
  In, contains-In, ◌++◌, subst, inl, inr, arith, any, ◌==◌, eq_iff,
}
use uigraph_api.Prelude.Text.{contains_text}
use uigraph_api.Exec.{Result, ok, err, Result-cases}
use uigraph_api.Authz.Scope.{Role}
use uigraph_api.Rolemap.{
  Rule, RuleError, Compile, validate_rule, valid_operator, valid_operators, apply_operator,
  match_rule, known_role, compiles, insert_rule, by_priority, first_match, resolve_with, resolve,
}
use uigraph_api.Rolemap.Values.{Attribute, Attributes, lookup, is_present, string_values}
use uigraph_api.Rolemap.Winner.{resolve_with_sound}

module _ (matches : Rule → Result RuleError Bool) where
  failure_inserted :
      (r : Rule) (rules : List Rule) (e : RuleError)
      → first_match matches (insert_rule r rules) ≡ err e
      → (matches r ≡ err e) ⊎ (first_match matches rules ≡ err e)
  unfolding insert_rule first_match
  failure_inserted r [] e h = ground arith
  failure_inserted r (q ∷ rules) e h = ground (arith, failure_inserted r rules e)

  no_failure :
      (rules : List Rule) (e : RuleError)
      → All (λ r. matches r ≢ err e) rules
      → first_match matches (by_priority rules) ≢ err e
  unfolding by_priority first_match
  no_failure [] e h k = absurd (ground arith)
  no_failure (r ∷ rules) e (h, hs) k = elim (failure_inserted r (by_priority rules) e k) [
    | inl here ↦ h here
    | inr there ↦ no_failure rules e hs there
  ]

abbrev pub with_operator : Rule → String → Rule
with_operator r op = record r { operator = op }

module _ (compile : Compile) where
  valid_rule :
      (r : Rule)
      → validate_rule compile r ≡ none
      → (valid_operator r.operator ≡ true)
        × ((r.operator == "regex" && not (compiles (compile r.attribute_value))) ≡ false)
        × (known_role r.role ≡ true)
  unfolding validate_rule
  valid_rule r h = ground arith

  abbrev Runs : Rule → Bool → List String → RuleError → String → Type 0
  Runs r present values e op =
      apply_operator compile (record r { operator = op }) present values ≢ err e

  regex-Runs :
      (r : Rule) (present : Bool) (values : List String) (e : RuleError)
      → compiles (compile r.attribute_value) ≡ true
      → Runs r present values e "regex"
  unfolding apply_operator
  regex-Runs r present values e good h = ground arith

  operator-Runs :
      (r : Rule) (present : Bool) (values : List String) (e : RuleError)
      → (r.operator == "regex" && not (compiles (compile r.attribute_value))) ≡ false
      → In r.operator valid_operators
      → Runs r present values e r.operator
  unfolding apply_operator valid_operators
  operator-Runs r present values e good (inl p) =
      subst (Runs r present values e) p (λ h. ground arith)
  operator-Runs r present values e good (inr (inl p)) =
      subst (Runs r present values e) p (λ h. ground arith)
  operator-Runs r present values e good (inr (inr (inl p))) =
      subst (Runs r present values e) p (λ h. ground arith)
  operator-Runs r present values e good (inr (inr (inr (inl p)))) =
      subst (Runs r present values e) p (λ h. ground arith)
  operator-Runs r present values e good (inr (inr (inr (inr (inl p))))) =
      subst (Runs r present values e) p (λ h. ground arith)
  operator-Runs r present values e good (inr (inr (inr (inr (inr (inl p)))))) =
      subst (Runs r present values e) p (λ h. ground arith)
  operator-Runs r present values e good (inr (inr (inr (inr (inr (inr (inl p))))))) =
      subst (Runs r present values e) p (λ h. ground arith)
  operator-Runs r present values e good (inr (inr (inr (inr (inr (inr (inr (inl p)))))))) =
      subst (Runs r present values e) p (λ h. ground arith)
  operator-Runs r present values e good (inr (inr (inr (inr (inr (inr (inr (inr (inl p))))))))) =
      subst (Runs r present values e) p
        (regex-Runs r present values e (ground (arith, (eq_iff r.operator "regex").1 (sym p))))
  operator-Runs r present values e good (inr (inr (inr (inr (inr (inr (inr (inr (inr x))))))))) =
      elim x [ ]

  validated_runs :
      (r : Rule) (present : Bool) (values : List String) (e : RuleError)
      → validate_rule compile r ≡ none
      → apply_operator compile r present values ≢ err e
  unfolding valid_operator
  validated_runs r present values e valid =
      let (known, good, role) = valid_rule r valid in
      operator-Runs r present values e good (contains-In valid_operators r.operator known)

  In-before-after :
      (P : Rule → Type 0) (before after : List Rule) (r : Rule) → All P (before ++ r ∷ after) → P r
  In-before-after P [] after r (h, hs) = h
  In-before-after P (q ∷ before) after r (h, hs) = In-before-after P before after r hs

  -- If ValidateRule lets every rule of a list through and the default role is one of the three
  -- roles, Resolve returns no error, for any attributes, and the role it returns is one of the three.
  pub resolve_total :
      (show : Attribute → String) (rules : List Rule) (attrs : Attributes) (default_role : Role)
      → All (λ r. validate_rule compile r ≡ none) rules
      → known_role default_role ≡ true
      → (role : Role) × (resolve compile show rules attrs default_role ≡ ok role)
        × (known_role role ≡ true)
  unfolding resolve resolve_with match_rule
  resolve_total show rules attrs default_role valid known =
      let matches : Rule → Result RuleError Bool = λ r. match_rule compile show r attrs in
      elim (Result-cases (resolve compile show rules attrs default_role)) [
        | inl (role, done) ↦ (
          role,
          done,
          elim (resolve_with_sound matches rules default_role role done) [
            | inl (r, w, won) ↦
                let v : All (λ q. validate_rule compile q ≡ none) (w.before ++ r ∷ w.after) =
                  subst (All (λ q. validate_rule compile q ≡ none)) w.split valid in
                subst (λ x. known_role x ≡ true) (sym won)
                  (valid_rule r
                    (In-before-after (λ q. validate_rule compile q ≡ none) w.before w.after r v)).2
            | inr (no_match, fallback) ↦ subst (λ x. known_role x ≡ true) (sym fallback) known
          ],
        )
        | inr (e, failed) ↦ absurd (
            no_failure matches rules e
              (All-map {Q = λ r. matches r ≢ err e}
                (λ (r : Rule) (v : validate_rule compile r ≡ none).
                  validated_runs r (is_present (lookup attrs r.attribute_key))
                    (string_values show (lookup attrs r.attribute_key)) e v)
                rules valid)
              (ground (arith, failed)))
      ]

  -- On an attribute that is present a negated operator answers the opposite of its operator, for
  -- "notEquals", "notContains" and "notExists". On one that is absent, whose texts are none,
  -- "notEquals" and "notContains" answer false like "equals" and "contains".
  pub negated_operators :
      (r : Rule) (values : List String)
      → ((b : Bool) × (apply_operator compile (with_operator r "equals") true values ≡ ok b)
          × (apply_operator compile (with_operator r "notEquals") true values ≡ ok (not b)))
        × ((b : Bool) × (apply_operator compile (with_operator r "contains") true values ≡ ok b)
            × (apply_operator compile (with_operator r "notContains") true values ≡ ok (not b)))
        × ((present : Bool)
            → (b : Bool) × (apply_operator compile (with_operator r "exists") present values ≡ ok b)
              × (apply_operator compile (with_operator r "notExists") present values ≡ ok (not b)))
        × All
            (λ op. apply_operator compile (with_operator r op) false [] ≡ ok false)
            ("equals" ∷ "notEquals" ∷ "contains" ∷ "notContains" ∷ [])
  unfolding apply_operator
  negated_operators r values = (
    (any (λ v. v == r.attribute_value) values, refl, refl),
    (any (λ v. contains_text v r.attribute_value) values, refl, refl),
    (λ present. (present, refl, refl)),
    (refl, (refl, (refl, (refl, tt)))),
  )
