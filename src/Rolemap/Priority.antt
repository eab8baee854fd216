-- ===== src/Rolemap/Priority.antt =====
-- The order in which Resolve tries the rules.
use uigraph_api.Prelude.{true, false, List, [], ◌∷◌, ◌≡◌, Bool-cases, All, All-map, subst, inl, inr}
use uigraph_api.Prelude.Int.{lt_int, lt_int_asym, not-lt_int_trans}
use uigraph_api.Rolemap.{Rule, insert_rule, by_priority}

abbrev pub IsSorted : List Rule → Type 0
IsSorted [] = Unit
IsSorted (r ∷ rules) =
    All (λ (q : Rule). lt_int q.priority r.priority ≡ false) rules × IsSorted rules

insert_rule-lower :
    (r q : Rule) (rules : List Rule)
    → lt_int q.priority r.priority ≡ true
    → insert_rule r (q ∷ rules) ≡ q ∷ insert_rule r rules
unfolding insert_rule
insert_rule-lower r q rules h = rw (h)

insert_rule-other :
    (r q : Rule) (rules : List Rule)
    → lt_int q.priority r.priority ≡ false
    → insert_rule r (q ∷ rules) ≡ r ∷ q ∷ rules
unfolding insert_rule
insert_rule-other r q rules h = rw (h)

insert_rule_inv :
    (P : Rule → Type 0) (r : Rule) (rules : List Rule)
    → All P (insert_rule r rules)
    → P r × All P rules
unfolding insert_rule
insert_rule_inv P r [] h = h
insert_rule_inv P r (q ∷ rules) h = elim (Bool-cases (lt_int q.priority r.priority)) [
  | inl lower ↦
      let (here, rest) : P q × All P (insert_rule r rules) =
        subst (All P) (insert_rule-lower r q rules lower) h in
      let (new, old) = insert_rule_inv P r rules rest in (new, (here, old))
  | inr other ↦ subst (All P) (insert_rule-other r q rules other) h
]

pub by_priority_inv :
    (P : Rule → Type 0) (rules : List Rule) → All P (by_priority rules) → All P rules
unfolding by_priority
by_priority_inv P [] h = tt
by_priority_inv P (r ∷ rules) h =
    let (here, rest) = insert_rule_inv P r (by_priority rules) h in
    (here, by_priority_inv P rules rest)

All-insert_rule :
    (P : Rule → Type 0) (r : Rule) (rules : List Rule)
    → P r
    → All P rules
    → All P (insert_rule r rules)
unfolding insert_rule
All-insert_rule P r [] h k = (h, tt)
All-insert_rule P r (q ∷ rules) h (k, ks) = elim (Bool-cases (lt_int q.priority r.priority)) [
  | inl lower ↦ rw (lower) (k, All-insert_rule P r rules h ks)
  | inr other ↦ rw (other) (h, (k, ks))
]

insert_rule-IsSorted :
    (r : Rule) (rules : List Rule) → IsSorted rules → IsSorted (insert_rule r rules)
unfolding insert_rule
insert_rule-IsSorted r [] h = (tt, tt)
insert_rule-IsSorted r (q ∷ rules) (h, hs) = elim (Bool-cases (lt_int q.priority r.priority)) [
  | inl lower ↦ rw (lower) (
    All-insert_rule (λ (x : Rule). lt_int x.priority q.priority ≡ false) r rules
        (lt_int_asym q.priority r.priority lower) h,
    insert_rule-IsSorted r rules hs,
  )
  | inr other ↦ rw (other) (
    (
      other,
      All-map
          (λ (x : Rule) (k : lt_int x.priority q.priority ≡ false).
            not-lt_int_trans r.priority q.priority x.priority other k)
          rules h,
    ),
    (h, hs),
  )
]

pub by_priority-IsSorted : (rules : List Rule) → IsSorted (by_priority rules)
unfolding by_priority
by_priority-IsSorted [] = tt
by_priority-IsSorted (r ∷ rules) =
    insert_rule-IsSorted r (by_priority rules) (by_priority-IsSorted rules)
