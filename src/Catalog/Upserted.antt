-- ===== src/Catalog/Upserted.antt =====
-- What the loop of a synchronisation makes of the rows of dependencies.
use uigraph_api.Prelude.{
  ℕ, String, Bool, true, false, not, ◌&&◌, Option, none, some, List, [], ◌∷◌, ◌≡◌, refl, ◌==◌,
  eq_iff, eq_refl, inl, inr, arith, any, find, filter, contains, is_some, Bool-cases, if◌then◌else◌,
  subst, sym, ap, ◌∙◌,
}
use uigraph_api.Db.{Dependency, Service}
use uigraph_api.Exec.{ok}
use uigraph_api.Store.Tables.{update_where, insert}
use uigraph_api.Store.Dependencies.{
  DependencyInput, Sync, has_key, resolved, is_own, is_refused, upserted, overwritten, inserted,
  upsert_all, cleared,
}
use uigraph_api.Catalog.Dependencies.{check_dependency, check_dependencies, or_else}

-- The dependency of that name that a service has.
abbrev pub is_live : Sync → String → Dependency → Bool
is_live s name d = has_key s name d && not (is_some d.deleted_at)

abbrev pub input_of : Dependency → DependencyInput
input_of d = record {
  name = d.name;
  dependency_name = d.dependency_name;
  direction = d.direction;
  type = d.type;
  criticality = d.criticality;
  description = d.description;
  api_group_name = d.api_group_name;
  api_endpoint_names = d.api_endpoint_names;
  database_name = d.database_name;
}

abbrev pub shown : Option Dependency → Option DependencyInput
shown none = none
shown (some d) = some (input_of d)

abbrev first_of : Option DependencyInput → Option DependencyInput → Option DependencyInput
first_of none next = next
first_of (some d) next = some d

-- The rows of the other services.
abbrev pub others : Sync → List Dependency → List Dependency
others s rows = filter (λ d. not (d.service_id == s.service_id)) rows

others-insert :
    (s : Sync) (d : Dependency) (rows : List Dependency)
    → (d.service_id == s.service_id) ≡ true
    → others s (insert d rows) ≡ others s rows
others-insert s d [] h = ground arith
others-insert s d (x ∷ rows) h = ground (arith, others-insert s d rows h)

others-update :
    (s : Sync) (p : Dependency → Bool) (f : Dependency → Dependency) (rows : List Dependency)
    → ((x : Dependency) → p x ≡ true → (x.service_id == s.service_id) ≡ true)
    → ((x : Dependency) → (f x).service_id ≡ x.service_id)
    → others s (update_where p f rows) ≡ others s rows
unfolding update_where
others-update s p f [] own same = refl
others-update s p f (x ∷ rows) own same =
    ground (arith, own x, same x, others-update s p f rows own same)

module _ (now : ℕ) (s : Sync) where
  pub find-cleared :
      (name : String) (rows : List Dependency) → find (is_live s name) (cleared now s rows) ≡ none
  unfolding update_where
  find-cleared name [] = refl
  find-cleared name (d ∷ rows) = ground (arith, find-cleared name rows)

  module _ (target : Option String) (d : DependencyInput) where
    find-inserted :
        (name : String) (rows : List Dependency)
        → any (has_key s d.name) rows ≡ false
        → shown (find (is_live s name) (insert (inserted now s target d) rows))
          ≡ (if d.name == name then some d else shown (find (is_live s name) rows))
    find-inserted name [] h = ground (arith, eq_refl s.service_id)
    find-inserted name (x ∷ rows) h = ground (
      arith,
      find-inserted name rows,
      eq_iff x.name name,
      eq_iff d.name name,
      eq_iff x.name d.name,
    )

    find-overwritten_other :
        (name : String) (rows : List Dependency)
        → (d.name == name) ≡ false
        → find (is_live s name) (update_where (has_key s d.name) (overwritten now s target d) rows)
          ≡ find (is_live s name) rows
    unfolding update_where
    find-overwritten_other name [] h = refl
    find-overwritten_other name (x ∷ rows) h = ground (
      arith,
      find-overwritten_other name rows h,
      eq_iff x.name name,
      eq_iff d.name name,
      eq_iff x.name d.name,
    )

    overwritten_input :
        (x : Dependency) → (x.name == d.name) ≡ true → input_of (overwritten now s target d x) ≡ d
    overwritten_input x h = ground (arith, h, eq_iff x.name d.name)

    find-overwritten :
        (rows : List Dependency)
        → any (has_key s d.name) rows ≡ true
        → shown (
            find
              (is_live s d.name)
              (update_where (has_key s d.name) (overwritten now s target d) rows))
          ≡ some d
    unfolding update_where
    find-overwritten [] h = absurd (ground arith)
    find-overwritten (x ∷ rows) h = elim (Bool-cases (has_key s d.name x)) [
      | inl t ↦ ground (arith, t, overwritten_input x (ground (arith, t)))
      | inr f ↦ ground (arith, f, find-overwritten rows (ground (arith, f, h)))
    ]

    -- A row for one name changes what the service has of that name, and of no other.
    find-upserted :
        (name : String) (rows : List Dependency)
        → shown (find (is_live s name) (upserted now s target d rows))
          ≡ (if d.name == name then some d else shown (find (is_live s name) rows))
    unfolding upserted
    find-upserted name rows = elim (Bool-cases (any (has_key s d.name) rows)) [
      | inr new ↦ rw new (find-inserted name rows new)
      | inl old ↦ elim (Bool-cases (d.name == name)) [
        | inr other ↦ rw (old, other) (ap shown (find-overwritten_other name rows other))
        | inl same ↦
            rw (old, same)
              (subst
                (λ n.
                  shown (
                    find (is_live s n)
                      (update_where (has_key s d.name) (overwritten now s target d) rows))
                  ≡ some d)
                ((eq_iff d.name name).0 same) (find-overwritten rows old))
      ]
    ]

    others-upserted :
        (rows : List Dependency) → others s (upserted now s target d rows) ≡ others s rows
    unfolding upserted
    others-upserted rows = elim (Bool-cases (any (has_key s d.name) rows)) [
      | inr new ↦ rw new (others-insert s (inserted now s target d) rows (eq_refl s.service_id))
      | inl old ↦ rw old (
          others-update s (has_key s d.name) (overwritten now s target d) rows (λ x h. ground arith)
            (λ x. refl))
    ]

  -- A name that was seen before is refused, so no later dependency has it.
  seen_once :
      (seen : List String) (ds : List DependencyInput) (name : String)
      → check_dependencies seen ds ≡ none
      → contains seen name ≡ true
      → find (λ d. d.name == name) ds ≡ none
  unfolding check_dependencies
  seen_once seen [] name h k = refl
  seen_once seen (d ∷ ds) name h k =
      ground (arith, h, k, eq_iff d.name name, seen_once (d.name ∷ seen) ds name)

  pub upsert_rest :
      (services : List Service) (d : DependencyInput) (ds : List DependencyInput)
      (rows rows' : List Dependency)
      → upsert_all now s services (d ∷ ds) rows ≡ ok rows'
      → (is_own s (resolved s services d.dependency_name) ≡ false)
        × (upsert_all now s services ds
              (upserted now s (resolved s services d.dependency_name) d rows)
            ≡ ok rows')
  unfolding upsert_all
  upsert_rest services d ds rows rows' fine =
      elim (Bool-cases (is_own s (resolved s services d.dependency_name))) [
        | inl own ↦ absurd (ground (arith, own))
        | inr other ↦ elim (Bool-cases (is_refused s services d)) [
          | inl refused ↦ absurd (ground (arith, other, refused))
          | inr kept ↦ (other, (rw (other, kept) at fine))
        ]
      ]

  or_else-none : (a b : Option String) → or_else a b ≡ none → b ≡ none
  or_else-none none b h = h
  or_else-none (some x) b h = absurd (ground arith)

  -- After the loop the service has the given dependencies, and those of other names that it had.
  pub upsert_all-live :
      (services : List Service) (ds : List DependencyInput) (seen : List String)
      (rows rows' : List Dependency)
      → check_dependencies seen ds ≡ none
      → upsert_all now s services ds rows ≡ ok rows'
      → ((name : String)
          → shown (find (is_live s name) rows')
            ≡ first_of (find (λ d. d.name == name) ds) (shown (find (is_live s name) rows)))
        × (others s rows' ≡ others s rows)
  unfolding upsert_all check_dependencies
  upsert_all-live services [] seen rows rows' h fine =
      let e : rows ≡ rows' = ground arith in
      (λ name. ap (λ r. shown (find (is_live s name) r)) (sym e), ap (others s) (sym e))
  upsert_all-live services (d ∷ ds) seen rows rows' h fine =
      let target : Option String = resolved s services d.dependency_name in
      let new : List Dependency = upserted now s target d rows in
      let once : check_dependencies (d.name ∷ seen) ds ≡ none =
        or_else-none (check_dependency seen d) (check_dependencies (d.name ∷ seen) ds) h in
      let (_, rest) = upsert_rest services d ds rows rows' fine in
      let (names, kept) = upsert_all-live services ds (d.name ∷ seen) new rows' once rest in
      (
        λ name. elim (Bool-cases (d.name == name)) [
          | inl t ↦ ground (
            arith,
            t,
            names name,
            find-upserted target d name rows,
            seen_once (d.name ∷ seen) ds name once (ground (arith, t)),
          )
          | inr f ↦ ground (arith, f, names name, find-upserted target d name rows)
        ],
        kept ∙ others-upserted target d rows,
      )

  pub others-cleared : (rows : List Dependency) → others s (cleared now s rows) ≡ others s rows
  others-cleared rows = others-update s _ _ rows (λ x h. ground arith) (λ x. refl)
