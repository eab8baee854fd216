-- ===== src/Store/Graph/Reachable.antt =====
-- Which services the recursive query of dependencyGraph finds.
use uigraph_api.Prelude.{
  ℕ, zero, suc, ◌+◌, ◌≤◌, ltb, String, true, false, some, List, [], ◌∷◌, ◌≡◌, refl, ◌==◌, eq_iff,
  eq_refl, ◌⊎◌, inl, inr, ◌↔◌, arith, length, contains, All, In, Any, Bool-cases, Option-cases,
  subst, sym,
}
use uigraph_api.Db.{Db, Dependency}
use uigraph_api.Store.Graph.{Sides, WalkRow, next_id, stepped, steps_of, steps, walk, start, walked}
use uigraph_api.Store.Graph.Paths.{
  Distinct, ids, contains-distinct, ids-append, In-append_left, In-append_right, In-ids, avoids,
  apart,
}

module _ (db : Db) (org_id : String) (side : Sides) where
  -- A live row of the organisation leads from one service to the other, which is active.
  abbrev pub Linked : String → String → Type 0
  Linked a b = Any (λ d. next_id db org_id side a d ≡ some b) db.dependencies

  -- The second service is reached from the first in so many steps at most.
  abbrev pub Reaches : ℕ → String → String → Type 0
  Reaches zero a b = a ≡ b
  Reaches (suc n) a b = (a ≡ b) ⊎ ((c : String) × Linked a c × Reaches n c b)

  -- The services after the first one on a way from it to another.
  abbrev Way : List String → String → String → Type 0
  Way [] a b = a ≡ b
  Way (c ∷ cs) a b = Linked a c × Way cs c b

  -- What a round adds is one step away from a row of the round before.
  module _ (max : ℕ) where
    steps_of_sound :
        (w : WalkRow) (ds : List Dependency) (b : String)
        → contains (ids (steps_of db org_id side max w ds)) b ≡ true
        → Any (λ d. next_id db org_id side w.service_id d ≡ some b) ds
    unfolding steps_of
    steps_of_sound w [] b h = absurd (ground arith)
    steps_of_sound w (d ∷ ds) b h = elim (Option-cases (next_id db org_id side w.service_id d)) [
      | inl e ↦ inr (steps_of_sound w ds b (ground (arith, e)))
      | inr (c, e) ↦ elim (Bool-cases (c == b)) [
        | inl same ↦ inl (ground (arith, e, same, eq_iff c b))
        | inr other ↦ inr (steps_of_sound w ds b (ground (arith, e, other)))
      ]
    ]

    steps_sound :
        (rows : List WalkRow) (b : String)
        → contains (ids (steps db org_id side max rows)) b ≡ true
        → (a : String) × (contains (ids rows) a ≡ true) × Linked a b
    unfolding steps
    steps_sound [] b h = absurd (ground arith)
    steps_sound (w ∷ ws) b h =
        elim (Bool-cases (contains (ids (steps_of db org_id side max w db.dependencies)) b)) [
          | inl here ↦ (
            w.service_id,
            ground (arith, eq_refl w.service_id),
            steps_of_sound w db.dependencies b here,
          )
          | inr later ↦
              let (a, i, l) = steps_sound ws b (
                ground (
                  arith,
                  later,
                  ids-append b (steps_of db org_id side max w db.dependencies)
                      (steps db org_id side max ws),
                )) in
              (a, ground (arith, i), l)
        ]

    walk_sound :
        (n : ℕ) (rows : List WalkRow) (b : String)
        → contains (ids (walk db org_id side max n rows)) b ≡ true
        → (a : String) × (contains (ids rows) a ≡ true) × Reaches n a b
    unfolding walk
    walk_sound zero rows b h = (b, h, refl)
    walk_sound (suc n) rows b h = elim (Bool-cases (contains (ids rows) b)) [
      | inl here ↦ (b, here, inl refl)
      | inr later ↦
          let (c, i, r) = walk_sound n (steps db org_id side max rows) b (
            ground (
              arith,
              later,
              ids-append b rows (walk db org_id side max n (steps db org_id side max rows)),
            )) in
          let (a, j, l) = steps_sound rows c i in (a, j, inr (c, l, r))
    ]

    walk_keeps :
        (n : ℕ) (rows : List WalkRow) (b : String)
        → contains (ids rows) b ≡ true
        → contains (ids (walk db org_id side max n rows)) b ≡ true
    unfolding walk
    walk_keeps zero rows b h = h
    walk_keeps (suc n) rows b h =
        ground
          (arith, h, ids-append b rows (walk db org_id side max n (steps db org_id side max rows)))

    steps_of_complete :
        (w : WalkRow) (ds : List Dependency) (c : String)
        → Any (λ d. next_id db org_id side w.service_id d ≡ some c) ds
        → contains w.path c ≡ false
        → ltb w.depth max ≡ true
        → In (stepped w c) (steps_of db org_id side max w ds)
    unfolding steps_of
    steps_of_complete w [] c l new below = elim l [ ]
    steps_of_complete w (d ∷ ds) c (inl e) new below = rw (below, e, new) (inl refl)
    steps_of_complete w (d ∷ ds) c (inr l) new below =
        In-append_right (stepped w c) _ _ (steps_of_complete w ds c l new below)

    steps_complete :
        (rows : List WalkRow) (w : WalkRow) (c : String)
        → In w rows
        → Linked w.service_id c
        → contains w.path c ≡ false
        → ltb w.depth max ≡ true
        → In (stepped w c) (steps db org_id side max rows)
    unfolding steps
    steps_complete [] w c i l new below = elim i [ ]
    steps_complete (v ∷ vs) w c (inl e) l new below = In-append_left (stepped w c) _ _ (
        subst (λ u. In (stepped w c) (steps_of db org_id side max u db.dependencies)) (sym e)
          (steps_of_complete w db.dependencies c l new below))
    steps_complete (v ∷ vs) w c (inr i) l new below =
        In-append_right (stepped w c) _ _ (steps_complete vs w c i l new below)

    -- A way without repetitions that avoids the path of a row is walked.
    walk_complete :
        (cs : List String) (n : ℕ) (rows : List WalkRow) (w : WalkRow) (b : String)
        → In w rows
        → Way cs w.service_id b
        → All (λ c. contains w.path c ≡ false) cs
        → Distinct cs
        → w.depth + length cs ≤ max
        → length cs ≤ n
        → contains (ids (walk db org_id side max n rows)) b ≡ true
    unfolding walk
    walk_complete [] n rows w b i way new d deep fuel =
        walk_keeps n rows b (subst (λ x. contains (ids rows) x ≡ true) way (In-ids rows w i))
    walk_complete (c ∷ cs) zero rows w b i way new d deep fuel = absurd (omega arith)
    walk_complete (c ∷ cs) (suc n) rows w b i (l, way) (fresh, new) (once, d) deep fuel =
        let later =
          walk_complete cs n (steps db org_id side max rows) (stepped w c) b
            (steps_complete rows w c i l fresh (ground arith)) way (avoids w.path c cs once new) d
            (omega arith) (omega arith) in
        ground (
          arith,
          later,
          ids-append b rows (walk db org_id side max n (steps db org_id side max rows)),
        )

  -- What follows an occurrence of a service on a way.
  straight_suffix :
      (cs : List String) (c a b : String)
      → Way cs c b
      → Distinct cs
      → contains cs a ≡ true
      → (ys : List String) × Way ys a b
        × (contains ys a ≡ false)
        × Distinct ys
        × (length ys ≤ length cs)
  straight_suffix [] c a b way d h = absurd (ground arith)
  straight_suffix (x ∷ xs) c a b (l, way) (once, d) h = elim (Bool-cases (x == a)) [
    | inl same ↦
        let e : x ≡ a = ground (arith, same, eq_iff x a) in
        (
          xs,
          subst (λ y. Way xs y b) e way,
          subst (λ y. contains xs y ≡ false) e once,
          d,
          omega arith,
        )
    | inr other ↦
        let (ys, v, new, dy, short) = straight_suffix xs x a b way d (ground (arith, other)) in
        (ys, v, new, dy, omega arith)
  ]

  -- A way has one without repetitions that is not longer.
  straightened :
      (cs : List String) (a b : String)
      → Way cs a b
      → (ys : List String) × Way ys a b
        × (contains ys a ≡ false)
        × Distinct ys
        × (length ys ≤ length cs)
  straightened [] a b way = ([], way, refl, tt, omega arith)
  straightened (c ∷ cs) a b (l, way) =
      let (ys, v, new, d, short) = straightened cs c b way in
      elim (Bool-cases (c == a)) [
        | inl same ↦
            let e : c ≡ a = ground (arith, same, eq_iff c a) in
            (
              ys,
              subst (λ y. Way ys y b) e v,
              subst (λ y. contains ys y ≡ false) e new,
              d,
              omega arith,
            )
        | inr other ↦ elim (Bool-cases (contains ys a)) [
          | inl again ↦
              let (zs, u, first, dz, less) = straight_suffix ys c a b v d again in
              (zs, u, first, dz, omega arith)
          | inr never ↦ (c ∷ ys, (l, v), ground (arith, other, never), (new, d), omega arith)
        ]
      ]

  Reaches→Way :
      (n : ℕ) (a b : String) → Reaches n a b → (cs : List String) × Way cs a b × (length cs ≤ n)
  Reaches→Way zero a b e = ([], e, omega arith)
  Reaches→Way (suc n) a b (inl e) = ([], e, omega arith)
  Reaches→Way (suc n) a b (inr (c, l, r)) =
      let (cs, way, short) = Reaches→Way n c b r in (c ∷ cs, (l, way), omega arith)

  -- The recursive query finds the services that are reached in so many steps at most, whatever
  -- cycles there are.
  pub walked_iff :
      (max : ℕ) (a b : String) → (contains (walked org_id side a max db) b ≡ true) ↔ Reaches max a b
  unfolding walked
  walked_iff max a b = (
    λ h.
        let (c, i, r) = walk_sound max max (start a ∷ []) b (
          ground
            (arith, h, contains-distinct b (ids (walk db org_id side max max (start a ∷ []))))) in
        subst (λ x. Reaches max x b) (ground (arith, i, eq_iff a c)) r,
    λ r.
        let (cs, way, short) = Reaches→Way max a b r in
        let (ys, v, new, d, less) = straightened cs a b way in
        let found =
          walk_complete max ys max (start a ∷ []) (start a) b (inl refl) v (apart a ys new) d
            (omega arith) (omega arith) in
        ground
          (arith, found, contains-distinct b (ids (walk db org_id side max max (start a ∷ [])))),
  )
