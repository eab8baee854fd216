-- ===== src/Store/Graph/Edges.antt =====
-- The edges between the services that a walk finds, and the union of two walks.
use uigraph_api.Prelude.{
  ℕ, ◌+◌, String, Bool, true, false, Option, none, some, List, [], ◌∷◌, ◌≡◌, refl, inl, inr, ◌↔◌,
  arith, filter, In, Bool-cases, subst,
}
use uigraph_api.Db.{Db}
use uigraph_api.Exec.{World, ok, ◌>>=◌}
use uigraph_api.Store.Ordered.{Locale}
use uigraph_api.Store.Dependencies.{Edge, ServiceSummary, edges_where, selects}
use uigraph_api.Store.Graph.{
  Sides, sides, walked, is_allowed, target_allowed, directed_graph, depth_or_ten,
}
use uigraph_api.Store.Graph.Reachable.{Reaches, walked_iff}

pub In-filter :
    {A : Type 0} (p : A → Bool) (x : A) (xs : List A)
    → In x (filter p xs) ↔ (In x xs × (p x ≡ true))
In-filter p x [] = (λ i. elim i [ ], λ (i, t). elim i [ ])
In-filter p x (y ∷ ys) = elim (Bool-cases (p y)) [
  | inl t ↦
      let (there, back) = In-filter p x ys in
      rw t (
        λ i. elim i [
          | inl e ↦ (inl e, subst (λ z. p z ≡ true) e t)
          | inr j ↦ let (k, q) = there j in (inr k, q)
        ],
        λ (i, q). elim i [ inl e ↦ inl e | inr j ↦ inr (back (j, q)) ],
      )
  | inr f ↦
      let (there, back) = In-filter p x ys in
      rw f (
        λ i. let (k, q) = there i in (inr k, q),
        λ (i, q). elim i [
          | inl e ↦ absurd (let t = subst (λ z. p z ≡ false) e f in cc)
          | inr j ↦ back (j, q)
        ],
      )
]

module _ (db : Db) (org_id : String) (side : Sides) (depth : ℕ) (from : String) where
  abbrev TargetReached : Option ServiceSummary → Type 0
  TargetReached none = Unit
  TargetReached (some s) = Reaches db org_id side depth from s.id

  -- Both ends of an edge are reached; an end that is not an active service of the catalog counts.
  abbrev pub Joined : Edge → Type 0
  Joined e = Reaches db org_id side depth from e.row.service_id × TargetReached e.dependency

  target_iff :
      (t : Option ServiceSummary)
      → (target_allowed (walked org_id side from depth db) t ≡ true) ↔ TargetReached t
  target_iff none = (λ _. tt, λ _. refl)
  target_iff (some s) = walked_iff db org_id side depth from s.id

  is_allowed_iff : (e : Edge) → (is_allowed (walked org_id side from depth db) e ≡ true) ↔ Joined e
  is_allowed_iff e =
      let (reached, walks) = walked_iff db org_id side depth from e.row.service_id in
      let (target, allows) = target_iff e.dependency in
      (
        λ h. (reached (ground arith), target (ground arith)),
        λ (r, t). ground (arith, walks r, allows t),
      )

-- While the database answers, a walk returns the edges of the organisation whose ends it reaches.
pub directed_graph_edges :
    (locale : Locale) (org_id from direction : String) (side : Sides) (max : ℕ) (w : World)
    → sides direction ≡ some side
    → ((n : ℕ) → w.fails n ≡ false)
    → (edges : List Edge) × ((directed_graph locale org_id from direction max w).0 ≡ ok edges)
      × ((e : Edge)
          → In e edges ↔ (
              In e (edges_where locale (selects org_id "" "all" "") w.db)
              × Joined w.db org_id side (depth_or_ten max) from e))
unfolding directed_graph ◌>>=◌
directed_graph_edges locale org_id from direction side max w known answers =
    let all = edges_where locale (selects org_id "" "all" "") w.db in
    let ids = walked org_id side from (depth_or_ten max) w.db in
    (
      filter (is_allowed ids) all,
      rw (known, answers w.calls, answers (w.calls + 1)) refl,
      λ e.
          let (there, back) = In-filter (is_allowed ids) e all in
          let (joined, allowed) = is_allowed_iff w.db org_id side (depth_or_ten max) from e in
          (λ i. let (j, t) = there i in (j, joined t), λ (j, t). back (j, allowed t)),
    )
