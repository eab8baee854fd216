-- ===== src/Catalog/Impact.antt =====
-- What the handlers for the graph of dependencies answer.
use uigraph_api.Prelude.{
  ℕ, ◌≤◌, String, true, false, Option, none, some, List, ◌≡◌, refl, arith, inl, inr, ◌↔◌, In, ◌==◌,
  eq_iff, subst, find, Option-cases, contains, [], ◌∷◌, Bool-cases, suc, zero,
}
use uigraph_api.Prelude.Int.{ℤ, pos, negsuc}
use uigraph_api.Http.{json}
use uigraph_api.Db.{Service}
use uigraph_api.Exec.{World, ok, ◌>>=◌}
use uigraph_api.Store.Services.{get_service}
use uigraph_api.Store.Ordered.{Locale}
use uigraph_api.Store.Dependencies.{Edge, edges_where, selects}
use uigraph_api.Store.Graph.{Sides, sides, impact, depth_or_ten}
use uigraph_api.Store.Graph.Edges.{Joined, directed_graph_edges}
use uigraph_api.Exec.Steps.{called}
use uigraph_api.Catalog.{ensure_service_in_org}
use uigraph_api.Catalog.Dependencies.{get_impact, depth_of}

-- The path names a service of the organisation that is not deleted.
pub record IsListed (w : World) (org_id service_id : String) (s : Service) : Type 0 where
  pub found : find (λ row. row.id == service_id) w.db.services ≡ some s
  pub kept : s.deleted_at ≡ none
  pub owned : s.org_id ≡ org_id

pub ensured :
    {A : Type 0} (org_id service_id : String) (w : World) (s : Service)
    → IsListed w org_id service_id s
    → w.fails w.calls ≡ false
    → ensure_service_in_org {A = A} org_id service_id w ≡ (ok tt, called w)
unfolding ensure_service_in_org get_service ◌>>=◌
ensured org_id service_id w s l answers =
    rw (answers, l.found, l.kept) (ground (arith, l.owned, eq_iff s.org_id org_id))

depth_bounds :
    (atoi : String → Option ℤ) (text : String) (n : ℕ)
    → depth_of atoi text ≡ some n
    → (1 ≤ n) × (n ≤ 100)
unfolding depth_of
depth_bounds atoi text n e = elim (Bool-cases (text == "")) [
  | inl t ↦ ground (arith, t)
  | inr f ↦ elim (Option-cases (atoi text)) [
    | inl k ↦ absurd (ground (arith, f, k))
    | inr (pos m, k) ↦ ground (arith, f, k)
    | inr (negsuc m, k) ↦ absurd (ground (arith, f, k))
  ]
]

depth_kept : (n : ℕ) → 1 ≤ n → depth_or_ten n ≡ n
depth_kept zero h = absurd (omega arith)
depth_kept (suc n) h = refl

sides_known :
    (direction : String) (side : Sides)
    → sides direction ≡ some side
    → contains ("upstream" ∷ "downstream" ∷ []) direction ≡ true
sides_known direction side e = ground (
  arith,
  eq_iff "upstream" direction,
  eq_iff direction "upstream",
  eq_iff "downstream" direction,
  eq_iff direction "downstream",
)

-- For a service of the organisation that is not deleted, a direction that is one of the two, and a
-- maximal depth that is not refused, while the database answers: GetImpact replies 200, its depth
-- is between 1 and 100, and the edges are those live dependencies of the organisation that start at
-- a service which the one of the path reaches in so many steps at most, and end at such a service
-- or at none that is active.
pub get_impact-Joined :
    (atoi : String → Option ℤ) (locale : Locale) (org_id service_id direction text : String)
    (s : Service) (side : Sides) (n : ℕ) (w : World)
    → IsListed w org_id service_id s
    → sides direction ≡ some side
    → depth_of atoi text ≡ some n
    → ((k : ℕ) → w.fails k ≡ false)
    → (edges : List Edge) × ((get_impact atoi locale org_id service_id direction text w).0
        ≡ ok (json 200 edges))
      × (1 ≤ n)
      × (n ≤ 100)
      × ((e : Edge)
          → In e edges ↔ (
              In e (edges_where locale (selects org_id "" "all" "") w.db)
              × Joined w.db org_id side n service_id e))
unfolding get_impact impact ◌>>=◌
get_impact-Joined atoi locale org_id service_id direction text s side n w listed known depth
      answers =
    let (edges, reply, which) =
      directed_graph_edges locale org_id service_id direction side n (called w) known answers in
    let (low, high) = depth_bounds atoi text n depth in
    (
      edges,
      rw
          (
            ensured {A = List Edge} org_id service_id w s listed (answers w.calls),
            sides_known direction side known,
            depth,
            reply,
          )
          refl,
      low,
      high,
      subst
          (λ k.
            (e : Edge)
            → In e edges ↔ (
                In e (edges_where locale (selects org_id "" "all" "") w.db)
                × Joined w.db org_id side k service_id e))
          (depth_kept n low) which,
    )
