-- ===== src/Store/Graph.antt =====
-- internal/store/postgres/service_dependencies.go: the walks over the graph of dependencies.
pub mod Paths
pub mod Reachable
pub mod Edges
use Prim.Native.String
use uigraph_api.Prelude.{
  ℕ, zero, suc, ◌+◌, ltb, nat_beq, String, Bool, true, false, not, ◌&&◌, ◌||◌, Option, none, some,
  List, ◌==◌, find, filter, map, is_some, contains, [], ◌∷◌, ◌++◌, if◌then◌else◌,
}
use uigraph_api.Http.{Error, database}
use uigraph_api.Db.{Db, Service, Dependency}
use uigraph_api.Exec.{Exec, pure, stop, query, ◌>>=◌}
use uigraph_api.Store.Ordered.{Locale}
use uigraph_api.Store.Services.{is_active}
use uigraph_api.Store.Dependencies.{
  Edge, ServiceSummary, edges_where, selects, list_service_dependencies,
}

-- The two directions that a walk reads: of the rows of a service itself, and of the rows of others
-- that name it.
pub record Sides : Type 0 where
  pub own : String
  pub other : String

abbrev pub sides : String → Option Sides
sides direction =
    if direction == "upstream"
    then some (record { own = "downstream"; other = "upstream" })
    else if direction == "downstream"
    then some (record { own = "upstream"; other = "downstream" })
    else none

-- A row of the recursive table `walk`.
pub record WalkRow : Type 0 where
  pub service_id : String
  pub depth : ℕ
  pub path : List String

abbrev names : Option String → String → Bool
names none id = false
names (some target) id = target == id

-- The condition of the join with service_dependencies.
abbrev joins : String → Sides → String → Dependency → Bool
joins org_id side id d =
    d.org_id == org_id
    && not (is_some d.deleted_at)
    && ((d.service_id == id && d.direction == side.own)
        || (names d.dependency_id id && d.direction == side.other))

-- `CASE WHEN d.service_id = w.service_id THEN d.dependency_id ELSE d.service_id END`
abbrev far_end : String → Dependency → Option String
far_end id d = if d.service_id == id then d.dependency_id else some d.service_id

-- The condition of the join with services.
abbrev active_id : String → List Service → Option String → Option String
active_id org_id services none = none
active_id org_id services (some id) = elim (find (λ s. s.id == id && is_active org_id s) services) [
  | none ↦ none
  | some _ ↦ some id
]

-- The service that a row of service_dependencies leads to.
unfoldable pub next_id : Db → String → Sides → String → Dependency → Option String
next_id db org_id side id d =
    if joins org_id side id d then active_id org_id db.services (far_end id d) else none

abbrev pub stepped : WalkRow → String → WalkRow
stepped w id = record { service_id = id; depth = w.depth + 1; path = w.path ++ id ∷ [] }

abbrev pub step_to : WalkRow → Option String → List WalkRow
step_to w none = []
step_to w (some id) = if contains w.path id then [] else stepped w id ∷ []

module _ (db : Db) (org_id : String) (side : Sides) (max_depth : ℕ) where
  -- The rows that one row gives, along the given dependencies.
  unfoldable pub steps_of : WalkRow → List Dependency → List WalkRow
  steps_of w [] = []
  steps_of w (d ∷ ds) =
      (if ltb w.depth max_depth then step_to w (next_id db org_id side w.service_id d) else [])
      ++ steps_of w ds

  unfoldable pub steps : List WalkRow → List WalkRow
  unfolding steps_of
  steps [] = []
  steps (w ∷ ws) = steps_of w db.dependencies ++ steps ws

  -- Each round joins the rows of the round before it, and the query ends with a round that has
  -- none. The fuel bounds the rounds.
  unfoldable pub walk : ℕ → List WalkRow → List WalkRow
  unfolding steps
  walk zero rows = rows
  walk (suc rounds) rows = rows ++ walk rounds (steps rows)

-- `SELECT DISTINCT`
abbrev pub add_new : String → List String → List String
add_new id ids = if contains ids id then ids else id ∷ ids

unfoldable pub distinct : List String → List String
distinct [] = []
distinct (id ∷ ids) = add_new id (distinct ids)

abbrev pub start : String → WalkRow
start id = record { service_id = id; depth = 0; path = id ∷ [] }

unfoldable pub walked : String → Sides → String → ℕ → Db → List String
walked org_id side service_id max_depth db =
    distinct
      (map (λ w. w.service_id) (walk db org_id side max_depth max_depth (start service_id ∷ [])))

abbrev pub target_allowed : List String → Option ServiceSummary → Bool
target_allowed allowed none = true
target_allowed allowed (some s) = contains allowed s.id

-- The test on an edge whose two ends were walked; a service that is not in the catalog counts.
abbrev pub is_allowed : List String → Edge → Bool
is_allowed allowed e = contains allowed e.row.service_id && target_allowed allowed e.dependency

-- `if maxDepth <= 0 { maxDepth = 10 }`
abbrev pub depth_or_ten : ℕ → ℕ
depth_or_ten zero = 10
depth_or_ten (suc n) = suc n

unfoldable pub all_dependency_edges : Locale → String → Exec Error (List Edge)
unfolding list_service_dependencies
all_dependency_edges locale org_id = list_service_dependencies locale org_id "" "all" ""

abbrev walk_graph : Locale → String → String → ℕ → Option Sides → Exec Error (List Edge)
walk_graph locale org_id service_id max_depth none = stop database
walk_graph locale org_id service_id max_depth (some side) = do
  ids ← query (walked org_id side service_id (depth_or_ten max_depth))
  edges ← all_dependency_edges locale org_id
  pure (filter (is_allowed ids) edges)

-- dependencyGraph
unfoldable pub directed_graph : Locale → String → String → String → ℕ → Exec Error (List Edge)
unfolding all_dependency_edges
directed_graph locale org_id service_id direction max_depth =
    walk_graph locale org_id service_id max_depth (sides direction)

unfoldable pub impact : Locale → String → String → String → ℕ → Exec Error (List Edge)
unfolding directed_graph
impact locale org_id service_id direction max_depth =
    directed_graph locale org_id service_id direction max_depth

unfoldable pub dedupe : List String → List Edge → List Edge
dedupe seen [] = []
dedupe seen (e ∷ es) =
    let rest = dedupe (add_new e.row.id seen) es in
    if contains seen e.row.id then rest else e ∷ rest

unfoldable pub dedupe_edges : List Edge → List Edge → List Edge
unfolding dedupe
dedupe_edges a b = dedupe [] (a ++ b)

-- DependencyGraph
unfoldable pub dependency_graph : Locale → String → String → Exec Error (List Edge)
unfolding all_dependency_edges directed_graph dedupe_edges
dependency_graph locale org_id service_id =
    if service_id == "" then all_dependency_edges locale org_id else do
      up ← directed_graph locale org_id service_id "upstream" 0
      down ← directed_graph locale org_id service_id "downstream" 0
      pure (dedupe_edges up down)
