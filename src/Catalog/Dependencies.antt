-- ===== src/Catalog/Dependencies.antt =====
-- internal/api/catalog/service_dependencies.go: the handlers for the dependencies of services.
use uigraph_api.Prelude.{
  ℕ, String, not, ◌||◌, Option, none, some, List, [], ◌∷◌, ◌==◌, contains, if◌then◌else◌,
}
use uigraph_api.Prelude.Int.{ℤ, pos, negsuc}
use uigraph_api.Prelude.{ltb}
use uigraph_api.Http.{
  Error, invalid_dependency, Reply, json, bad_request, error_reply, unauthorized_reply,
}
use uigraph_api.Exec.{
  Exec, Result, ok, err, pure, stop_if, require, lift, attempt, capture, ◌>>=◌, ◌>>◌,
}
use uigraph_api.Identity.Principal.{Principal}
use uigraph_api.Store.Ordered.{Locale}
use uigraph_api.Store.Dependencies as Store
use uigraph_api.Store.Dependencies.{DependencyInput, Sync, Edge}
use uigraph_api.Store.Graph as Graph
use uigraph_api.Catalog.{ensure_service_in_org}

-- The checks of the loops, none if they pass.
unfoldable pub check_endpoints : List String → List String → Option String
check_endpoints seen [] = none
check_endpoints seen (name ∷ names) =
    let rest = check_endpoints (name ∷ seen) names in
    if name == ""
    then some "api endpoint names must not be empty"
    else if contains seen name
    then some "api endpoint names must be unique within a dependency"
    else rest

abbrev pub or_else : Option String → Option String → Option String
or_else none next = next
or_else (some message) next = some message

unfoldable pub check_dependency : List String → DependencyInput → Option String
unfolding check_endpoints
check_dependency seen d =
    if d.name == "" || d.dependency_name == ""
    then some "dependency name and service are required"
    else if contains seen d.name
    then some "dependency names must be unique"
    else if not (contains ("upstream" ∷ "downstream" ∷ []) d.direction)
    then some "dependency direction is required and must be upstream or downstream"
    else if not (contains ("" ∷ "http" ∷ "graphql" ∷ "grpc" ∷ "database" ∷ []) d.type)
    then some "dependency type must be http, graphql, grpc, or database"
    else if not (contains ("hard" ∷ "soft" ∷ []) d.criticality)
    then some "dependency criticality must be hard or soft"
    else check_endpoints [] d.api_endpoint_names

unfoldable pub check_dependencies : List String → List DependencyInput → Option String
unfolding check_dependency
check_dependencies seen [] = none
check_dependencies seen (d ∷ ds) =
    or_else (check_dependency seen d) (check_dependencies (d.name ∷ seen) ds)

abbrev refusal : {A : Type 0} → Option String → Result (Reply A) (Unit {0})
refusal none = ok tt
refusal (some message) = err (bad_request message)

abbrev pub sync_reply : {A : Type 0} → Result Error (Unit {0}) → Result (Reply A) (Unit {0})
sync_reply (ok tt) = ok tt
sync_reply (err invalid_dependency) =
    err (bad_request "invalid service dependency: dependency must not reference its own service")
sync_reply (err e) = err (error_reply e)

pub record SyncRequest : Type 0 where
  pub dependencies : List DependencyInput
  pub commit_hash : Option String

abbrev pub sync_of : (String → String) → String → String → Principal → SyncRequest → Sync
sync_of new_id org_id service_id p body = record {
  org_id = org_id;
  service_id = service_id;
  actor_id = p.user_id;
  commit_hash = body.commit_hash;
  new_id = new_id;
}

unfoldable pub sync_dependencies :
    (String → String)
    → String
    → String
    → Option Principal
    → Option SyncRequest
    → Exec (Reply (List DependencyInput)) (Reply (List DependencyInput))
sync_dependencies new_id org_id service_id principal body = do
  ensure_service_in_org org_id service_id
  p ← require principal unauthorized_reply
  req ← require body (bad_request "invalid request body")
  lift (refusal (check_dependencies [] req.dependencies))
  result ←
      capture
        (Store.sync_service_dependencies (sync_of new_id org_id service_id p req) req.dependencies)
  lift (sync_reply result)
  pure (json 200 req.dependencies)

-- Query parameters; a missing one is the empty text.
abbrev direction_or_all : String → String
direction_or_all direction = if direction == "" then "all" else direction

unfoldable pub list_dependencies :
    Locale → String → String → String → String → Exec (Reply (List Edge)) (Reply (List Edge))
list_dependencies locale org_id service_id direction criticality = do
  ensure_service_in_org org_id service_id
  stop_if (not (contains ("all" ∷ "upstream" ∷ "downstream" ∷ []) (direction_or_all direction)))
      (bad_request "direction must be all, upstream, or downstream")
  stop_if (not (contains ("" ∷ "hard" ∷ "soft" ∷ []) criticality))
      (bad_request "criticality must be hard or soft")
  edges ← attempt (
      Store.list_service_dependencies locale org_id service_id (direction_or_all direction)
        criticality)
  pure (json 200 edges)

unfoldable pub get_service_dependency_graph :
    Locale → String → String → Exec (Reply (List Edge)) (Reply (List Edge))
get_service_dependency_graph locale org_id service_id = do
  ensure_service_in_org org_id service_id
  edges ← attempt (Graph.dependency_graph locale org_id service_id)
  pure (json 200 edges)

unfoldable pub get_dependency_graph : Locale → String → Exec (Reply (List Edge)) (Reply (List Edge))
get_dependency_graph locale org_id = do
  edges ← attempt (Graph.dependency_graph locale org_id "")
  pure (json 200 edges)

-- `maxDepth`, between 1 and 100.
abbrev in_range : Option ℤ → Option ℕ
in_range none = none
in_range (some (negsuc n)) = none
in_range (some (pos n)) = if ltb n 1 || ltb 100 n then none else some n

unfoldable pub depth_of : (String → Option ℤ) → String → Option ℕ
depth_of atoi value = if value == "" then some 10 else in_range (atoi value)

unfoldable pub get_impact :
    (String → Option ℤ)
    → Locale
    → String
    → String
    → String
    → String
    → Exec (Reply (List Edge)) (Reply (List Edge))
get_impact atoi locale org_id service_id direction max_depth = do
  ensure_service_in_org org_id service_id
  stop_if (not (contains ("upstream" ∷ "downstream" ∷ []) direction))
      (bad_request "direction must be upstream or downstream")
  depth ← require (depth_of atoi max_depth) (bad_request "maxDepth must be between 1 and 100")
  edges ← attempt (Graph.impact locale org_id service_id direction depth)
  pure (json 200 edges)
