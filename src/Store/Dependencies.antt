-- ===== src/Store/Dependencies.antt =====
-- internal/store/postgres/service_dependencies.go
use uigraph_api.Prelude.{
  ℕ, String, Bool, false, not, ◌&&◌, ◌||◌, Option, none, some, List, ◌==◌, any, find, filter, map,
  is_some, contains, [], ◌∷◌, if◌then◌else◌,
}
use uigraph_api.Http.{Error, database, invalid_dependency}
use uigraph_api.Db.{Db, Service, Dependency}
use uigraph_api.Exec.{Exec, Result, ok, err, query, statement, now_of, ◌>>=◌}
use uigraph_api.Store.Tables.{update_where, insert}
use uigraph_api.Store.Ordered.{Locale, order_by}
use uigraph_api.Store.Services.{is_active}

-- What a request says of a dependency; its service is the name that it depends on.
pub record DependencyInput : Type 0 where
  pub name : String
  pub dependency_name : String
  pub direction : String
  pub type : String
  pub criticality : String
  pub description : String
  pub api_group_name : Option String
  pub api_endpoint_names : List String
  pub database_name : Option String

-- The arguments of a synchronisation. `new_id` is the id that the database draws for the row of a
-- name.
pub record Sync : Type 0 where
  pub org_id : String
  pub service_id : String
  pub actor_id : String
  pub commit_hash : Option String
  pub new_id : String → String

abbrev id_option : Option Service → Option String
id_option none = none
id_option (some s) = some s.id

-- The active service of the name.
abbrev pub resolved : Sync → List Service → String → Option String
resolved s services name =
    id_option (find (λ row. is_active s.org_id row && row.name == name) services)

abbrev pub is_own : Sync → Option String → Bool
is_own s none = false
is_own s (some id) = id == s.service_id

abbrev pub cleared : ℕ → Sync → List Dependency → List Dependency
cleared now s rows =
    update_where (λ d. d.service_id == s.service_id && not (is_some d.deleted_at))
      (λ d. record d { deleted_at = some now; deleted_by = some s.actor_id }) rows

-- `UNIQUE (service_id, name)`
abbrev pub has_key : Sync → String → Dependency → Bool
has_key s name d = d.service_id == s.service_id && d.name == name

abbrev pub inserted : ℕ → Sync → Option String → DependencyInput → Dependency
inserted now s target d = record {
  id = s.new_id d.name;
  service_id = s.service_id;
  dependency_id = target;
  dependency_name = d.dependency_name;
  direction = d.direction;
  org_id = s.org_id;
  name = d.name;
  type = d.type;
  criticality = d.criticality;
  description = d.description;
  api_group_name = d.api_group_name;
  api_endpoint_names = d.api_endpoint_names;
  database_name = d.database_name;
  created_by = s.actor_id;
  updated_by = some s.actor_id;
  created_by_commit_hash = s.commit_hash;
  updated_by_commit_hash = s.commit_hash;
  created_at = now;
  updated_at = now;
  deleted_at = none;
  deleted_by = none;
}

abbrev pub overwritten : ℕ → Sync → Option String → DependencyInput → Dependency → Dependency
overwritten now s target d row = record row {
  dependency_id = target;
  dependency_name = d.dependency_name;
  direction = d.direction;
  type = d.type;
  criticality = d.criticality;
  description = d.description;
  api_group_name = d.api_group_name;
  api_endpoint_names = d.api_endpoint_names;
  database_name = d.database_name;
  updated_by = some s.actor_id;
  updated_by_commit_hash = s.commit_hash;
  updated_at = now;
  deleted_at = none;
  deleted_by = none;
}

unfoldable pub upserted :
    ℕ → Sync → Option String → DependencyInput → List Dependency → List Dependency
upserted now s target d rows =
    if any (has_key s d.name) rows
    then update_where (has_key s d.name) (overwritten now s target d) rows
    else insert (inserted now s target d) rows

-- The CHECKs of the table, and the reference to the service.
abbrev pub is_refused : Sync → List Service → DependencyInput → Bool
is_refused s services d =
    not (any (λ row. row.id == s.service_id) services)
    || not (contains ("upstream" ∷ "downstream" ∷ []) d.direction)
    || not (contains ("" ∷ "http" ∷ "graphql" ∷ "grpc" ∷ "database" ∷ []) d.type)
    || not (contains ("hard" ∷ "soft" ∷ []) d.criticality)

-- The loop over the dependencies; an error ends it, and the transaction is rolled back.
unfoldable pub upsert_all :
    ℕ
    → Sync
    → List Service
    → List DependencyInput
    → List Dependency
    → Result Error (List Dependency)
upsert_all now s services [] rows = ok rows
upsert_all now s services (d ∷ ds) rows =
    let target : Option String = resolved s services d.dependency_name in
    let rest = upsert_all now s services ds (upserted now s target d rows) in
    if is_own s target
    then err invalid_dependency
    else if is_refused s services d
    then err database
    else rest

abbrev pub synced : ℕ → Sync → List DependencyInput → Db → Result Error (List Dependency)
synced now s deps db = upsert_all now s db.services deps (cleared now s db.dependencies)

abbrev pub done : Result Error (List Dependency) → Result Error (Unit {0})
done (ok rows) = ok tt
done (err e) = err e

abbrev pub rows_or : List Dependency → Result Error (List Dependency) → List Dependency
rows_or old (ok rows) = rows
rows_or old (err e) = old

unfoldable pub sync_service_dependencies : Sync → List DependencyInput → Exec Error (Unit {0})
sync_service_dependencies s deps = do
  now ← now_of
  statement (λ db. done (synced now s deps db))
      (λ db. record db { dependencies = rows_or db.dependencies (synced now s deps db) })

-- The columns of a service that an edge shows.
pub record ServiceSummary : Type 0 where
  pub id : String
  pub name : String
  pub description : String
  pub status : String
  pub tier : String
  pub category : String
  pub language : String
  pub git_repo_url : Option String
  pub updated_at : ℕ
  pub metadata : String

abbrev summary : Option Service → Option ServiceSummary
summary none = none
summary (some s) = some (record {
  id = s.id;
  name = s.name;
  description = s.description;
  status = s.status;
  tier = s.tier;
  category = s.category;
  language = s.language;
  git_repo_url = s.git_repo_url;
  updated_at = s.updated_at;
  metadata = s.metadata;
})

pub record Edge : Type 0 where
  pub row : Dependency
  pub service : Option ServiceSummary
  pub dependency : Option ServiceSummary

abbrev is_target : Option String → Service → Bool
is_target none s = false
is_target (some id) s = s.id == id

abbrev pub edge_of : List Service → Dependency → Edge
edge_of services d = record {
  row = d;
  service = summary (find (λ s. s.id == d.service_id && not (is_some s.deleted_at)) services);
  dependency = summary (
      find (λ s. is_target d.dependency_id s && s.status == "active" && not (is_some s.deleted_at))
        services);
}

abbrev pub selects : String → String → String → String → Dependency → Bool
selects org_id service_id direction criticality d =
    d.org_id == org_id
    && not (is_some d.deleted_at)
    && (service_id == "" || d.service_id == service_id)
    && (direction == "" || direction == "all" || d.direction == direction)
    && (criticality == "" || d.criticality == criticality)

abbrev pub edges_where : Locale → (Dependency → Bool) → Db → List Edge
edges_where locale p db =
    map (edge_of db.services)
      (order_by (λ d e. locale.before d.name e.name) (filter p db.dependencies))

unfoldable pub list_service_dependencies :
    Locale → String → String → String → String → Exec Error (List Edge)
list_service_dependencies locale org_id service_id direction criticality =
    query (edges_where locale (selects org_id service_id direction criticality))
