-- ===== src/Store/Services.antt =====
-- internal/store/postgres/catalog.go: the services of the catalog.
use uigraph_api.Prelude.{
  ℕ, length, filter, String, Bool, false, not, ◌&&◌, ◌||◌, Option, none, some, List, ◌==◌, any,
  find, is_some, contains, [], ◌∷◌, if◌then◌else◌,
}
use uigraph_api.Http.{Error, database, team_not_found, service_name_exists}
use uigraph_api.Db.{Db, Team, Service, Dependency}
use uigraph_api.Exec.{Exec, Result, ok, err, pure, query, exec, statement, now_of, ◌>>=◌}
use uigraph_api.Store.Tables.{update_where, insert}

unfoldable pub get_service : String → Exec Error (Option Service)
get_service id = query (λ db. find (λ s. s.id == id) db.services)

-- The total of ListServices without a filter.
unfoldable pub count_services : String → Exec Error ℕ
count_services org_id =
    query
      (λ db. length (filter (λ s. s.org_id == org_id && not (is_some s.deleted_at)) db.services))

-- A service that counts as a node of the organisation's graph.
abbrev pub is_active : String → Service → Bool
is_active org_id s = s.org_id == org_id && s.status == "active" && not (is_some s.deleted_at)

-- The two CHECKs of the table.
abbrev known_columns : Service → Bool
known_columns s =
    contains ("active" ∷ "inactive" ∷ "deprecated" ∷ "development" ∷ "maintenance" ∷ []) s.status
    && contains ("tier1" ∷ "tier2" ∷ "tier3" ∷ "tier4" ∷ []) s.tier

-- `idx_services_org_name`, over the rows that are not deleted.
abbrev name_exists : Service → List Service → Bool
name_exists s rows =
    any
      (λ row.
        row.org_id == s.org_id
        && row.name == s.name
        && not (is_some row.deleted_at)
        && not (row.id == s.id))
      rows

abbrev pub team_option : Option Team → Result Error String
team_option none = err team_not_found
team_option (some t) = ok t.id

unfoldable pub resolve_team_id : String → String → Exec Error String
resolve_team_id org_id name =
    statement (λ db. team_option (find (λ t. t.org_id == org_id && t.name == name) db.teams))
      (λ db. db)

abbrev pub has_team_id : Option String → Bool
has_team_id none = false
has_team_id (some id) = not (id == "")

-- The team of the row: the one that is named, if no id is given.
unfoldable pub with_team : String → Service → Exec Error Service
unfolding resolve_team_id
with_team team_name s =
    if has_team_id s.team_id || team_name == ""
    then pure s
    else do id ← resolve_team_id s.org_id team_name; pure (record s { team_id = some id })

abbrev named_or_fails : Service → List Service → Result Error (Unit {0})
named_or_fails s rows = if name_exists s rows then err service_name_exists else ok tt

abbrev pub insert_answer : Service → Db → Result Error (Unit {0})
insert_answer s db =
    if any (λ row. row.id == s.id) db.services || not (known_columns s)
    then err database
    else named_or_fails s db.services

-- The live dependencies on that name which no service had yet.
abbrev pub waits_for : Service → Dependency → Bool
waits_for s d =
    d.org_id == s.org_id
    && d.dependency_name == s.name
    && not (is_some d.dependency_id)
    && not (d.service_id == s.id)
    && not (is_some d.deleted_at)

unfoldable pub adopted : Service → List Dependency → List Dependency
adopted s rows =
    if s.status == "active"
    then update_where (waits_for s)
        (λ d. record d { dependency_id = some s.id; updated_at = s.updated_at }) rows
    else rows

-- The transaction is one step: it writes both tables, or none.
unfoldable pub create_service : String → Service → Exec Error (Unit {0})
create_service team_name s = do
  row ← with_team team_name s
  statement (insert_answer row) (λ db. record db {
    services = insert row db.services;
    dependencies = adopted row db.dependencies;
  })

abbrev pub updated_service : ℕ → Service → Service → Service
updated_service now s row = record row {
  name = s.name;
  description = s.description;
  status = s.status;
  tier = s.tier;
  category = s.category;
  language = s.language;
  git_repo_url = s.git_repo_url;
  jira_project_url = s.jira_project_url;
  slack_channel_url = s.slack_channel_url;
  last_commit_sha = s.last_commit_sha;
  labels = s.labels;
  metadata = s.metadata;
  doc_links = s.doc_links;
  folder_id = s.folder_id;
  team_id = s.team_id;
  updated_by = s.updated_by;
  updated_by_commit_hash = s.updated_by_commit_hash;
  updated_at = now;
}

abbrev pub is_live_row : String → Service → Bool
is_live_row id row = row.id == id && not (is_some row.deleted_at)

-- A refusal needs a row that the statement would change.
abbrev pub update_answer : Service → Db → Result Error (Unit {0})
update_answer s db =
    if any (is_live_row s.id) db.services
    then if not (known_columns s) then err database else named_or_fails s db.services
    else ok tt

unfoldable pub update_service : String → Service → Exec Error (Unit {0})
update_service team_name s = do
  row ← with_team team_name s
  now ← now_of
  statement (update_answer row) (λ db. record db {
    services = update_where (is_live_row row.id) (updated_service now row) db.services;
  })

unfoldable pub soft_delete_service : String → String → Exec Error (Unit {0})
soft_delete_service id deleted_by = do
  now ← now_of
  exec (λ db. record db {
    services =
        update_where (is_live_row id)
          (λ row. record row { deleted_at = some now; deleted_by = some deleted_by }) db.services;
  })
