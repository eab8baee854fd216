-- ===== src/Catalog.antt =====
-- internal/api/catalog/service.go and service_logic.go: the handlers for the services of the
-- catalog. A body that cannot be decoded is `none`; the fresh id is an argument.
pub mod Dependencies
pub mod Resolved
pub mod Synced
pub mod Targets
pub mod Upserted
pub mod Impact
use Prim.Native.String
use uigraph_api.Prelude.{
  ℕ, String, Bool, true, not, ◌&&◌, ◌||◌, Option, none, some, List, [], ◌==◌, is_some, length,
  filter, if◌then◌else◌,
}
use uigraph_api.Prelude.Int.{ℤ, pos, lt_int}
use uigraph_api.Http.{
  Error, not_found, team_not_found, service_name_exists, Reply, json, api_error, no_content,
  bad_request, error_reply, unauthorized_reply,
}
use uigraph_api.Db.{Service, DocLink}
use uigraph_api.Exec.{
  Exec, Result, ok, err, pure, stop_if, require, lift, attempt, capture, now_of, ◌>>=◌, ◌>>◌,
}
use uigraph_api.Identity.Principal.{Principal}
use uigraph_api.Store.Services as Store

-- `svc == nil || svc.DeletedAt != nil`
abbrev pub live : Option Service → Option Service
live none = none
live (some s) = if is_some s.deleted_at then none else some s

abbrev pub in_org : String → Option Service → Option Service
in_org org_id none = none
in_org org_id (some s) = if s.org_id == org_id then some s else none

unfoldable pub ensure_service_in_org : {A : Type 0} → String → String → Exec (Reply A) (Unit {0})
ensure_service_in_org org_id service_id = do
  found ← attempt (Store.get_service service_id)
  s ← require (in_org org_id (live found)) (error_reply not_found)
  pure tt

pub record CreateRequest : Type 0 where
  pub name : String
  pub description : String
  pub status : String
  pub tier : String
  pub category : String
  pub language : String
  pub folder_id : Option String
  pub team_id : Option String
  pub team_name : String
  pub git_repo_url : Option String
  pub jira_project_url : Option String
  pub slack_channel_url : Option String
  pub labels : List String
  pub metadata : String
  pub doc_links : List DocLink
  pub commit_hash : Option String

abbrev or_default : String → String → String
or_default default value = if value == "" then default else value

abbrev pub new_service : String → String → Principal → ℕ → CreateRequest → Service
new_service id org_id p now body = record {
  id = id;
  org_id = org_id;
  folder_id = body.folder_id;
  team_id = body.team_id;
  name = body.name;
  description = body.description;
  status = or_default "active" body.status;
  tier = or_default "tier3" body.tier;
  category = body.category;
  language = body.language;
  git_repo_url = body.git_repo_url;
  jira_project_url = body.jira_project_url;
  slack_channel_url = body.slack_channel_url;
  last_commit_sha = none;
  labels = body.labels;
  metadata = body.metadata;
  doc_links = body.doc_links;
  created_by = p.user_id;
  updated_by = none;
  created_by_commit_hash = body.commit_hash;
  updated_by_commit_hash = none;
  created_at = now;
  updated_at = now;
  deleted_at = none;
  deleted_by = none;
}

-- The answer of the other service on an organisation: the plan and its number of services.
pub record PlanLimit : Type 0 where
  pub plan_id : String
  pub max_services : ℤ

-- None without the other service, or if it does not answer.
abbrev pub limit_reached : Option PlanLimit → ℕ → Bool
limit_reached none total = not true
limit_reached (some info) total =
    not (lt_int info.max_services (pos 0)) && not (lt_int (pos total) info.max_services)

abbrev plan_of : Option PlanLimit → String
plan_of none = "free"
plan_of (some info) = or_default "free" info.plan_id

abbrev limit_message : Option PlanLimit → String
limit_message info =
    String.◌++◌ "Your organization has reached its service limit on the "
      (String.◌++◌ (plan_of info) " plan. Upgrade to create more.")

-- ResourceLimitReached, for services.
unfoldable pub check_limit :
    {A : Type 0} → Option (String → Option PlanLimit) → String → Exec (Reply A) (Unit {0})
check_limit none org_id = pure tt
check_limit (some ask) org_id = do
  total ← attempt (Store.count_services org_id)
  stop_if (limit_reached (ask org_id) total)
      (api_error 409 "service_limit_reached" (limit_message (ask org_id)))

-- The replies to what the store tells apart; `quote` is the verb `%q`.
abbrev pub store_reply :
    {A : Type 0}
    → (String → String)
    → String
    → String
    → Result Error (Unit {0})
    → Result (Reply A) (Unit {0})
store_reply quote team name (ok tt) = ok tt
store_reply quote team name (err team_not_found) =
    err (bad_request (String.◌++◌ "team " (String.◌++◌ (quote team) " does not exist")))
store_reply quote team name (err service_name_exists) = err (
    api_error 409 "conflict" (
      String.◌++◌ "a service named "
        (String.◌++◌ (quote name) " already exists in this organization")))
store_reply quote team name (err e) = err (error_reply e)

unfoldable pub create :
    Option (String → Option PlanLimit)
    → (String → String)
    → String
    → String
    → Option Principal
    → Option CreateRequest
    → Exec (Reply Service) (Reply Service)
unfolding check_limit
create enterprise quote new_id org_id principal body = do
  p ← require principal unauthorized_reply
  req ← require body (bad_request "invalid request body")
  stop_if (req.name == "") (bad_request "name is required")
  stop_if (Store.has_team_id req.team_id && not (req.team_name == ""))
      (bad_request "provide either teamId or teamName, not both")
  stop_if (not (Store.has_team_id req.team_id) && req.team_name == "")
      (bad_request "team is required")
  check_limit enterprise org_id
  now ← now_of
  done ← capture (Store.create_service req.team_name (new_service new_id org_id p now req))
  lift (store_reply quote req.team_name req.name done)
  pure (json 201 (new_service new_id org_id p now req))

unfoldable pub get : String → Exec (Reply Service) (Reply Service)
get service_id = do
  found ← attempt (Store.get_service service_id)
  s ← require (live found) (error_reply not_found)
  pure (json 200 s)

pub record UpdateRequest : Type 0 where
  pub name : Option String
  pub description : Option String
  pub status : Option String
  pub tier : Option String
  pub category : Option String
  pub language : Option String
  pub folder_id : Option String
  pub team_id : Option String
  pub team_name : Option String
  pub git_repo_url : Option String
  pub jira_project_url : Option String
  pub slack_channel_url : Option String
  pub last_commit_sha : Option String
  pub labels : Option (List String)
  pub metadata : Option String
  pub doc_links : Option (List DocLink)
  pub commit_hash : Option String

abbrev kept {ℓ} : {A : Type ℓ} → A → Option A → A
kept old none = old
kept old (some new) = new

abbrev kept_option {ℓ} : {A : Type ℓ} → Option A → Option A → Option A
kept_option old none = old
kept_option old (some new) = some new

abbrev team_text : Option String → String
team_text none = ""
team_text (some name) = name

abbrev pub changed : Principal → UpdateRequest → Service → Service
changed p body s = record s {
  name = kept s.name body.name;
  description = kept s.description body.description;
  status = kept s.status body.status;
  tier = kept s.tier body.tier;
  category = kept s.category body.category;
  language = kept s.language body.language;
  folder_id = kept_option s.folder_id body.folder_id;
  team_id =
      if Store.has_team_id body.team_name
      then none
      else if Store.has_team_id body.team_id
      then body.team_id
      else s.team_id;
  git_repo_url = kept_option s.git_repo_url body.git_repo_url;
  jira_project_url = kept_option s.jira_project_url body.jira_project_url;
  slack_channel_url = kept_option s.slack_channel_url body.slack_channel_url;
  last_commit_sha = kept_option s.last_commit_sha body.last_commit_sha;
  labels = kept s.labels body.labels;
  metadata = kept s.metadata body.metadata;
  doc_links = kept s.doc_links body.doc_links;
  updated_by = some p.user_id;
  updated_by_commit_hash = body.commit_hash;
}

unfoldable pub update :
    (String → String)
    → String
    → Option Principal
    → Option UpdateRequest
    → Exec (Reply Service) (Reply Service)
update quote service_id principal body = do
  p ← require principal unauthorized_reply
  found ← attempt (Store.get_service service_id)
  s ← require (live found) (error_reply not_found)
  req ← require body (bad_request "invalid request body")
  stop_if (Store.has_team_id req.team_id && Store.has_team_id req.team_name)
      (bad_request "provide either teamId or teamName, not both")
  done ← capture (Store.update_service (team_text req.team_name) (changed p req s))
  lift (store_reply quote (team_text req.team_name) (changed p req s).name done)
  pure (json 200 (changed p req s))

unfoldable pub delete : String → Option Principal → Exec (Reply Service) (Reply Service)
delete service_id principal = do
  p ← require principal unauthorized_reply
  attempt (Store.soft_delete_service service_id p.user_id)
  pure no_content
