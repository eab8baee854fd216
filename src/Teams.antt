-- ===== src/Teams.antt =====
-- internal/api/auth/team.go: the handlers for the teams of an organisation.
pub mod References
use uigraph_api.Prelude.{ℕ, String, Bool, Option, none, some, List, ◌==◌, if◌then◌else◌}
use uigraph_api.Http.{not_found, Reply, json, no_content, bad_request, error_reply}
use uigraph_api.Db.{Team, TeamMember}
use uigraph_api.Exec.{Exec, pure, stop_if, require, attempt, ◌>>=◌, ◌>>◌}
use uigraph_api.Store.Ordered.{Locale}
use uigraph_api.Store.Teams as Store
use uigraph_api.Store.Teams.{CountedTeam}

-- createTeamRequest and updateTeamRequest
pub record TeamRequest : Type 0 where
  pub name : String
  pub email : String

pub record MemberRequest : Type 0 where
  pub user_id : String
  pub permission : String

unfoldable pub list : Locale → String → Exec (Reply (List CountedTeam)) (Reply (List CountedTeam))
list locale org_id = do teams ← attempt (Store.list_teams locale org_id); pure (json 200 teams)

abbrev pub new_team : String → String → TeamRequest → Team
new_team id org_id req = record {
  id = id;
  org_id = org_id;
  name = req.name;
  email = req.email;
  external_id = "";
}

unfoldable pub create :
    String → String → Option TeamRequest → Exec (Reply CountedTeam) (Reply CountedTeam)
create new_id org_id body = do
  req ← require body (bad_request "invalid JSON")
  stop_if (req.name == "") (bad_request "name is required")
  attempt (Store.create_team (new_team new_id org_id req))
  pure (json 201 (record { team = new_team new_id org_id req; member_count = 0 }))

unfoldable pub get : String → Exec (Reply CountedTeam) (Reply CountedTeam)
get team_id = do
  found ← attempt (Store.get_team team_id)
  t ← require found (error_reply not_found)
  pure (json 200 t)

abbrev pub changed : TeamRequest → CountedTeam → CountedTeam
changed req t = record t { team = record t.team { name = req.name; email = req.email } }

unfoldable pub update : String → Option TeamRequest → Exec (Reply CountedTeam) (Reply CountedTeam)
update team_id body = do
  req ← require body (bad_request "invalid JSON")
  stop_if (req.name == "") (bad_request "name is required")
  found ← attempt (Store.get_team team_id)
  t ← require found (error_reply not_found)
  attempt (Store.update_team (changed req t).team)
  pure (json 200 (changed req t))

unfoldable pub delete : String → Exec (Reply CountedTeam) (Reply CountedTeam)
delete team_id = do attempt (Store.delete_team team_id); pure no_content

unfoldable pub list_members : String → Exec (Reply (List TeamMember)) (Reply (List TeamMember))
list_members team_id = do
  members ← attempt (Store.list_team_members team_id)
  pure (json 200 members)

abbrev pub member_row : String → String → MemberRequest → TeamMember
member_row org_id team_id req = record {
  team_id = team_id;
  user_id = req.user_id;
  org_id = org_id;
  permission = if req.permission == "" then "member" else req.permission;
}

-- The response has the status 201 and no body.
unfoldable pub add_member :
    String → String → Option MemberRequest → Exec (Reply (Unit {0})) (Reply (Unit {0}))
add_member org_id team_id body = do
  req ← require body (bad_request "invalid JSON")
  stop_if (req.user_id == "") (bad_request "userId is required")
  attempt (Store.add_team_member (member_row org_id team_id req))
  pure (json 201 tt)

unfoldable pub remove_member : String → String → Exec (Reply (Unit {0})) (Reply (Unit {0}))
remove_member team_id user_id = do
  attempt (Store.remove_team_member team_id user_id)
  pure no_content
