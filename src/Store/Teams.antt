-- ===== src/Store/Teams.antt =====
-- internal/store/postgres/team_store.go, on the tables of migrations/0003_rbac.sql.
use uigraph_api.Prelude.{
  ℕ, String, Bool, false, not, ◌&&◌, ◌||◌, Option, none, some, List, ◌==◌, any, find, filter,
  length, map, if◌then◌else◌,
}
use uigraph_api.Http.{Error}
use uigraph_api.Db.{Db, Folder, Service, Team, TeamMember}
use uigraph_api.Exec.{Exec, query, exec, insert_if}
use uigraph_api.Store.Tables.{update_where, delete_where, insert, set_null}
use uigraph_api.Store.Ordered.{Locale, order_by}
use uigraph_api.Store.Members.{has_user}

-- A team as it is read, with the number of its members.
pub record CountedTeam : Type 0 where
  pub team : Team
  pub member_count : ℕ

abbrev pub counted : List TeamMember → Team → CountedTeam
counted members t = record {
  team = t;
  member_count = length (filter (λ m. m.team_id == t.id) members);
}

-- `UNIQUE (org_id, name)`
abbrev same_name : Team → Team → Bool
same_name t row = row.org_id == t.org_id && row.name == t.name

-- A violation is an error that the code does not tell apart.
unfoldable pub create_team : Team → Exec Error (Unit {0})
create_team t =
    insert_if
      (λ db.
        any (λ row. row.id == t.id || same_name t row) db.teams
        || not (any (λ o. o.id == t.org_id) db.orgs))
      (λ db. record db { teams = insert t db.teams })

abbrev counted_option : List TeamMember → Option Team → Option CountedTeam
counted_option members none = none
counted_option members (some t) = some (counted members t)

unfoldable pub get_team : String → Exec Error (Option CountedTeam)
get_team id = query (λ db. counted_option db.team_members (find (λ t. t.id == id) db.teams))

unfoldable pub list_teams : Locale → String → Exec Error (List CountedTeam)
list_teams locale org_id = query (λ db.
    map (counted db.team_members)
      (order_by (λ t u. locale.before t.name u.name) (filter (λ t. t.org_id == org_id) db.teams)))

abbrev pub updated_team : Team → Team → Team
updated_team t row = record row { name = t.name; email = t.email; external_id = t.external_id }

-- The name of another team of the organisation, which the unique columns refuse.
abbrev name_taken : Team → List Team → Bool
name_taken t rows = elim (find (λ row. row.id == t.id) rows) [
  | none ↦ false
  | some old ↦
      any (λ row. not (row.id == t.id) && row.org_id == old.org_id && row.name == t.name) rows
]

unfoldable pub update_team : Team → Exec Error (Unit {0})
update_team t =
    insert_if (λ db. name_taken t db.teams)
      (λ db. record db { teams = update_where (λ row. row.id == t.id) (updated_team t) db.teams })

-- The members of the team go with it, by the cascade of their foreign key; folders and services
-- are left without a team.
unfoldable pub delete_team : String → Exec Error (Unit {0})
delete_team id = exec (λ db. record db {
  teams = delete_where (λ t. t.id == id) db.teams;
  team_members = delete_where (λ m. m.team_id == id) db.team_members;
  folders =
      map {A = Folder} (λ f. record f { team_id = set_null (λ x. x == id) f.team_id }) db.folders;
  services =
      map {A = Service} (λ s. record s { team_id = set_null (λ x. x == id) s.team_id }) db.services;
})

-- The primary key of team_members.
abbrev is_team_member : TeamMember → TeamMember → Bool
is_team_member t row = row.team_id == t.team_id && row.user_id == t.user_id

-- `ON CONFLICT (team_id, user_id) DO UPDATE SET permission`
abbrev pub upserted : TeamMember → List TeamMember → List TeamMember
upserted t rows =
    if any (is_team_member t) rows
    then update_where (is_team_member t) (λ row. record row { permission = t.permission }) rows
    else insert t rows

-- The foreign keys of the table.
abbrev pub lacks_references : TeamMember → Db → Bool
lacks_references t db =
    not (has_user db.users t.user_id)
    || not (any (λ row. row.id == t.team_id) db.teams)
    || not (any (λ o. o.id == t.org_id) db.orgs)

unfoldable pub add_team_member : TeamMember → Exec Error (Unit {0})
add_team_member t =
    insert_if (lacks_references t) (λ db. record db { team_members = upserted t db.team_members })

-- The rows are in the order of their creation.
unfoldable pub list_team_members : String → Exec Error (List TeamMember)
list_team_members team_id = query (λ db. filter (λ m. m.team_id == team_id) db.team_members)

unfoldable pub remove_team_member : String → String → Exec Error (Unit {0})
remove_team_member team_id user_id = exec (λ db. record db {
  team_members = delete_where (λ m. m.team_id == team_id && m.user_id == user_id) db.team_members;
})

unfoldable pub remove_user_from_org_teams : String → String → Exec Error (Unit {0})
remove_user_from_org_teams org_id user_id = exec (λ db. record db {
  team_members = delete_where (λ t. t.org_id == org_id && t.user_id == user_id) db.team_members;
})
