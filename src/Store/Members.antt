-- ===== src/Store/Members.antt =====
-- internal/store/postgres/member_store.go and GetOrgMember of authz_store.go
use uigraph_api.Prelude.{
  String, Bool, not, ◌&&◌, ◌||◌, Option, none, some, List, [], ◌∷◌, ◌==◌, any, find, filter,
  if◌then◌else◌,
}
use uigraph_api.Http.{Error}
use uigraph_api.Db.{User, Member, TeamMember}
use uigraph_api.Exec.{Exec, query, exec, insert_if}
use uigraph_api.Store.Tables.{update_where, delete_where, insert}

-- The primary key of org_members.
abbrev pub is_member : String → String → Member → Bool
is_member user_id org_id m = m.user_id == user_id && m.org_id == org_id

-- `user_id REFERENCES users(id)`
abbrev pub has_user : List User → String → Bool
has_user users id = any (λ u. u.id == id) users

unfoldable pub add_member : Member → Exec Error (Unit {0})
add_member m =
    insert_if
      (λ db. any (is_member m.user_id m.org_id) db.members || not (has_user db.users m.user_id))
      (λ db. record db { members = insert m db.members })

-- `ON CONFLICT (user_id, org_id) DO UPDATE SET role, source`
unfoldable pub upserted : Member → List Member → List Member
upserted m members =
    if any (is_member m.user_id m.org_id) members
    then update_where (is_member m.user_id m.org_id)
        (λ row. record row { role = m.role; source = m.source }) members
    else insert m members

unfoldable pub upsert_member : Member → Exec Error (Unit {0})
upsert_member m =
    insert_if (λ db. not (has_user db.users m.user_id))
      (λ db. record db { members = upserted m db.members })

unfoldable pub get_member : String → String → Exec Error (Option Member)
get_member user_id org_id = query (λ db. find (is_member user_id org_id) db.members)

-- org.OrgMember: a row, with what the statement joins to it.
pub record MemberView : Type 0 where
  pub user_id : String
  pub org_id : String
  pub role : String
  pub source : String
  pub email : String
  pub name : String
  pub team_id : Option String

abbrev team_of : List TeamMember → Member → Option String
team_of teams m = elim (find (λ t. t.user_id == m.user_id && t.org_id == m.org_id) teams) [
  | none ↦ none
  | some t ↦ some t.team_id
]

abbrev view : List TeamMember → Member → User → MemberView
view teams m u = record {
  user_id = m.user_id;
  org_id = m.org_id;
  role = m.role;
  source = m.source;
  email = u.email;
  name = u.name;
  team_id = team_of teams m;
}

-- `JOIN users u ON u.id = m.user_id`; the rows are in the order of their creation.
unfoldable pub joined : List User → List TeamMember → List Member → List MemberView
joined users teams [] = []
joined users teams (m ∷ members) = elim (find (λ u. u.id == m.user_id) users) [
  | none ↦ joined users teams members
  | some u ↦ view teams m u ∷ joined users teams members
]

unfoldable pub list_members : String → Exec Error (List MemberView)
unfolding joined
list_members org_id =
    query (λ db. joined db.users db.team_members (filter (λ m. m.org_id == org_id) db.members))

unfoldable pub update_member_role : String → String → String → String → Exec Error (Unit {0})
update_member_role user_id org_id role source = exec (λ db. record db {
  members =
      update_where (is_member user_id org_id) (λ m. record m { role = role; source = source })
        db.members;
})

unfoldable pub remove_member : String → String → Exec Error (Unit {0})
remove_member user_id org_id =
    exec (λ db. record db { members = delete_where (is_member user_id org_id) db.members })
