-- ===== src/Teams/References.antt =====
-- The members of teams belong to teams of the table.
use uigraph_api.Prelude.{
  String, Bool, true, false, ◌&&◌, Option, List, [], ◌∷◌, ◌≡◌, ◌==◌, refl, arith, any, All, All-map,
  eq_iff, Bool-cases, inl, inr,
}
use uigraph_api.Db.{Db, Team, TeamMember}
use uigraph_api.Exec.{World}
use uigraph_api.Exec.Rules.{Maintains, Maintains-exec, Maintains-insert_if, maintains_rules}
use uigraph_api.Store.Tables.{
  update_where, delete_where, insert, All-insert, All-update_where, All-delete_where,
}
use uigraph_api.Store.Ordered.{Locale}
use uigraph_api.Store.Teams as Store
use uigraph_api.Store.Teams.{lacks_references, upserted, updated_team}
use uigraph_api.Teams.{
  TeamRequest, MemberRequest, list, create, get, update, delete, list_members, add_member,
  remove_member,
}

abbrev pub has_team : List Team → TeamMember → Bool
has_team teams m = any (λ t. t.id == m.team_id) teams

-- Every member is one of a team that is there.
pub record IsReferenced (db : Db) : Type 0 where
  pub members : All (λ m. has_team db.teams m ≡ true) db.team_members

has_team-insert :
    (t : Team) (teams : List Team) (m : TeamMember)
    → has_team teams m ≡ true
    → has_team (insert t teams) m ≡ true
has_team-insert t [] m h = absurd (ground arith)
has_team-insert t (u ∷ teams) m h = ground (arith, has_team-insert t teams m)

has_team-update :
    (id : String) (t : Team) (teams : List Team) (m : TeamMember)
    → has_team (update_where (λ row. row.id == id) (updated_team t) teams) m ≡ has_team teams m
unfolding update_where
has_team-update id t [] m = refl
has_team-update id t (u ∷ teams) m = ground (arith, has_team-update id t teams m)

has_team-delete :
    (id : String) (teams : List Team) (m : TeamMember)
    → (m.team_id == id) ≡ false
    → has_team (delete_where (λ row. row.id == id) teams) m ≡ has_team teams m
unfolding delete_where
has_team-delete id [] m h = refl
has_team-delete id (u ∷ teams) m h = ground (
  arith,
  has_team-delete id teams m h,
  eq_iff u.id id,
  eq_iff u.id m.team_id,
  eq_iff m.team_id id,
)

All-delete-team :
    (id : String) (teams : List Team) (rows : List TeamMember)
    → All (λ m. has_team teams m ≡ true) rows
    → All
        (λ m. has_team (delete_where (λ row. row.id == id) teams) m ≡ true)
        (delete_where (λ m. m.team_id == id) rows)
unfolding delete_where
All-delete-team id teams [] h = tt
All-delete-team id teams (m ∷ rows) (h, hs) = elim (Bool-cases (m.team_id == id)) [
  | inl t ↦ rw t (All-delete-team id teams rows hs)
  | inr f ↦
      rw f (ground (arith, f, h, has_team-delete id teams m f), All-delete-team id teams rows hs)
]

upserted-referenced :
    (teams : List Team) (m : TeamMember) (rows : List TeamMember)
    → has_team teams m ≡ true
    → All (λ x. has_team teams x ≡ true) rows
    → All (λ x. has_team teams x ≡ true) (upserted m rows)
upserted-referenced teams m rows h hs =
    elim (Bool-cases (any (λ row. row.team_id == m.team_id && row.user_id == m.user_id) rows)) [
      | inl t ↦ rw t (
          All-update_where (λ x. has_team teams x ≡ true) _
            (λ row. record row { permission = m.permission }) rows (λ x _ k. k) hs)
      | inr f ↦ rw f (All-insert (λ x. has_team teams x ≡ true) m rows h hs)
    ]

create_team-IsReferenced : (t : Team) → Maintains IsReferenced (Store.create_team t)
unfolding Store.create_team
create_team-IsReferenced t = Maintains-insert_if _ _ λ db _ s. record {
  members =
      All-map {Q = λ m. has_team (insert t db.teams) m ≡ true}
        (λ m h. has_team-insert t db.teams m h) db.team_members s.members;
}

update_team-IsReferenced : (t : Team) → Maintains IsReferenced (Store.update_team t)
unfolding Store.update_team
update_team-IsReferenced t = Maintains-insert_if _ _ λ db _ s. record {
  members =
      All-map
        {Q = λ m.
          has_team (update_where (λ row. row.id == t.id) (updated_team t) db.teams) m ≡ true}
        (λ m h. ground (arith, h, has_team-update t.id t db.teams m)) db.team_members s.members;
}

delete_team-IsReferenced : (id : String) → Maintains IsReferenced (Store.delete_team id)
unfolding Store.delete_team
delete_team-IsReferenced id =
    Maintains-exec _
      λ db s. record { members = All-delete-team id db.teams db.team_members s.members }

add_team_member-IsReferenced : (m : TeamMember) → Maintains IsReferenced (Store.add_team_member m)
unfolding Store.add_team_member
add_team_member-IsReferenced m = Maintains-insert_if _ _ λ db fine s. record {
  members = upserted-referenced db.teams m db.team_members (ground (arith, fine)) s.members;
}

remove_team_member-IsReferenced :
    (team_id user_id : String) → Maintains IsReferenced (Store.remove_team_member team_id user_id)
unfolding Store.remove_team_member
remove_team_member-IsReferenced team_id user_id = Maintains-exec _ λ db s. record {
  members =
      All-delete_where (λ m. has_team db.teams m ≡ true)
        (λ m. m.team_id == team_id && m.user_id == user_id) db.team_members s.members;
}

ruleset team_rules = (
  maintains_rules, create_team-IsReferenced, update_team-IsReferenced, delete_team-IsReferenced,
  add_team_member-IsReferenced, remove_team_member-IsReferenced,
)

-- A request for the teams of an organisation, with the fresh id that it may need.
pub data TeamCall : Type 0 where
  to_list : Locale → String → TeamCall
  to_create : String → String → Option TeamRequest → TeamCall
  to_get : String → TeamCall
  to_update : String → Option TeamRequest → TeamCall
  to_delete : String → TeamCall
  to_list_members : String → TeamCall
  to_add_member : String → String → Option MemberRequest → TeamCall
  to_remove_member : String → String → TeamCall

-- The world after a request.
pub serve : World → TeamCall → World
serve w (to_list locale org) = (list locale org w).1
serve w (to_create id org body) = (create id org body w).1
serve w (to_get id) = (get id w).1
serve w (to_update id body) = (update id body w).1
serve w (to_delete id) = (delete id w).1
serve w (to_list_members id) = (list_members id w).1
serve w (to_add_member org id body) = (add_member org id body w).1
serve w (to_remove_member id user_id) = (remove_member id user_id w).1

-- From a database in which every member of a team is one of a team that is there: each request to
-- the handlers for teams, valid or not, and whichever database calls fail, keeps this.
pub serve-IsReferenced :
    (w : World) (c : TeamCall) → IsReferenced w.db → IsReferenced (serve w c).db
unfolding serve list create get update delete list_members add_member remove_member Store.list_teams
    Store.get_team Store.list_team_members
serve-IsReferenced w (to_list locale org) =
    let m : Maintains IsReferenced (list locale org) = search team_rules depth 20 in m.at w
serve-IsReferenced w (to_create id org body) =
    let m : Maintains IsReferenced (create id org body) = search team_rules depth 20 in m.at w
serve-IsReferenced w (to_get id) =
    let m : Maintains IsReferenced (get id) = search team_rules depth 20 in m.at w
serve-IsReferenced w (to_update id body) =
    let m : Maintains IsReferenced (update id body) = search team_rules depth 30 in m.at w
serve-IsReferenced w (to_delete id) =
    let m : Maintains IsReferenced (delete id) = search team_rules depth 20 in m.at w
serve-IsReferenced w (to_list_members id) =
    let m : Maintains IsReferenced (list_members id) = search team_rules depth 20 in m.at w
serve-IsReferenced w (to_add_member org id body) =
    let m : Maintains IsReferenced (add_member org id body) = search team_rules depth 20 in m.at w
serve-IsReferenced w (to_remove_member id user_id) =
    let m : Maintains IsReferenced (remove_member id user_id) = search team_rules depth 20 in m.at w
