-- ===== src/Members/Isolation.antt =====
-- The handlers for the members of one organisation, and the memberships of the others.
use uigraph_api.Prelude.{
  ℕ, String, not, Option, none, some, List, [], ◌∷◌, ◌≡◌, refl, ◌==◌, eq_iff, arith, filter, ◌∙◌,
}
use uigraph_api.Db.{Db, Member, User, TeamMember}
use uigraph_api.Exec.{World}
use uigraph_api.Exec.Rules.{
  Maintains, Maintains-query, Maintains-pure, Maintains-exec, Maintains-insert_if, maintains_rules,
}
use uigraph_api.Store.Tables.{update_where, delete_where, insert}
use uigraph_api.Store.Users as Users
use uigraph_api.Store.Members as Rows
use uigraph_api.Store.Members.{is_member}
use uigraph_api.Store.Teams.{add_team_member, remove_user_from_org_teams}
use uigraph_api.Members.{
  Enterprise, AddRequest, UpdateRequest, new_member, SeatInfo, seats_known, check_seats, list, add,
  write_member, update, remove,
}

-- A request for the members of an organisation, with the new id that an addition draws.
pub data MemberRequest : Type 0 where
  to_list : MemberRequest
  to_add : String → Option AddRequest → MemberRequest
  to_update : String → Option UpdateRequest → MemberRequest
  to_remove : String → MemberRequest

module _ (enterprise : Enterprise) (bcrypt : String → Option String) (org_id : String) where
  -- The world after a request.
  unfoldable pub serve : World → MemberRequest → World
  serve w to_list = (list org_id w).1
  serve w (to_add id body) = (add enterprise bcrypt id org_id body w).1
  serve w (to_update user_id body) = (update org_id user_id body w).1
  serve w (to_remove user_id) = (remove org_id user_id w).1

  unfoldable pub serve_all : World → List MemberRequest → World
  serve_all w [] = w
  serve_all w (r ∷ rs) = serve_all (serve w r) rs

-- The memberships in other organisations.
abbrev pub elsewhere : String → List Member → List Member
elsewhere org_id members = filter (λ m. not (m.org_id == org_id)) members

module _ (org_id : String) where
  elsewhere-insert :
      (m : Member) (members : List Member)
      → m.org_id ≡ org_id
      → elsewhere org_id (insert m members) ≡ elsewhere org_id members
  elsewhere-insert m [] h = ground (arith, eq_iff m.org_id org_id)
  elsewhere-insert m (x ∷ members) h = ground (arith, elsewhere-insert m members h)

  elsewhere-update_where :
      (user_id : String) (f : Member → Member) (members : List Member)
      → ((m : Member) → (f m).org_id ≡ m.org_id)
      → elsewhere org_id (update_where (is_member user_id org_id) f members)
        ≡ elsewhere org_id members
  unfolding update_where
  elsewhere-update_where user_id f [] same = refl
  elsewhere-update_where user_id f (x ∷ members) same =
      ground (arith, same x, elsewhere-update_where user_id f members same)

  elsewhere-delete_where :
      (user_id : String) (members : List Member)
      → elsewhere org_id (delete_where (is_member user_id org_id) members)
        ≡ elsewhere org_id members
  unfolding delete_where
  elsewhere-delete_where user_id [] = refl
  elsewhere-delete_where user_id (x ∷ members) =
      ground (arith, elsewhere-delete_where user_id members)

module _ (org_id : String) (others : List Member) where
  abbrev Untouched : Db → Type 0
  Untouched db = elsewhere org_id db.members ≡ others

  kept_users : (u : User) → Maintains Untouched (Users.create_user u)
  unfolding Users.create_user
  kept_users u = Maintains-insert_if _ _ (λ db _ h. h)

  kept_user : (u : User) → Maintains Untouched (Users.update_user u)
  unfolding Users.update_user
  kept_user u = Maintains-insert_if _ _ (λ db _ h. h)

  kept_member :
      (user_id role : String)
      → Maintains Untouched (Rows.add_member (new_member user_id org_id role))
  unfolding Rows.add_member
  kept_member user_id role =
      Maintains-insert_if _ _
        (λ db _ h. elsewhere-insert org_id (new_member user_id org_id role) db.members refl ∙ h)

  kept_role :
      (user_id role source : String)
      → Maintains Untouched (Rows.update_member_role user_id org_id role source)
  unfolding Rows.update_member_role
  kept_role user_id role source = Maintains-exec _ (λ db h.
      elsewhere-update_where org_id user_id (λ m. record m { role = role; source = source })
        db.members (λ _. refl)
      ∙ h)

  kept_removal : (user_id : String) → Maintains Untouched (Rows.remove_member user_id org_id)
  unfolding Rows.remove_member
  kept_removal user_id =
      Maintains-exec _ (λ db h. elsewhere-delete_where org_id user_id db.members ∙ h)

  kept_team : (t : TeamMember) → Maintains Untouched (add_team_member t)
  unfolding add_team_member
  kept_team t = Maintains-insert_if _ _ (λ db _ h. h)

  kept_teams : (user_id : String) → Maintains Untouched (remove_user_from_org_teams org_id user_id)
  unfolding remove_user_from_org_teams
  kept_teams user_id = Maintains-exec _ (λ db h. h)

  kept_list : Maintains Untouched (Rows.list_members org_id)
  unfolding Rows.list_members
  kept_list = Maintains-query _

  kept_known :
      {A : Type 0} (info : Option SeatInfo) (status : ℕ)
      → Maintains Untouched (seats_known {A = A} info org_id status)
  kept_known none status = Maintains-pure tt
  kept_known (some info) status = search (maintains_rules, kept_list)

  kept_seats :
      {A : Type 0} (enterprise : Enterprise) (status : ℕ)
      → Maintains Untouched (check_seats {A = A} enterprise org_id status)
  unfolding check_seats
  kept_seats none status = Maintains-pure tt
  kept_seats (some seat_limit) status = kept_known (seat_limit org_id) status

  ruleset kept_rules = (
    maintains_rules, kept_users, kept_user, kept_member, kept_role, kept_removal, kept_team,
    kept_teams, kept_list, kept_seats,
  )

  add_kept :
      (enterprise : Enterprise) (bcrypt : String → Option String) (id : String)
      (body : Option AddRequest)
      → Maintains Untouched (add enterprise bcrypt id org_id body)
  unfolding add Users.get_user_by_email
  add_kept enterprise bcrypt id body = search kept_rules depth 30

  update_kept :
      (user_id : String) (body : Option UpdateRequest)
      → Maintains Untouched (update org_id user_id body)
  unfolding update write_member Users.get_user_by_email Users.get_user
  update_kept user_id body = search kept_rules depth 40

  remove_kept : (user_id : String) → Maintains Untouched (remove org_id user_id)
  unfolding remove
  remove_kept user_id = search kept_rules

  list_kept : Maintains Untouched (list org_id)
  unfolding list
  list_kept = search kept_rules

  serve_kept :
      (enterprise : Enterprise) (bcrypt : String → Option String) (w : World) (r : MemberRequest)
      → Untouched w.db
      → Untouched (serve enterprise bcrypt org_id w r).db
  unfolding serve
  serve_kept enterprise bcrypt w to_list = list_kept.at w
  serve_kept enterprise bcrypt w (to_add id body) = (add_kept enterprise bcrypt id body).at w
  serve_kept enterprise bcrypt w (to_update user_id body) = (update_kept user_id body).at w
  serve_kept enterprise bcrypt w (to_remove user_id) = (remove_kept user_id).at w

-- Whatever requests arrive for the members of one organisation, and whichever database calls fail:
-- the memberships in the other organisations stay as they are.
pub members_isolated :
    (enterprise : Enterprise) (bcrypt : String → Option String) (org_id : String) (w : World)
    (rs : List MemberRequest)
    → elsewhere org_id (serve_all enterprise bcrypt org_id w rs).db.members
      ≡ elsewhere org_id w.db.members
unfolding serve_all
members_isolated enterprise bcrypt org_id w [] = refl
members_isolated enterprise bcrypt org_id w (r ∷ rs) =
    members_isolated enterprise bcrypt org_id (serve enterprise bcrypt org_id w r) rs
    ∙ serve_kept org_id (elsewhere org_id w.db.members) enterprise bcrypt w r refl
