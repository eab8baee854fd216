-- ===== src/Members/Seats.antt =====
-- The seat limit of an organisation, over any sequence of requests.
use uigraph_api.Prelude.{
  ℕ, ◌<◌, String, Option, none, some, List, [], ◌∷◌, ◌≡◌, refl, ◌==◌, arith, filter, length, All,
  All-map,
}
use uigraph_api.Prelude.Int.{pos, lt_int}
use uigraph_api.Db.{Db, Member, User, TeamMember}
use uigraph_api.Exec.{World, ok, ◌>>=◌}
use uigraph_api.Exec.Rules.{
  Maintains, Maintains-query, Maintains-pure, Maintains-exec, Maintains-insert_if, maintains_rules,
}
use uigraph_api.Exec.Checks.{
  Ensures, Ensures-step, Ensures-keep, Ensures-require, Ensures-stop_if, Ensures-insert_if,
  Ensures-bind, Maintains-of_Ensures,
}
use uigraph_api.Store.Tables.{update_where, All-insert, All-update_where, All-delete_where}
use uigraph_api.Store.Users as Users
use uigraph_api.Store.Users.{updated_user}
use uigraph_api.Store.Members as Rows
use uigraph_api.Store.Members.{is_member, has_user, joined}
use uigraph_api.Store.Teams.{add_team_member, remove_user_from_org_teams}
use uigraph_api.Members.{
  SeatInfo, AddRequest, UpdateRequest, new_member, seats_known, check_seats, list, add,
  write_member, update, remove,
}
use uigraph_api.Members.Isolation.{
  MemberRequest, to_list, to_add, to_update, to_remove, serve, serve_all,
}
use uigraph_api.Members.Table.{
  in_org, IsLinked, IsWithin, length-joined, IsLinked-filter, length-insert, length-update_where,
  length-delete_where, has_user-insert, has_user-update_where,
}

module _ (org_id : String) (limit : ℕ) where
  abbrev Within : Db → Type 0
  Within db = IsWithin org_id limit db

  kept_users : (u : User) → Maintains Within (Users.create_user u)
  unfolding Users.create_user
  kept_users u = Maintains-insert_if _ _ (λ db _ h. record {
    linked = All-map (λ m k. has_user-insert u db.users m.user_id k) db.members h.linked;
    seated = h.seated;
  })

  kept_user : (u : User) → Maintains Within (Users.update_user u)
  unfolding Users.update_user
  kept_user u = Maintains-insert_if _ _ (λ db _ h. record {
    linked =
        All-map {Q = IsLinked (update_where (λ v. v.id == u.id) (updated_user u) db.users)}
          (λ m k.
            rw
              (has_user-update_where (λ v. v.id == u.id) (updated_user u) db.users m.user_id
                (λ _. refl))
              k)
          db.members h.linked;
    seated = h.seated;
  })

  kept_role :
      (user_id role source : String)
      → Maintains Within (Rows.update_member_role user_id org_id role source)
  unfolding Rows.update_member_role
  kept_role user_id role source = Maintains-exec _ (λ db h. record {
    linked =
        All-update_where (IsLinked db.users) (is_member user_id org_id)
          (λ m. record m { role = role; source = source }) db.members (λ _ _ k. k) h.linked;
    seated =
        rw
          (length-update_where org_id (is_member user_id org_id)
            (λ m. record m { role = role; source = source }) db.members (λ _. refl))
          h.seated;
  })

  kept_removal : (user_id : String) → Maintains Within (Rows.remove_member user_id org_id)
  unfolding Rows.remove_member
  kept_removal user_id = Maintains-exec _ (λ db h. record {
    linked = All-delete_where (IsLinked db.users) (is_member user_id org_id) db.members h.linked;
    seated =
        omega (arith, h.seated, length-delete_where org_id (is_member user_id org_id) db.members);
  })

  kept_team : (t : TeamMember) → Maintains Within (add_team_member t)
  unfolding add_team_member
  kept_team t = Maintains-insert_if _ _ (λ db _ h. record { linked = h.linked; seated = h.seated })

  kept_teams : (user_id : String) → Maintains Within (remove_user_from_org_teams org_id user_id)
  unfolding remove_user_from_org_teams
  kept_teams user_id = Maintains-exec _ (λ db h. record { linked = h.linked; seated = h.seated })

  kept_list : Maintains Within (Rows.list_members org_id)
  unfolding Rows.list_members
  kept_list = Maintains-query _

  kept_known :
      {A : Type 0} (info : Option SeatInfo) (status : ℕ)
      → Maintains Within (seats_known {A = A} info org_id status)
  kept_known none status = Maintains-pure tt
  kept_known (some info) status = search (maintains_rules, kept_list)

  ruleset kept_rules =
      (maintains_rules, kept_user, kept_role, kept_removal, kept_team, kept_teams, kept_list)

  -- There is a seat for one more member.
  record HasRoom (db : Db) : Type 0 where
    within : IsWithin org_id limit db
    room : length (filter (in_org org_id) db.members) < limit

  listed_rows :
      (db : Db)
      → All (IsLinked db.users) db.members
      → length (joined db.users db.team_members (filter (in_org org_id) db.members))
        ≡ length (filter (in_org org_id) db.members)
  listed_rows db h =
      length-joined db.users db.team_members (filter (in_org org_id) db.members)
        (IsLinked-filter db.users (in_org org_id) db.members h)

  seats_room :
      {A : Type 0} (info : SeatInfo) (status : ℕ) (w : World) (u : Unit {0})
      → info.limit ≡ pos limit
      → IsWithin org_id limit w.db
      → (seats_known {A = A} (some info) org_id status w).0 ≡ ok u
      → HasRoom (seats_known {A = A} (some info) org_id status w).1.db
  unfolding Rows.list_members lt_int ◌>>=◌
  seats_room {A = A} info status w u known h passed =
      let same : (seats_known {A = A} (some info) org_id status w).1.db ≡ w.db = ground arith in
      rw (same) (record { within = h; room = ground (arith, listed_rows w.db h.linked) })

  room_users : (u : User) → Maintains HasRoom (Users.create_user u)
  unfolding Users.create_user
  room_users u = Maintains-insert_if _ _ (λ db _ h. record {
    within = record {
      linked = All-map (λ m k. has_user-insert u db.users m.user_id k) db.members h.within.linked;
      seated = h.within.seated;
    };
    room = h.room;
  })

  member_added : (m : Member) → Ensures HasRoom Within (Rows.add_member m)
  unfolding Rows.add_member
  member_added m =
      Ensures-insert_if (λ db h. h.within) _ _
        (λ db fresh h. record {
          linked =
              All-insert (IsLinked db.users) m db.members (ground (arith, fresh)) h.within.linked;
          seated = omega (arith, h.room, length-insert org_id m db.members);
        })

  known_room :
      {A : Type 0} (answer : Option SeatInfo) (info : SeatInfo) (status : ℕ) (w : World)
      (u : Unit {0})
      → answer ≡ some info
      → info.limit ≡ pos limit
      → IsWithin org_id limit w.db
      → (seats_known {A = A} answer org_id status w).0 ≡ ok u
      → HasRoom (seats_known {A = A} answer org_id status w).1.db
  known_room {A = A} (some other) info status w u e known h passed =
      seats_room {A = A} other status w u (ground (arith, e, known)) h passed
  known_room none info status w u e known h passed = cc

  module _ (bcrypt : String → Option String) (info : SeatInfo) (f : String → Option SeatInfo)
      (answer : f org_id ≡ some info) (known : info.limit ≡ pos limit) where
    add-Within :
        (id : String) (body : Option AddRequest)
        → Maintains Within (add (some f) bcrypt id org_id body)
    unfolding add Users.get_user_by_email check_seats
    add-Within id body = Maintains-of_Ensures _ (
        Ensures-require (λ db s. s) body _ _
          λ req _.
            Ensures-stop_if (λ db s. s) _ _ _
              λ _.
                Ensures-keep _ _ (λ db s. s) (search maintains_rules)
                  λ existing.
                    Ensures-stop_if (λ db s. s) _ _ _
                      λ _.
                        Ensures-step {R = HasRoom} _ _ (λ db s. s) (kept_known (f org_id) 409)
                          (λ w a s e. known_room (f org_id) info 409 w a answer known s e)
                          λ _.
                            Ensures-require (λ db r. r.within) (bcrypt req.password) _ _
                              λ hash _.
                                Ensures-keep _ _ (λ db r. r.within)
                                  (search (maintains_rules, room_users))
                                  λ _.
                                    Ensures-bind _ _ (member_added (new_member id org_id req.role))
                                      λ _. search maintains_rules)

    list-Within : Maintains Within (list org_id)
    unfolding list
    list-Within = search kept_rules

    update-Within :
        (user_id : String) (body : Option UpdateRequest)
        → Maintains Within (update org_id user_id body)
    unfolding update write_member Users.get_user_by_email Users.get_user
    update-Within user_id body = search kept_rules depth 40

    remove-Within : (user_id : String) → Maintains Within (remove org_id user_id)
    unfolding remove
    remove-Within user_id = search kept_rules

    serve-Within :
        (w : World) (r : MemberRequest) → Within w.db → Within (serve (some f) bcrypt org_id w r).db
    unfolding serve
    serve-Within w to_list = list-Within.at w
    serve-Within w (to_add id body) = (add-Within id body).at w
    serve-Within w (to_update user_id body) = (update-Within user_id body).at w
    serve-Within w (to_remove user_id) = (remove-Within user_id).at w

-- From a table in which every membership is a user's and an organisation is within its limit:
-- while the other service answers that limit, no sequence of requests for its members takes it
-- above the limit, whatever requests arrive and whichever database calls fail, and every
-- membership stays a user's.
pub seats_kept :
    (bcrypt : String → Option String) (seat_limit : String → Option SeatInfo) (info : SeatInfo)
    (org_id : String) (limit : ℕ) (w : World) (rs : List MemberRequest)
    → seat_limit org_id ≡ some info
    → info.limit ≡ pos limit
    → IsWithin org_id limit w.db
    → IsWithin org_id limit (serve_all (some seat_limit) bcrypt org_id w rs).db
unfolding serve_all
seats_kept bcrypt seat_limit info org_id limit w [] answer known h = h
seats_kept bcrypt seat_limit info org_id limit w (r ∷ rs) answer known h =
    seats_kept bcrypt seat_limit info org_id limit (serve (some seat_limit) bcrypt org_id w r) rs
      answer known (serve-Within org_id limit bcrypt info seat_limit answer known w r h)
