-- ===== src/Members.antt =====
-- internal/api/auth/member.go: the handlers for the members of an organisation. `bcrypt` and the
-- seat limit, which another service answers, are parameters.
pub mod Isolation
pub mod Seats
pub mod Table
pub mod Email
use uigraph_api.Prelude.{
  ℕ, String, Bool, true, false, not, ◌&&◌, ◌||◌, Option, none, some, List, ◌==◌, length,
  if◌then◌else◌,
}
use Prim.Native.String
use uigraph_api.Prelude.Int.{ℤ, pos, lt_int}
use uigraph_api.Http.{
  Error, database, not_found, conflict, Reply, json, no_content, api_error, error_reply,
  bad_request,
}
use uigraph_api.Db.{User, Member, TeamMember}
use uigraph_api.Exec.{require, Exec, pure, stop, stop_if, attempt, ◌>>=◌, ◌>>◌}
use uigraph_api.Store.Users as Users
use uigraph_api.Store.Members as Rows
use uigraph_api.Store.Members.{MemberView}
use uigraph_api.Store.Teams.{add_team_member, remove_user_from_org_teams}

-- The part of enterprise.SeatLimitInfo that the members need; a negative limit is no limit.
pub record SeatInfo : Type 0 where
  pub limit : ℤ
  pub plan_id : String

-- `SeatLimit` of the client, which answers none on an error; a server without it has no client.
abbrev pub Enterprise : Type 0
Enterprise = Option (String → Option SeatInfo)

pub record AddRequest : Type 0 where
  pub name : String
  pub email : String
  pub password : String
  pub role : String

pub record UpdateRequest : Type 0 where
  pub name : String
  pub email : String
  pub role : String
  pub team_id : String

abbrev seats_message : String → String
seats_message plan_id =
    String.◌++◌ "Your organization has reached its seat limit on the " (
      String.◌++◌ (if plan_id == "" then "free" else plan_id) " plan. Upgrade to add more members.")

abbrev within_limit : {A : Type 0} → SeatInfo → String → ℕ → Exec (Reply A) (Unit {0})
within_limit info org_id status =
    if lt_int info.limit (pos 0)
    then pure tt
    else attempt (Rows.list_members org_id) >>= λ current.
        if lt_int (pos (length current)) info.limit
        then pure tt
        else stop (api_error status "seat_limit_reached" (seats_message info.plan_id))

-- An error of the other service lets the addition go on.
abbrev pub seats_known : {A : Type 0} → Option SeatInfo → String → ℕ → Exec (Reply A) (Unit {0})
seats_known none org_id status = pure tt
seats_known (some info) org_id status = within_limit info org_id status

-- seatLimitReached: it stops where the source writes a response and returns true.
unfoldable pub check_seats : {A : Type 0} → Enterprise → String → ℕ → Exec (Reply A) (Unit {0})
check_seats none org_id status = pure tt
check_seats (some seat_limit) org_id status = seats_known (seat_limit org_id) org_id status

unfoldable pub list : String → Exec (Reply (List MemberView)) (Reply (List MemberView))
list org_id = do members ← attempt (Rows.list_members org_id); pure (json 200 members)

abbrev pub new_user : String → AddRequest → String → User
new_user id req hash = record {
  id = id;
  email = req.email;
  name = req.name;
  login = req.email;
  password_hash = hash;
  must_change_password = false;
  disabled = false;
  role = "user";
}

abbrev pub new_member : String → String → String → Member
new_member user_id org_id role = record {
  user_id = user_id;
  org_id = org_id;
  role = role;
  source = "manual";
}

abbrev reply_of : Member → String → String → Option String → MemberView
reply_of m email name team_id = record {
  user_id = m.user_id;
  org_id = m.org_id;
  role = m.role;
  source = m.source;
  email = email;
  name = name;
  team_id = team_id;
}

abbrev pub is_absent {ℓ} : {A : Type ℓ} → Option A → Bool
is_absent none = true
is_absent (some a) = false

module _ (enterprise : Enterprise) (bcrypt : String → Option String) where
  unfoldable pub add :
      String → String → Option AddRequest → Exec (Reply MemberView) (Reply MemberView)
  add new_id org_id body = do
    req ← require body (bad_request "invalid JSON")
    stop_if (req.name == "" || req.email == "" || req.password == "" || req.role == "")
        (bad_request "name, email, password, and role are required")
    existing ← attempt (Users.get_user_by_email req.email)
    stop_if (not (is_absent existing)) (error_reply conflict)
    check_seats enterprise org_id 409
    hash ← require (bcrypt req.password) (error_reply database)
    attempt (Users.create_user (new_user new_id req hash))
    attempt (Rows.add_member (new_member new_id org_id req.role))
    pure (json 201 (reply_of (new_member new_id org_id req.role) req.email req.name none))

abbrev belongs_to_other : String → Option User → Bool
belongs_to_other user_id none = false
belongs_to_other user_id (some u) = not (u.id == user_id)

-- The check of the new address, which is made only if the address changes.
abbrev check_email : String → User → String → Exec (Reply MemberView) (Unit {0})
check_email user_id u email =
    if email == u.email
    then pure tt
    else attempt (Users.get_user_by_email email) >>= λ clash.
        stop_if (belongs_to_other user_id clash) (error_reply conflict)

abbrev assign_team : String → String → String → Exec (Reply MemberView) (Unit {0})
assign_team team_id user_id org_id =
    if team_id == ""
    then pure tt
    else attempt (
        add_team_member
          (record { team_id = team_id; user_id = user_id; org_id = org_id; permission = "member" }))

abbrev pub changed_user : User → UpdateRequest → User
changed_user u req = record u { name = req.name; email = req.email; login = req.email }

-- The writes of UpdateMember, after its checks.
unfoldable pub write_member :
    String → String → UpdateRequest → User → Exec (Reply MemberView) (Reply MemberView)
write_member org_id user_id req u = do
  attempt (Users.update_user (changed_user u req))
  attempt (Rows.update_member_role user_id org_id req.role "manual")
  attempt (remove_user_from_org_teams org_id user_id)
  assign_team req.team_id user_id org_id
  pure (
      json 200 (
        reply_of (new_member user_id org_id req.role) req.email req.name
          (if req.team_id == "" then none else some req.team_id)))

unfoldable pub update :
    String → String → Option UpdateRequest → Exec (Reply MemberView) (Reply MemberView)
update org_id user_id body = do
  req ← require body (bad_request "invalid JSON")
  stop_if (req.name == "" || req.email == "" || req.role == "")
      (bad_request "name, email, and role are required")
  found ← attempt (Users.get_user user_id)
  u ← require found (error_reply not_found)
  check_email user_id u req.email
  write_member org_id user_id req u

unfoldable pub remove : String → String → Exec (Reply MemberView) (Reply MemberView)
remove org_id user_id = do attempt (Rows.remove_member user_id org_id); pure no_content
