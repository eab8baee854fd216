-- ===== src/Users.antt =====
-- internal/api/auth/user.go: the handlers for the users of the instance. The address of the avatar
-- is left out. Fresh ids, the random password and bcrypt are arguments.
pub mod Passwords
use Prim.Native.String
use uigraph_api.Prelude.{
  String, Bool, true, false, not, ◌||◌, Option, none, some, List, ◌==◌, is_some, if◌then◌else◌,
}
use uigraph_api.Http.{
  database, conflict, not_found, Reply, json, no_content, error_reply, bad_request,
}
use uigraph_api.Db.{User}
use uigraph_api.Exec.{Exec, pure, stop_if, require, attempt, cache_del, ◌>>=◌, ◌>>◌}
use uigraph_api.Store.Ordered.{Locale}
use uigraph_api.Store.Users as Store

pub record CreateRequest : Type 0 where
  pub email : String
  pub name : String
  pub password : String
  pub role : String

pub record UpdateRequest : Type 0 where
  pub name : String
  pub role : String
  pub disabled : Option Bool

abbrev pub valid_user_role : String → Bool
valid_user_role role = role == "user" || role == "server_admin"

abbrev or_default : String → String → String
or_default default value = if value == "" then default else value

-- cache.ActorKey
abbrev pub actor_key : String → String
actor_key id = String.◌++◌ "actor:" id

unfoldable pub list : Locale → Exec (Reply (List User)) (Reply (List User))
list locale = do users ← attempt (Store.list_all_users locale); pure (json 200 users)

abbrev pub new_user : String → String → CreateRequest → User
new_user id hash req = record {
  id = id;
  email = req.email;
  name = req.name;
  login = req.email;
  password_hash = hash;
  must_change_password = false;
  disabled = false;
  role = or_default "user" req.role;
}

unfoldable pub create :
    (String → Option String) → String → Option CreateRequest → Exec (Reply User) (Reply User)
create bcrypt new_id body = do
  req ← require body (bad_request "invalid JSON")
  stop_if (req.email == "" || req.name == "" || req.password == "")
      (bad_request "email, name, and password are required")
  hash ← require (bcrypt req.password) (error_reply database)
  stop_if (not (valid_user_role (or_default "user" req.role)))
      (bad_request "role must be 'user' or 'server_admin'")
  existing ← attempt (Store.get_user_by_email req.email)
  stop_if (is_some existing) (error_reply conflict)
  attempt (Store.create_user (new_user new_id hash req))
  pure (json 201 (new_user new_id hash req))

unfoldable pub get : String → Exec (Reply User) (Reply User)
get user_id = do
  found ← attempt (Store.get_user user_id)
  u ← require found (error_reply not_found)
  pure (json 200 u)

abbrev or_kept : Bool → Option Bool → Bool
or_kept old none = old
or_kept old (some new) = new

abbrev pub changed : UpdateRequest → User → User
changed req u = record u {
  name = or_default u.name req.name;
  role = or_default u.role req.role;
  disabled = or_kept u.disabled req.disabled;
}

unfoldable pub update : String → Option UpdateRequest → Exec (Reply User) (Reply User)
update user_id body = do
  req ← require body (bad_request "invalid JSON")
  found ← attempt (Store.get_user user_id)
  u ← require found (error_reply not_found)
  stop_if (not (req.role == "" || valid_user_role req.role))
      (bad_request "role must be 'user' or 'server_admin'")
  attempt (Store.update_user (changed req u))
  cache_del (actor_key user_id)
  pure (json 200 (changed req u))

-- The new password, which the user has to change.
abbrev pub with_temporary : String → User → User
with_temporary hash u = record u { password_hash = hash; must_change_password = true }

-- The response shows the temporary password.
unfoldable pub reset_password :
    (String → Option String) → Option String → String → Exec (Reply String) (Reply String)
reset_password bcrypt random user_id = do
  found ← attempt (Store.get_user user_id)
  u ← require found (error_reply not_found)
  temp ← require random (error_reply database)
  hash ← require (bcrypt temp) (error_reply database)
  attempt (Store.update_user (with_temporary hash u))
  cache_del (actor_key user_id)
  pure (json 200 temp)

unfoldable pub disable : String → Exec (Reply User) (Reply User)
disable user_id = do
  attempt (Store.disable_user user_id)
  cache_del (actor_key user_id)
  pure no_content
