-- ===== src/Signup.antt =====
-- internal/api/auth/signup.go: the accounts that the other service provisions. `given` is the
-- header X-Internal-Token.
pub mod Provisioned
use uigraph_api.Prelude.{
  ℕ, ltb, String, Bool, false, not, ◌||◌, Option, none, some, ◌==◌, is_some, if◌then◌else◌,
}
use uigraph_api.Prelude.Text.{byte_len}
use uigraph_api.Http.{
  database, conflict, not_found, Reply, json, no_content, error_reply, bad_request,
  unauthorized_reply,
}
use uigraph_api.Db.{User, Org}
use uigraph_api.Exec.{Exec, pure, stop_if, require, attempt, ◌>>=◌, ◌>>◌}
use uigraph_api.Authz.Scope.{all_scopes}
use uigraph_api.Store.Users as Users
use uigraph_api.Store.Orgs as OrgRows
use uigraph_api.Store.Members.{add_member}
use uigraph_api.Store.Accounts.{create_service_account}
use uigraph_api.Sessions.{SessionBackend, Client}
use uigraph_api.Sessions.Password.{Fresh, start_session}
use uigraph_api.Orgs.{admin_member, system_account}

pub record AccountRequest : Type 0 where
  pub email : String
  pub password : String
  pub name : String
  pub org_name : String

pub record AccountResponse : Type 0 where
  pub session_token : String
  pub expires_at : ℕ
  pub user_id : String
  pub org_id : String

-- The fresh ids of the rows that a request inserts.
pub record Ids : Type 0 where
  pub user : String
  pub org : String
  pub account : String

abbrev pub new_user : String → String → AccountRequest → User
new_user id hash req = record {
  id = id;
  email = req.email;
  name = req.name;
  login = req.email;
  password_hash = hash;
  must_change_password = false;
  disabled = false;
  role = "user";
}

abbrev pub new_org : String → String → Org
new_org id name = record {
  id = id;
  name = name;
  disabled = false;
  auto_join = false;
  onboarding_done = false;
}

abbrev pub is_stranger : String → String → Bool
is_stranger internal given = internal == "" || not (given == internal)

module _ (h : SessionBackend) (bcrypt : String → Option String) (internal : String) where
  -- The rows of a new account: its user, its organisation, their membership, the built-in account.
  unfoldable pub insert_account :
      {A : Type 0} → Ids → AccountRequest → String → Exec (Reply A) (Unit {0})
  insert_account ids req hash = do
    attempt (Users.create_user (new_user ids.user hash req))
    attempt (OrgRows.create_org (new_org ids.org req.org_name))
    attempt (add_member (admin_member ids.user ids.org))
    attempt (create_service_account (system_account ids.account ids.org all_scopes))

  -- What follows the checks of ProvisionAccount.
  unfoldable pub open_account :
      Ids
      → Fresh
      → Client
      → AccountRequest
      → String
      → Exec (Reply AccountResponse) (Reply AccountResponse)
  open_account ids fresh client req hash = do
    insert_account ids req hash
    session ← start_session h fresh client ids.user "password"
    pure (
        json 201 (record {
          session_token = session.0;
          expires_at = session.1;
          user_id = ids.user;
          org_id = ids.org;
        }))

  unfoldable pub provision_account :
      Ids
      → Fresh
      → Client
      → String
      → Option AccountRequest
      → Exec (Reply AccountResponse) (Reply AccountResponse)
  provision_account ids fresh client given body = do
    stop_if (is_stranger internal given) unauthorized_reply
    req ← require body (bad_request "invalid JSON")
    stop_if (req.email == "" || req.password == "" || req.name == "" || req.org_name == "")
        (bad_request "email, password, name, and orgName are required")
    existing ← attempt (Users.get_user_by_email req.email)
    stop_if (is_some existing) (error_reply conflict)
    hash ← require (bcrypt req.password) (error_reply database)
    open_account ids fresh client req hash

  -- The response has the id, the name and the address of the user.
  unfoldable pub lookup_account_by_email :
      String → String → Exec (Reply (String × String × String)) (Reply (String × String × String))
  lookup_account_by_email given email = do
    stop_if (is_stranger internal given) unauthorized_reply
    stop_if (email == "") (bad_request "email is required")
    found ← attempt (Users.get_user_by_email email)
    u ← require found (error_reply not_found)
    pure (json 200 (u.id, u.name, u.email))

  abbrev pub with_password : String → User → User
  with_password hash u = record u { password_hash = hash; must_change_password = false }

  -- The body is the new password.
  unfoldable pub set_account_password :
      String → String → Option String → Exec (Reply (Unit {0})) (Reply (Unit {0}))
  set_account_password given user_id body = do
    stop_if (is_stranger internal given) unauthorized_reply
    password ← require body (bad_request "invalid JSON")
    stop_if (ltb (byte_len password) 8) (bad_request "password must be at least 8 characters")
    found ← attempt (Users.get_user user_id)
    u ← require found (error_reply not_found)
    hash ← require (bcrypt password) (error_reply database)
    attempt (Users.update_user (with_password hash u))
    pure no_content
