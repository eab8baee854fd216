-- ===== src/Sessions/Complete.antt =====
-- internal/api/auth/session.go: completeLogin, the end of a sign-in through an identity provider.
use Prim.Native.String
use uigraph_api.Prelude.{String, Bool, false, not, Option, none, some, ◌==◌, if◌then◌else◌}
use uigraph_api.Prelude.Text.{trim_space}
use uigraph_api.Http.{database, Reply, redirect, bad_request, error_reply, forbidden_reply}
use uigraph_api.Authz.Scope.{Role}
use uigraph_api.Db.{User, Member, AuthProvider, LoginState}
use uigraph_api.Exec.{Exec, Result, ok, err, pure, stop_if, lift, require, attempt, ◌>>=◌, ◌>>◌}
use uigraph_api.Identity.Provider.{email_allowed}
use uigraph_api.Rolemap.{RuleError, resolve}
use uigraph_api.Rolemap.Values.{Attributes}
use uigraph_api.Members.{check_seats, is_absent}
use uigraph_api.Store.Users.{get_user_by_email, create_user}
use uigraph_api.Store.Members.{get_member, upsert_member}
use uigraph_api.Store.Providers.{list_role_mappings}
use uigraph_api.Store.Logins.{upsert_auth_identity}
use uigraph_api.Sessions.{SessionBackend, set_session, Answer, Client, frontend_base}
use uigraph_api.Sessions.Password.{Fresh, start_session}

pub record CompletedAuth : Type 0 where
  pub sub : String
  pub email : String
  pub name : String
  pub attributes : Attributes

-- The row of a user who signs in for the first time.
abbrev pub signed_up : String → String → String → User
signed_up id email name = record {
  id = id;
  email = email;
  name = if name == "" then email else name;
  login = email;
  password_hash = "";
  must_change_password = false;
  disabled = false;
  role = "";
}

-- A user who exists, or who is created if the provider lets users sign up.
abbrev pub user_or_new : Bool → User → Option User → Exec (Reply String) User
user_or_new allow_sign_up fresh (some u) = pure u
user_or_new allow_sign_up fresh none = do
  stop_if (not allow_sign_up) forbidden_reply
  attempt (create_user fresh)
  pure fresh

abbrev pub unexpected_rule : Result RuleError Role → Result (Reply String) Role
unexpected_rule (ok role) = ok role
unexpected_rule (err e) = err (error_reply database)

abbrev pub sso_member : String → String → Role → Member
sso_member user_id org_id role = record {
  user_id = user_id;
  org_id = org_id;
  role = role;
  source = "sso";
}

module _ (h : SessionBackend) where
  abbrev same_address : String → Option String → Option String
  same_address email none = none
  same_address email (some address) = if address == email then some email else none

  -- `validEmail`
  unfoldable pub valid_email : String → Option String
  valid_email raw = same_address (trim_space raw) (h.parse_address (trim_space raw))

  unfoldable pub check_email : AuthProvider → String → Exec (Reply String) String
  check_email prov raw = do
    stop_if (raw == "") (bad_request "the provider returned no email address")
    email ← require (valid_email raw) (bad_request "the provider returned an invalid email address")
    stop_if (not (email_allowed h.lower prov email)) forbidden_reply
    pure email

  unfoldable pub find_user : String → AuthProvider → String → String → Exec (Reply String) User
  find_user new_id prov email name = do
    found ← attempt (get_user_by_email email)
    u ← user_or_new prov.allow_sign_up (signed_up new_id email name) found
    stop_if u.disabled forbidden_reply
    pure u

  -- Only a new membership counts against the seats.
  abbrev pub check_new_seat : AuthProvider → Option Member → Exec (Reply String) (Unit {0})
  check_new_seat prov existing =
      if is_absent existing then check_seats h.enterprise prov.org_id 403 else pure tt

  unfoldable pub enroll : AuthProvider → Attributes → User → Exec (Reply String) (Unit {0})
  enroll prov attributes u = do
    rules ← attempt (list_role_mappings prov.id)
    role ← lift (unexpected_rule (resolve h.compile h.show rules attributes prov.default_role))
    existing ← attempt (get_member u.id prov.org_id)
    check_new_seat prov existing
    attempt (upsert_member (sso_member u.id prov.org_id role))

  abbrev pub link_identity : AuthProvider → String → User → Exec (Reply String) (Unit {0})
  link_identity prov sub u =
      if not (sub == "")
      then attempt
          (upsert_auth_identity (record { user_id = u.id; provider_id = prov.id; sub = sub }))
      else pure tt

  -- The end of a sign-in, once the user is a member.
  unfoldable pub finish_login :
      Fresh
      → Client
      → AuthProvider
      → LoginState
      → String
      → User
      → Exec (Reply String) (Answer String)
  finish_login fresh client prov state sub u = do
    link_identity prov sub u
    session ← start_session h fresh client u.id prov.display_name
    pure (
      redirect (String.◌++◌ (frontend_base h) state.redirect_to),
      set_session session.0 session.1,
    )

  unfoldable pub complete_login :
      String
      → Fresh
      → Client
      → AuthProvider
      → LoginState
      → CompletedAuth
      → Exec (Reply String) (Answer String)
  complete_login new_id fresh client prov state auth = do
    email ← check_email prov auth.email
    u ← find_user new_id prov email auth.name
    enroll prov auth.attributes u
    finish_login fresh client prov state auth.sub u
