-- ===== src/Sessions/Password.antt =====
-- internal/api/auth/session.go: Login, Logout and SessionToken.
use Prim.Native.String.{[], ◌∷◌}
use uigraph_api.Prelude.{ℕ, ◌+◌, String, Bool, not, ◌||◌, Option, none, some, ◌==◌, if◌then◌else◌}
use uigraph_api.Prelude.Text.{has_prefix}
use uigraph_api.Http.{
  Error, Reply, json, no_content, bad_request, unauthorized_reply, forbidden_reply,
}
use uigraph_api.Db.{User, Session}
use uigraph_api.Exec.{
  Exec, Result, ok, err, pure, stop_if, lift, require, attempt, ignore, capture, now_of, ◌>>=◌,
  ◌>>◌,
}
use uigraph_api.Identity.Principal.{Principal, user, service_account}
use uigraph_api.Store.Users.{get_user_by_email}
use uigraph_api.Store.Sessions.{create_session, get_session_by_token, delete_session}
use uigraph_api.Middleware.{Request, cookie_value}
use uigraph_api.Sessions.{
  SessionBackend, unchanged, set_session, cleared, Answer, Client, new_session,
  generate_session_token, session_lifetime,
}

pub record LoginRequest : Type 0 where
  pub email : String
  pub password : String

pub record LoginResponse : Type 0 where
  pub token : String
  pub must_change_password : Bool

-- `u == nil || u.PasswordHash == ""`
abbrev pub with_password : Option User → Option User
with_password none = none
with_password (some u) = if u.password_hash == "" then none else some u

-- The two random values of a new session: its id and its token.
pub record Fresh : Type 0 where
  pub id : String
  pub token : Option String

module _ (h : SessionBackend) where
  unfoldable pub start_session :
      {A : Type 0} → Fresh → Client → String → String → Exec (Reply A) (String × ℕ)
  start_session fresh client user_id auth_provider = do
    token ← attempt (lift (generate_session_token h.hash fresh.token))
    now ← now_of
    attempt (create_session (new_session fresh.id user_id token.1 client now auth_provider))
    pure (token.0, now + session_lifetime)

  -- The checks of Login on the user of the address.
  unfoldable pub check_password : String → Option User → Exec (Reply LoginResponse) User
  check_password password found = do
    u ← require (with_password found) unauthorized_reply
    stop_if u.disabled forbidden_reply
    stop_if (not (h.password_matches u.password_hash password)) unauthorized_reply
    pure u

  unfoldable pub login :
      Fresh → Client → Option LoginRequest → Exec (Reply LoginResponse) (Answer LoginResponse)
  login fresh client body = do
    req ← require body (bad_request "invalid JSON")
    stop_if (req.email == "" || req.password == "") (bad_request "email and password are required")
    found ← attempt (get_user_by_email req.email)
    u ← check_password req.password found
    session ← start_session fresh client u.id ""
    pure (
      json 200 (record { token = session.0; must_change_password = u.must_change_password }),
      set_session session.0 session.1,
    )

  -- extractBearerToken: what follows the seven characters of "Bearer ".
  abbrev after_first : String → String
  after_first [] = []
  after_first (c ∷ s) = s

  unfoldable pub extract_bearer_token : Request → String
  extract_bearer_token r =
      if has_prefix r.authorization "Bearer "
      then after_first (
          after_first
            (after_first (after_first (after_first (after_first (after_first r.authorization))))))
      else ""

  abbrev pub logout_token : Request → String
  logout_token r =
      if extract_bearer_token r == "" then cookie_value r.cookie else extract_bearer_token r

  abbrev delete_found : Result Error (Option Session) → Exec (Reply (Unit {0})) (Unit {0})
  delete_found (err e) = pure tt
  delete_found (ok none) = pure tt
  delete_found (ok (some sess)) = ignore (delete_session sess.id)

  unfoldable pub logout : Request → Exec (Reply (Unit {0})) (Answer (Unit {0}))
  logout r = if logout_token r == "" then pure (no_content, cleared) else do
    sess ← capture (get_session_by_token (h.hash (logout_token r)))
    delete_found sess
    pure (no_content, cleared)

  -- The principal of a user; none for a service account or for no principal.
  abbrev pub user_only : Option Principal → Option Principal
  user_only none = none
  user_only (some p) = elim p.kind [ user ↦ some p | service_account ↦ none ]

  unfoldable pub session_token :
      Fresh → Client → Option Principal → Exec (Reply (String × ℕ)) (Answer (String × ℕ))
  session_token fresh client principal = do
    p ← require (user_only principal) unauthorized_reply
    session ← start_session fresh client p.user_id p.auth_provider
    pure (json 200 session, unchanged)
