-- ===== src/Middleware.antt =====
-- internal/middleware: how a request is authenticated.
pub mod Authenticated
use Prim.Native.String.{[], ◌∷◌}
use uigraph_api.Prelude.{
  ℕ, ◌+◌, Char, code, String, Bool, true, false, not, ◌&&◌, ◌||◌, Option, none, some, ◌==◌, leb,
  ltb, nat_beq, if◌then◌else◌,
}
use mathlib.Core.List
use uigraph_api.Prelude.Text.{cut, trim_space}
use uigraph_api.Http.{Error, forbidden, Reply, refused}
use uigraph_api.Db.{User, Session, ServiceAccount, Token}
use uigraph_api.Exec.{
  World, Exec, Result, ok, err, pure, stop, stop_if, now_of, ignore, capture, ◌>>=◌, ◌>>◌,
}
use uigraph_api.Store.Users.{get_user}
use uigraph_api.Store.Accounts.{get_token_by_prefix, touch_token, get_service_account}
use uigraph_api.Store.Sessions.{get_session_by_token}
use uigraph_api.Identity.Token.{prefix, verify}
use uigraph_api.Identity.Principal.{Principal, user, service_account}
use uigraph_api.Authz.Authorizer.{is_server_admin}

-- The parts of a request that the server reads before its handler: the headers "Authorization" and
-- "X-API-Key", empty if they are absent, the session cookie and the path value "orgID".
pub record Request : Type 0 where
  pub authorization : String
  pub cookie : Option String
  pub api_key : String
  pub org_id : String

-- The lower case of an ASCII letter. `strings.EqualFold` folds no other letter to one of "bearer".
abbrev fold : ℕ → ℕ
fold c = if leb b'A' c && leb c b'Z' then c + 32 else c

equal_fold : String → String → Bool
equal_fold [] [] = true
equal_fold [] (d ∷ t) = false
equal_fold (c ∷ s) [] = false
equal_fold (c ∷ s) (d ∷ t) = nat_beq (fold (code c)) (fold (code d)) && equal_fold s t

unfoldable pub extract_bearer : Request → String
unfolding equal_fold
extract_bearer r =
    if r.authorization == ""
    then ""
    else if not (cut b' ' r.authorization).found
        || not (equal_fold (cut b' ' r.authorization).before "bearer")
    then ""
    else trim_space (cut b' ' r.authorization).after

abbrev pub is_expired : ℕ → Option ℕ → Bool
is_expired now none = false
is_expired now (some t) = ltb t now

abbrev pub account_principal : ServiceAccount → Principal
account_principal sa = record {
  kind = service_account;
  user_id = sa.id;
  org_id = sa.org_id;
  is_server_admin = false;
  service_account_id = sa.id;
  scopes = sa.scopes;
  auth_provider = "";
}

-- `if err != nil || sa == nil || sa.Disabled`
abbrev account_or_forbidden : Result Error (Option ServiceAccount) → Exec Error Principal
account_or_forbidden (err e) = stop forbidden
account_or_forbidden (ok none) = stop forbidden
account_or_forbidden (ok (some sa)) =
    if sa.disabled then stop forbidden else pure (account_principal sa)

module _ (hash : String → String) where
  -- The checks on the token that the prefix finds, and its account.
  unfoldable pub check_token : String → Option Token → Exec Error Principal
  check_token plaintext none = stop forbidden
  check_token plaintext (some tok) = do
    now ← now_of
    stop_if tok.revoked forbidden
    stop_if (is_expired now tok.expires_at) forbidden
    stop_if (not (verify hash plaintext tok.hash)) forbidden
    ignore (touch_token tok.id)
    sa ← capture (get_service_account tok.service_account_id)
    account_or_forbidden sa

  unfoldable pub verify_api_key : String → Exec Error Principal
  verify_api_key plaintext = do
    tok ← get_token_by_prefix (prefix plaintext)
    check_token plaintext tok

  -- An error of the user's lookup leaves the flag false.
  abbrev admin_flag : Result Error (Option User) → Bool
  admin_flag (err e) = false
  admin_flag (ok u) = is_server_admin u

  unfoldable pub session_principal : Option Session → Exec Error Principal
  session_principal none = stop forbidden
  session_principal (some sess) = do
    u ← capture (get_user sess.user_id)
    pure (record {
      kind = user;
      user_id = sess.user_id;
      org_id = "";
      is_server_admin = admin_flag u;
      service_account_id = "";
      scopes = List.[];
      auth_provider = sess.auth_provider;
    })

  -- VerifyBearer of session_verifier.go
  unfoldable pub verify_bearer : String → Exec Error Principal
  verify_bearer token = do sess ← get_session_by_token (hash token); session_principal sess

-- The two ways to authenticate, each of which may be nil.
pub record Middleware : Type 0 where
  pub bearer : Option (String → Exec Error Principal)
  pub api_keys : Option (String → Exec Error Principal)

-- A verifier with the value that it is to check, if there are both.
abbrev use_with : Option (String → Exec Error Principal) → String → Option (Exec Error Principal)
use_with none s = none
use_with (some v) s = if s == "" then none else some (v s)

abbrev pub cookie_value : Option String → String
cookie_value none = ""
cookie_value (some v) = v

abbrev first : Option (Exec Error Principal) → Exec Error Principal → Exec Error Principal
first none otherwise = otherwise
first (some m) otherwise = m

-- The bearer token comes first, then the session cookie, then the API key.
unfoldable pub authenticate : Middleware → Request → Exec Error Principal
unfolding extract_bearer
authenticate m r = first (use_with m.bearer (extract_bearer r)) (
    first (use_with m.bearer (cookie_value r.cookie))
      (first (use_with m.api_keys r.api_key) (stop forbidden)))

-- A handler writes its reply, and sees the principal of the request's context.
abbrev pub Handler : Type 0 → Type 0
Handler A = Request → Option Principal → World → Reply A × World

module _ {A : Type 0} where
  abbrev serve_as : Handler A → Request → Result Error Principal × World → Reply A × World
  serve_as next r (err e, w) = (refused 401 "unauthenticated", w)
  serve_as next r (ok p, w) = next r (some p) w

  -- Middleware.Handler
  unfoldable pub authenticated : Middleware → Handler A → Request → World → Reply A × World
  authenticated m next r w = serve_as next r (authenticate m r w)
