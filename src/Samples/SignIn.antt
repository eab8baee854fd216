-- ===== src/Samples/SignIn.antt =====
-- The theorems on sign-in, applied to a small database.
use uigraph_api.Prelude.{◌+◌, ◌↔◌, ◌⊎◌, false, none, some, ◌≡◌, refl, arith, find, inr, ◌==◌}
use uigraph_api.Prelude.Text.{has_prefix}
use uigraph_api.Http.{json, no_content, forbidden, unauthorized_reply}
use uigraph_api.Db.{User}
use uigraph_api.Exec.{World, ok, err, ◌>>=◌}
use uigraph_api.Store.Ordered.{Locale}
use uigraph_api.Store.Users.{get_user_by_email}
use uigraph_api.Store.Sessions.{create_session}
use uigraph_api.Identity.Principal.{Principal, user}
use uigraph_api.Middleware.{Request, verify_bearer}
use uigraph_api.Rolemap.Values.{empty, entry, text}
use uigraph_api.Sessions.{SessionBackend, Protocols, Client, set_session, cleared, session_lifetime}
use uigraph_api.Sessions.Password.{
  LoginRequest, LoginResponse, Fresh, check_password, start_session, login, logout, logout_token,
  extract_bearer_token,
}
use uigraph_api.Sessions.Started.{IsSignIn}
use uigraph_api.Sessions.Accepted.{login-verify_bearer}
use uigraph_api.Sessions.Refused.{IsWrong, login-unauthorized}
use uigraph_api.Sessions.Ended.{logout-verify_bearer}
use uigraph_api.Sessions.Discovery.{discover_orgs}
use uigraph_api.Sessions.Throttled.{IsThrottled, discover_orgs-IsThrottled}
use uigraph_api.Samples.{hash, world}

abbrev pub locale : Locale
locale = record { before = λ a b. false; lower = λ s. s }

-- Protocols without a network: every call fails but the one for the claims.
abbrev protocols : Protocols
protocols = record {
  auth_code_url = λ p redirect_uri state nonce. p.auth_url;
  exchange = λ p code redirect_uri. ok (code, "");
  merged_claims = λ p token nonce. ok (entry "email" (text "alice@acme.io") empty);
  authn_request = λ p acs state. err "no network";
  sp_metadata = λ p acs url. err "no network";
  validate_response = λ p acs response request_id. err "no network";
}

-- A password matches if it is the stored text.
abbrev pub backend : SessionBackend
backend = record {
  cipher = none;
  public_url = "https://ui.acme.io";
  frontend_url = "";
  enterprise = none;
  locale = locale;
  hash = hash;
  password_matches = λ stored sent. stored == sent;
  lower = λ c. c;
  parse_address = λ s. some s;
  compile = λ pattern. none;
  show = λ a. "";
  quote = λ s. s;
  protocols = protocols;
}

abbrev pub client : Client
client = record { user_agent = "curl"; remote_addr = "10.0.0.1" }

abbrev pub fresh : Fresh
fresh = record { id = "s2"; token = some "abc" }

abbrev credentials : LoginRequest
credentials = record { email = "alice@acme.io"; password = "x" }

abbrev answer : LoginResponse
answer = record { token = "abc"; must_change_password = false }

login_answer :
    (login backend fresh client (some credentials) world).0
    ≡ ok (json 200 answer, set_session "abc" (world.now + session_lifetime))
unfolding login get_user_by_email check_password start_session create_session ◌>>=◌
login_answer = refl

abbrev later : World
later = record world { db = (login backend fresh client (some credentials) world).1.db; now = 2000 }

login-verify_bearer_example :
    (u : User) × IsSignIn backend world (some credentials) u
    × (p : Principal) × ((verify_bearer hash "abc" later).0 ≡ ok p)
    × (p.kind ≡ user)
    × (p.user_id ≡ u.id)
login-verify_bearer_example =
    login-verify_bearer backend fresh client (some credentials) world later answer
      (set_session "abc" (world.now + session_lifetime)) login_answer refl refl (ground arith)
      (λ n. refl)

abbrev mistyped : LoginRequest
mistyped = record { email = "alice@acme.io"; password = "y" }

login-unauthorized_example :
    ((login backend fresh client (some mistyped) world).0 ≡ err unauthorized_reply) ↔ (
      (find (λ u. u.email == mistyped.email) world.db.users ≡ none)
      ⊎ ((u : User) × (find (λ u. u.email == mistyped.email) world.db.users ≡ some u)
          × IsWrong backend mistyped.password u))
login-unauthorized_example = login-unauthorized backend fresh client mistyped world refl refl

-- The request of Logout with the token of the sample's session.
abbrev leaving : Request
leaving = record { authorization = "Bearer cookie"; cookie = none; api_key = ""; org_id = "" }

leaving_token : logout_token backend leaving ≡ "cookie"
unfolding extract_bearer_token has_prefix
leaving_token = refl

abbrev left : World
left = record world { db = (logout backend leaving world).1.db; now = 120 }

logout-verify_bearer_example :
    ((logout backend leaving world).0 ≡ ok (no_content, cleared))
    × ((verify_bearer hash (logout_token backend leaving) left).0 ≡ err forbidden)
logout-verify_bearer_example =
    logout-verify_bearer backend leaving world left "s1" (rw leaving_token refl) (inr refl, tt)
      (λ n. refl) (ground arith) refl refl

-- A database without an attempt.
idle : IsThrottled world.now world.db
idle = record { few = λ email since h. ground arith }

discover_orgs-IsThrottled_example :
    IsThrottled 200 (discover_orgs backend "10.0.0.1" (some "alice@acme.io") world).1.db
discover_orgs-IsThrottled_example =
    discover_orgs-IsThrottled backend "10.0.0.1" (some "alice@acme.io") world 200 idle
      (ground arith)
