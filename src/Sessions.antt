-- ===== src/Sessions.antt =====
-- internal/api/auth/session.go: sign-in with a password or through an identity provider, sign-out
-- and what a signed-in user reads. A cookie that a response sets is part of the answer. Random
-- values, bcrypt, the two protocols and the parser of e-mail addresses are parameters.
pub mod Password
pub mod Discovery
pub mod SignOn
pub mod Complete
pub mod Reads
pub mod Started
pub mod Accepted
pub mod Refused
pub mod Ended
pub mod Throttled
pub mod States
pub mod Enrolled
pub mod Joined
pub mod Redirects
use Prim.Native.String
use mathlib.Core.List
use uigraph_api.Prelude.{
  ℕ, ◌+◌, ◌*◌, Char, String, Bool, true, false, not, ◌&&◌, Option, none, some, List, ◌==◌,
  if◌then◌else◌,
}
use uigraph_api.Prelude.Text.{has_prefix}
use uigraph_api.Http.{Error, database, not_found, Reply}
use uigraph_api.Db.{Session}
use uigraph_api.Exec.{Exec, Result, ok, err, lift, pure, ◌>>=◌}
use uigraph_api.Rolemap.{Compile}
use uigraph_api.Rolemap.Values.{Attribute, Attributes, get, text, texts}
use uigraph_api.Members.{Enterprise}
use uigraph_api.Providers.{Cipher, SamlProvider}
use uigraph_api.Store.Ordered.{Locale}

-- oauth.Provider
pub record OauthProvider : Type 0 where
  pub name : String
  pub client_id : String
  pub client_secret : String
  pub auth_url : String
  pub token_url : String
  pub userinfo_url : String
  pub scopes : String

-- saml.Identity
pub record SamlIdentity : Type 0 where
  pub name_id : String
  pub attributes : Attributes

-- The calls of internal/oauth and internal/saml that go to the network or to other packages; an
-- error is its text. `token` stands for oauth.Token.
pub record Protocols : Type 0 where
  pub auth_code_url : OauthProvider → String → String → String → String
  pub exchange : OauthProvider → String → String → Result String (String × String)
  pub merged_claims : OauthProvider → String × String → String → Result String Attributes
  pub authn_request : SamlProvider → String → String → Result String (String × String)
  pub sp_metadata : SamlProvider → String → String → Result String String
  pub validate_response : SamlProvider → String → String → String → Result String SamlIdentity

-- What the handler is built with, and the functions of other packages that it calls. `quote` is the
-- verb `%q`; `parse_address` is the address that `mail.ParseAddress` finds.
pub record SessionBackend : Type 0 where
  pub cipher : Option Cipher
  pub public_url : String
  pub frontend_url : String
  pub enterprise : Enterprise
  pub locale : Locale
  pub hash : String → String
  pub password_matches : String → String → Bool
  pub lower : Char → Char
  pub parse_address : String → Option String
  pub compile : Compile
  pub show : Attribute → String
  pub quote : String → String
  pub protocols : Protocols

-- The session cookie of a response.
pub data Cookie : Type 0 where
  unchanged : Cookie
  set_session : String → ℕ → Cookie
  cleared : Cookie

-- The end of a handler; an early return sets no cookie.
abbrev pub Answer : Type 0 → Type 0
Answer A = Reply A × Cookie

-- What a session keeps of a request.
pub record Client : Type 0 where
  pub user_agent : String
  pub remote_addr : String

-- Durations, in nanoseconds.
abbrev pub minute : ℕ
minute = 60000000000

abbrev pub login_state_ttl : ℕ
login_state_ttl = 10 * minute

abbrev pub discover_window : ℕ
discover_window = 15 * minute

abbrev pub discover_limit : ℕ
discover_limit = 20

abbrev pub session_lifetime : ℕ
session_lifetime = 43200 * minute

-- The row that Login, completeLogin and SessionToken insert.
abbrev pub new_session : String → String → String → Client → ℕ → String → Session
new_session id user_id hash client now auth_provider = record {
  id = id;
  user_id = user_id;
  token_hash = hash;
  prev_token_hash = "";
  auth_token_seen = false;
  user_agent = client.user_agent;
  client_ip = client.remote_addr;
  rotated_at = now;
  created_at = now;
  expires_at = now + session_lifetime;
  last_active_at = now;
  auth_provider = auth_provider;
}

-- generateSessionToken: the plaintext and its hash, or an error if no random bytes are read.
abbrev pub generate_session_token :
    (String → String) → Option String → Result Error (String × String)
generate_session_token hash none = err database
generate_session_token hash (some plaintext) = ok (plaintext, hash plaintext)

unfoldable pub safe_redirect : String → String
safe_redirect raw = if has_prefix raw "/" && not (has_prefix raw "//") then raw else "/"

unfoldable pub claim_or : String → String → String
claim_or configured fallback = if not (configured == "") then configured else fallback

-- The text of a claim, or of an attribute that may have several.
abbrev text_of : Option Attribute → String
text_of (some (text s)) = s
text_of _ = ""

unfoldable pub claim_string : Attributes → String → String
claim_string claims key = text_of (get key claims)

abbrev first_text_of : Option Attribute → String
first_text_of (some (text s)) = s
first_text_of (some (texts (List.◌∷◌ s ss))) = s
first_text_of _ = ""

unfoldable pub attr_string : Attributes → String → String
attr_string attrs key = first_text_of (get key attrs)

unfoldable pub frontend_base : SessionBackend → String
frontend_base h = if not (h.frontend_url == "") then h.frontend_url else h.public_url

unfoldable pub oidc_redirect_uri : String → String → String → String
oidc_redirect_uri public_url org_id slug =
    String.◌++◌ public_url
      (String.◌++◌ "/api/v1/auth/orgs/" (String.◌++◌ org_id (String.◌++◌ "/callback/" slug)))
