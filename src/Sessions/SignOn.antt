-- ===== src/Sessions/SignOn.antt =====
-- internal/api/auth/session.go: the requests of a sign-in through an identity provider.
use Prim.Native.String
use uigraph_api.Prelude.{◌+◌, String, not, Option, none, some, ◌==◌, if◌then◌else◌}
use uigraph_api.Http.{Error, not_found, database, Reply, redirect, bad_request}
use uigraph_api.Db.{AuthProvider, LoginState}
use uigraph_api.Exec.{
  Exec, Result, ok, err, pure, stop_if, lift, require, attempt, now_of, ◌>>=◌, ◌>>◌,
}
use uigraph_api.Identity.Provider.{kind_oidc, kind_saml}
use uigraph_api.Providers.{Cipher, SamlProvider, acs_url, unexpected}
use uigraph_api.Providers.Handlers.{saml_provider_for}
use uigraph_api.Store.Providers.{get_auth_provider_by_slug}
use uigraph_api.Store.Logins.{create_login_state, consume_login_state}
use uigraph_api.Sessions.{
  OauthProvider, SamlIdentity, SessionBackend, Answer, Client, login_state_ttl,
  generate_session_token, safe_redirect, claim_or, claim_string, attr_string, oidc_redirect_uri,
}
use uigraph_api.Sessions.Password.{Fresh}
use uigraph_api.Sessions.Complete.{complete_login}

-- `prov == nil || !prov.Enabled`
abbrev pub if_enabled : Option AuthProvider → Result Error AuthProvider
if_enabled none = err not_found
if_enabled (some p) = if p.enabled then ok p else err not_found

unfoldable pub load_provider : String → String → Exec Error AuthProvider
load_provider org_id slug = do p ← get_auth_provider_by_slug org_id slug; lift (if_enabled p)

-- The random values of a new sign-in.
pub record FreshState : Type 0 where
  pub id : String
  pub state : Option String
  pub nonce : Option String

-- Where the browser goes, and what the state keeps of it.
pub record Departure : Type 0 where
  pub address : String
  pub nonce : String
  pub saml_request_id : String

-- The end of consumeState: the state belongs to the provider, and the provider to the route.
unfoldable pub check_provider :
    String → LoginState → AuthProvider → Exec (Reply String) (AuthProvider × LoginState)
check_provider kind ls prov = do
  stop_if (not (ls.provider_id == prov.id))
      (bad_request "login state does not belong to this provider")
  stop_if (not (prov.kind == kind)) (bad_request "login state does not belong to this provider")
  pure (prov, ls)

unfoldable pub find_provider :
    String → String → String → LoginState → Exec (Reply String) (AuthProvider × LoginState)
find_provider org_id slug kind ls = do
  prov ← attempt (load_provider org_id slug)
  check_provider kind ls prov

-- consumeState, with the value of the request and the kind that its route is for.
unfoldable pub consume_state :
    String → String → String → String → Exec (Reply String) (AuthProvider × LoginState)
consume_state org_id slug state kind = do
  stop_if (state == "") (bad_request "missing login state")
  taken ← attempt (consume_login_state state)
  ls ← require taken (bad_request "login state is unknown or expired")
  find_provider org_id slug kind ls

module _ (h : SessionBackend) where
  abbrev decrypt_with : Option Cipher → String → Result String String
  decrypt_with none ciphertext =
      err "auth: no secret key configured, provider secrets cannot be read"
  decrypt_with (some c) ciphertext = c.decrypt ciphertext

  unfoldable pub decrypt : String → Result String String
  decrypt ciphertext = if ciphertext == "" then ok "" else decrypt_with h.cipher ciphertext

  unfoldable pub oauth_provider : AuthProvider → Exec Error OauthProvider
  oauth_provider p = do
    secret ← lift (unexpected (decrypt p.client_secret))
    pure (record {
      name = p.display_name;
      client_id = p.client_id;
      client_secret = secret;
      auth_url = p.auth_url;
      token_url = p.token_url;
      userinfo_url = p.userinfo_url;
      scopes = p.scopes;
    })

  unfoldable pub saml_provider : AuthProvider → Exec Error SamlProvider
  saml_provider p = do
    key ← lift (unexpected (decrypt p.sp_key))
    pure (saml_provider_for p h.public_url key)

  -- The two cases of InitiateLogin.
  abbrev pub depart_oidc : AuthProvider → String → Option String → Exec Error Departure
  depart_oidc prov state random = do
    nonce ← lift (generate_session_token h.hash random)
    p ← oauth_provider prov
    pure (record {
      address =
          h.protocols.auth_code_url p (oidc_redirect_uri h.public_url prov.org_id prov.slug) state
            nonce.0;
      nonce = nonce.0;
      saml_request_id = "";
    })

  abbrev pub depart_saml : AuthProvider → String → Exec Error Departure
  depart_saml prov state = do
    p ← saml_provider prov
    request ← lift (
        unexpected (h.protocols.authn_request p (acs_url h.public_url prov.org_id prov.slug) state))
    pure (record { address = request.0; nonce = ""; saml_request_id = request.1 })

  unfoldable pub depart : AuthProvider → String → Option String → Exec Error Departure
  depart prov state random =
      if prov.kind == kind_oidc
      then depart_oidc prov state random
      else if prov.kind == kind_saml
      then depart_saml prov state
      else lift (err database)

  unfoldable pub initiate_login :
      FreshState → String → String → String → Exec (Reply String) (Reply String)
  initiate_login fresh org_id slug redirect_to = do
    prov ← attempt (load_provider org_id slug)
    state ← attempt (lift (generate_session_token h.hash fresh.state))
    departure ← attempt (depart prov state.0 fresh.nonce)
    now ← now_of
    attempt (
        create_login_state (record {
          id = fresh.id;
          state = state.0;
          org_id = prov.org_id;
          provider_id = prov.id;
          nonce = departure.nonce;
          saml_request_id = departure.saml_request_id;
          redirect_to = safe_redirect redirect_to;
          created_at = now;
          expires_at = now + login_state_ttl;
        }))
    pure (redirect departure.address)

  unfoldable pub oidc_callback :
      String
      → Fresh
      → Client
      → String
      → String
      → String
      → String
      → Exec (Reply String) (Answer String)
  oidc_callback new_id fresh client org_id slug state code = do
    found ← consume_state org_id slug state kind_oidc
    let prov = found.0
    stop_if (code == "") (bad_request "missing authorization code")
    p ← attempt (oauth_provider prov)
    token ← attempt (
        lift (
          unexpected
            (h.protocols.exchange p code (oidc_redirect_uri h.public_url prov.org_id prov.slug))))
    claims ← attempt (lift (unexpected (h.protocols.merged_claims p token found.1.nonce)))
    complete_login h new_id fresh client prov found.1 (record {
      sub = claim_string claims (claim_or prov.sub_claim "sub");
      email = claim_string claims (claim_or prov.email_claim "email");
      name = claim_string claims (claim_or prov.name_claim "name");
      attributes = claims;
    })

  abbrev no_attribute : String → String
  no_attribute name =
      String.◌++◌ "configured email attribute "
        (String.◌++◌ (h.quote name) " was not returned by the SAML provider")

  -- The address: the configured attribute, or the name that the provider vouches for.
  unfoldable pub saml_email : AuthProvider → SamlIdentity → Exec (Reply String) String
  saml_email prov id = if prov.email_attribute == "" then pure id.name_id else do
    let email = attr_string id.attributes prov.email_attribute
    stop_if (email == "") (bad_request (no_attribute prov.email_attribute))
    pure email

  -- `form` is the value "RelayState" and the response of the posted form, none if it does not parse.
  unfoldable pub saml_acs :
      String
      → Fresh
      → Client
      → String
      → String
      → Option (String × String)
      → Exec (Reply String) (Answer String)
  saml_acs new_id fresh client org_id slug form = do
    posted ← require form (bad_request "invalid ACS form")
    found ← consume_state org_id slug posted.0 kind_saml
    let prov = found.0
    p ← attempt (saml_provider prov)
    id ← attempt (
        lift (
          unexpected (
            h.protocols.validate_response p (acs_url h.public_url prov.org_id prov.slug) posted.1
              found.1.saml_request_id)))
    email ← saml_email prov id
    complete_login h new_id fresh client prov found.1 (record {
      sub = id.name_id;
      email = email;
      name = attr_string id.attributes (claim_or prov.name_attribute "displayName");
      attributes = id.attributes;
    })
