-- ===== src/Providers/Apply.antt =====
-- internal/api/auth/authprovider.go: apply, applyOIDC and applySAML, with the endpoints of
-- internal/oauth/oauth.go.
use Prim.Native.String.{◌++◌}
use uigraph_api.Prelude.{String, not, ◌&&◌, ◌||◌, Option, none, some, ◌==◌, if◌then◌else◌}
use uigraph_api.Prelude.Text.{trim_space}
use uigraph_api.Db.{AuthProvider}
use uigraph_api.Exec.{Result, ok, err}
use uigraph_api.Identity.Provider.{kind_oidc, kind_saml, type_generic, type_entra, type_okta}
use uigraph_api.Providers.{
  Cipher, Metadata, Backend, ProviderRequest, secret_mask, saml_metadata_url,
}

-- oauth.EntraEndpoints and oauth.OktaEndpoints: the addresses for sign-in, tokens and user data.
pub record Endpoints : Type 0 where
  pub auth : String
  pub token : String
  pub userinfo : String

unfoldable pub entra_endpoints : String → Endpoints
entra_endpoints tenant_id =
    let base = "https://login.microsoftonline.com/" ++ (tenant_id ++ "/oauth2/v2.0") in
    record {
      auth = base ++ "/authorize";
      token = base ++ "/token";
      userinfo = "https://graph.microsoft.com/oidc/userinfo";
    }

unfoldable pub okta_endpoints : String → Endpoints
okta_endpoints domain =
    let base = "https://" ++ (domain ++ "/oauth2/v1") in
    record { auth = base ++ "/authorize"; token = base ++ "/token"; userinfo = base ++ "/userinfo" }

module _ (h : Backend) where
  -- The fields of a request for OpenID Connect.
  abbrev pub oidc_fields : ProviderRequest → AuthProvider → AuthProvider
  oidc_fields req p = record p {
    type = if req.type == "" then type_generic else req.type;
    client_id = trim_space req.client_id;
    auth_url = trim_space req.auth_url;
    token_url = trim_space req.token_url;
    userinfo_url = trim_space req.userinfo_url;
    api_url = trim_space req.api_url;
    scopes = req.scopes;
    email_claim = req.email_claim;
    name_claim = req.name_claim;
    sub_claim = req.sub_claim;
    groups_claim = req.groups_claim;
  }

  abbrev pub at_endpoints : Endpoints → AuthProvider → AuthProvider
  at_endpoints e p = record p { auth_url = e.auth; token_url = e.token; userinfo_url = e.userinfo }

  -- The addresses that follow from the kind of provider, if the request lacks one.
  unfoldable pub fill_endpoints : AuthProvider → Result String AuthProvider
  fill_endpoints p =
      if not (p.auth_url == "" || p.token_url == "" || p.userinfo_url == "")
      then ok p
      else if p.type == type_entra
      then (if p.api_url == ""
          then err "an entra provider needs apiUrl (the directory/tenant ID)"
          else ok (at_endpoints (entra_endpoints p.api_url) p))
      else if p.type == type_okta
      then (if p.api_url == ""
          then err "an okta provider needs apiUrl (the okta domain)"
          else ok (at_endpoints (okta_endpoints p.api_url) p))
      else ok p

  abbrev no_key : String
  no_key = "no secret key is configured, secrets cannot be stored"

  abbrev with_secret : AuthProvider → Result String String → Result String AuthProvider
  with_secret p (err e) = err e
  with_secret p (ok enc) = ok (record p { client_secret = enc })

  abbrev encrypt_secret : Option Cipher → String → AuthProvider → Result String AuthProvider
  encrypt_secret none secret p = err no_key
  encrypt_secret (some c) secret p = with_secret p (c.encrypt secret)

  -- An absent secret, or the mask of the response, keeps the stored one.
  abbrev pub keep_or_store : String → AuthProvider → Result String AuthProvider
  keep_or_store secret p =
      if secret == "" || secret == secret_mask then ok p else encrypt_secret h.cipher secret p

  abbrev pub then_secret : String → Result String AuthProvider → Result String AuthProvider
  then_secret secret (err e) = err e
  then_secret secret (ok p) = keep_or_store secret p

  unfoldable pub apply_oidc : ProviderRequest → AuthProvider → Result String AuthProvider
  unfolding fill_endpoints
  apply_oidc req p = then_secret (trim_space req.client_secret) (fill_endpoints (oidc_fields req p))

  -- The fields of a request for SAML.
  abbrev pub saml_fields : ProviderRequest → AuthProvider → AuthProvider
  saml_fields req p = record p {
    type = type_generic;
    idp_metadata_url = trim_space req.idp_metadata_url;
    idp_metadata_xml = req.idp_metadata_xml;
    idp_entity_id = trim_space req.idp_entity_id;
    idp_sso_url = trim_space req.idp_sso_url;
    idp_cert = trim_space req.idp_cert;
    sign_requests = req.sign_requests;
    name_id_format = req.name_id_format;
    email_attribute = req.email_attribute;
    name_attribute = req.name_attribute;
    groups_attribute = req.groups_attribute;
  }

  abbrev or_field : String → String → String
  or_field own other = if own == "" then other else own

  abbrev with_metadata : AuthProvider → Result String Metadata → Result String AuthProvider
  with_metadata p (err e) = err e
  with_metadata p (ok md) = ok (record p {
    idp_entity_id = or_field p.idp_entity_id md.entity_id;
    idp_sso_url = or_field p.idp_sso_url md.sso_url;
    idp_cert = or_field p.idp_cert md.cert;
  })

  unfoldable pub read_metadata : AuthProvider → Result String AuthProvider
  read_metadata p =
      if p.idp_metadata_url == "" && p.idp_metadata_xml == ""
      then ok p
      else with_metadata p (h.parse_metadata p.idp_metadata_url p.idp_metadata_xml)

  abbrev pub with_keypair :
      AuthProvider → String → Result String String → Result String AuthProvider
  with_keypair p cert (err e) = err e
  with_keypair p cert (ok enc) = ok (record p { sp_cert = cert; sp_key = enc })

  abbrev pub encrypt_keypair :
      AuthProvider → Cipher → Result String (String × String) → Result String AuthProvider
  encrypt_keypair p c (err e) = err e
  encrypt_keypair p c (ok pair) = with_keypair p pair.0 (c.encrypt pair.1)

  abbrev pub keypair_with : AuthProvider → String → Option Cipher → Result String AuthProvider
  keypair_with p msg none = err msg
  keypair_with p msg (some c) =
      encrypt_keypair p c (h.generate_keypair (saml_metadata_url h.public_url p.org_id p.slug))

  -- A new pair of keys, if one of the two is missing.
  unfoldable pub fresh_keypair : String → AuthProvider → Result String AuthProvider
  fresh_keypair msg p =
      if p.sp_cert == "" || p.sp_key == "" then keypair_with p msg h.cipher else ok p

  abbrev then_keypair : Result String AuthProvider → Result String AuthProvider
  then_keypair (err e) = err e
  then_keypair (ok p) = fresh_keypair no_key p

  unfoldable pub apply_saml : ProviderRequest → AuthProvider → Result String AuthProvider
  unfolding read_metadata fresh_keypair
  apply_saml req p = then_keypair (read_metadata (saml_fields req p))

  -- The fields that every kind of provider has.
  abbrev pub common_fields : ProviderRequest → AuthProvider → AuthProvider
  common_fields req p = record p {
    kind = req.kind;
    display_name = trim_space req.display_name;
    enabled = req.enabled;
    allow_sign_up = req.allow_sign_up;
    allowed_domains = trim_space req.allowed_domains;
    default_role = req.default_role;
  }

  unfoldable pub apply : ProviderRequest → AuthProvider → Result String AuthProvider
  unfolding apply_oidc apply_saml
  apply req p =
      if req.kind == kind_oidc
      then apply_oidc req (common_fields req p)
      else if req.kind == kind_saml
      then apply_saml req (common_fields req p)
      else err ("unknown provider kind " ++ h.quote req.kind)
