-- ===== src/Providers.antt =====
-- internal/api/auth/authprovider.go: what a request makes of an identity provider, and what a
-- response shows of it. The cipher, the keys and the metadata of SAML, the storage and the wording
-- of the messages that print a value are parameters.
pub mod Apply
pub mod Handlers
pub mod Mappings
pub mod Domains
pub mod Masked
pub mod Secrets
pub mod Valid
pub mod Invariant
pub mod Keypairs
pub mod Requests
pub mod Roles
pub mod Single
use Prim.Native.String.{◌++◌}
use uigraph_api.Prelude.{
  String, Bool, true, false, not, ◌&&◌, ◌||◌, Option, none, some, ◌==◌, if◌then◌else◌,
}
use uigraph_api.Prelude.Text.{trim_space}
use uigraph_api.Http.{Error, not_found, database, Reply, bad_request, error_reply}
use uigraph_api.Authz.Scope.{Role}
use uigraph_api.Db.{AuthProvider, Rule}
use uigraph_api.Exec.{Exec, Result, ok, err, pure, lift, attempt, ◌>>=◌}
use uigraph_api.Identity.Provider.{
  ProviderError, kind_oidc, kind_saml, type_generic, type_entra, type_okta,
}
use uigraph_api.Rolemap.{RuleError}
use uigraph_api.Store.Ordered.{Locale}
use uigraph_api.Store.Providers.{get_auth_provider_by_slug}

-- crypto.Cipher; an error is its text.
pub record Cipher : Type 0 where
  pub encrypt : String → Result String String
  pub decrypt : String → Result String String

-- saml.Metadata
pub record Metadata : Type 0 where
  pub entity_id : String
  pub sso_url : String
  pub cert : String

-- saml.Provider
pub record SamlProvider : Type 0 where
  pub idp_entity_id : String
  pub idp_sso_url : String
  pub idp_cert : String
  pub sp_entity_id : String
  pub sp_cert : String
  pub sp_key : String
  pub sign_requests : Bool
  pub name_id_format : String

-- What the handler is built with, and what it calls outside of the modelled code. `quote` is the
-- verb `%q`; `cipher` is nil without a secret key, `assets` without a storage.
pub record Backend : Type 0 where
  pub cipher : Option Cipher
  pub public_url : String
  pub locale : Locale
  pub assets : Option (String → Result String String)
  pub presign : String → Result String String
  pub parse_metadata : String → String → Result String Metadata
  pub generate_keypair : String → Result String (String × String)
  pub metadata_document : SamlProvider → String → String → Result String String
  pub quote : String → String
  pub provider_message : ProviderError → AuthProvider → String
  pub rule_message : RuleError → Rule → String

-- authProviderRequest
pub record ProviderRequest : Type 0 where
  pub slug : String
  pub kind : String
  pub type : String
  pub display_name : String
  pub enabled : Bool
  pub allow_sign_up : Bool
  pub allowed_domains : String
  pub default_role : Role
  pub client_id : String
  pub client_secret : String
  pub auth_url : String
  pub token_url : String
  pub userinfo_url : String
  pub api_url : String
  pub scopes : String
  pub email_claim : String
  pub name_claim : String
  pub sub_claim : String
  pub groups_claim : String
  pub idp_metadata_url : String
  pub idp_metadata_xml : String
  pub idp_entity_id : String
  pub idp_sso_url : String
  pub idp_cert : String
  pub sign_requests : Bool
  pub name_id_format : String
  pub email_attribute : String
  pub name_attribute : String
  pub groups_attribute : String

abbrev pub secret_mask : String
secret_mask = "***"

unfoldable pub saml_metadata_url : String → String → String → String
saml_metadata_url public_url org_id slug =
    public_url ++ ("/api/v1/auth/orgs/" ++ (org_id ++ ("/saml/" ++ (slug ++ "/metadata"))))

unfoldable pub acs_url : String → String → String → String
acs_url public_url org_id slug =
    public_url ++ ("/api/v1/auth/orgs/" ++ (org_id ++ ("/saml/" ++ (slug ++ "/acs"))))

-- identity.AuthProvider as a response shows it, with the two fields that are not stored.
pub record ProviderView : Type 0 where
  pub provider : AuthProvider
  pub sp_entity_id : String
  pub icon_url : String

abbrev pub mask : String → String
mask s = if not (s == "") then secret_mask else s

-- An error of the resolver leaves the address empty.
abbrev or_empty : Result String String → String
or_empty (ok url) = url
or_empty (err e) = ""

abbrev icon_of : Option (String → Result String String) → String → String
icon_of none asset_id = ""
icon_of (some find_url) asset_id = if asset_id == "" then "" else or_empty (find_url asset_id)

module _ (h : Backend) where
  unfoldable pub present : AuthProvider → ProviderView
  present p = record {
    provider = record p { client_secret = mask p.client_secret; sp_key = mask p.sp_key };
    sp_entity_id =
        if p.kind == kind_saml then saml_metadata_url h.public_url p.org_id p.slug else "";
    icon_url = icon_of h.assets p.icon_asset_id;
  }

-- `load`
abbrev pub or_not_found : Option AuthProvider → Exec Error AuthProvider
or_not_found none = lift (err not_found)
or_not_found (some p) = pure p

unfoldable pub load : String → String → Exec Error AuthProvider
load org_id slug = do p ← get_auth_provider_by_slug org_id slug; or_not_found p

-- An error of the calls outside is no error of the store.
abbrev pub unexpected : {A : Type 0} → Result String A → Result Error A
unexpected (ok a) = ok a
unexpected (err e) = err database
