-- ===== src/Providers/Handlers.antt =====
-- internal/api/auth/authprovider.go: the handlers for the identity providers of an organisation.
use Prim.Native.String.{◌++◌}
use uigraph_api.Prelude.{
  String, false, not, ◌&&◌, Option, none, some, List, ◌==◌, map, if◌then◌else◌,
}
use uigraph_api.Http.{Error, Reply, json, no_content, bad_request}
use uigraph_api.Db.{AuthProvider}
use uigraph_api.Exec.{
  Exec, Result, ok, err, pure, stop, stop_if, lift, require, attempt, ◌>>=◌, ◌>>◌,
}
use uigraph_api.Identity.Provider.{ProviderError, kind_saml, validate}
use uigraph_api.Store.Providers as Store
use uigraph_api.Providers.{
  Cipher, SamlProvider, Backend, ProviderRequest, ProviderView, saml_metadata_url, acs_url, present,
  load, unexpected,
}
use uigraph_api.Providers.Apply.{apply, fresh_keypair}

-- The row of a new provider before the request is applied to it.
abbrev pub blank : String → String → String → AuthProvider
blank id org_id slug = record {
  id = id;
  slug = slug;
  org_id = org_id;
  kind = "";
  type = "";
  display_name = "";
  icon_asset_id = "";
  enabled = false;
  allow_sign_up = false;
  allowed_domains = "";
  default_role = "";
  client_id = "";
  client_secret = "";
  auth_url = "";
  token_url = "";
  userinfo_url = "";
  api_url = "";
  scopes = "";
  email_claim = "";
  name_claim = "";
  sub_claim = "";
  groups_claim = "";
  idp_metadata_url = "";
  idp_metadata_xml = "";
  idp_entity_id = "";
  idp_sso_url = "";
  idp_cert = "";
  sp_cert = "";
  sp_key = "";
  sign_requests = false;
  name_id_format = "";
  email_attribute = "";
  name_attribute = "";
  groups_attribute = "";
}

abbrev pub or_bad_request : {A B : Type 0} → Result String A → Exec (Reply B) A
or_bad_request (ok a) = pure a
or_bad_request (err msg) = stop (bad_request msg)

-- The body of SAMLMetadata's response.
pub record MetadataView : Type 0 where
  pub entity_id : String
  pub acs_url : String
  pub metadata_url : String
  pub metadata : String

-- samlProviderFor
unfoldable pub saml_provider_for : AuthProvider → String → String → SamlProvider
saml_provider_for p public_url sp_key = record {
  idp_entity_id = p.idp_entity_id;
  idp_sso_url = p.idp_sso_url;
  idp_cert = p.idp_cert;
  sp_entity_id = saml_metadata_url public_url p.org_id p.slug;
  sp_cert = p.sp_cert;
  sp_key = sp_key;
  sign_requests = p.sign_requests;
  name_id_format = p.name_id_format;
}

abbrev decrypt_with : Option Cipher → String → Result String String
decrypt_with none ciphertext = err "no secret key is configured, provider secrets cannot be read"
decrypt_with (some c) ciphertext = c.decrypt ciphertext

-- storage.AuthProviderIconAssetID and storage.AssetKey
unfoldable pub icon_asset_id : String → String
icon_asset_id provider_id = "authprovider_" ++ provider_id

unfoldable pub asset_key : String → String
asset_key asset_id = "assets/" ++ asset_id

abbrev pub keypair_message : String
keypair_message = "no secret key is configured, an SP keypair cannot be generated"

module _ (h : Backend) where
  unfoldable pub list_providers :
      String → Exec (Reply (List ProviderView)) (Reply (List ProviderView))
  list_providers org_id = do
    providers ← attempt (Store.list_auth_providers h.locale org_id)
    pure (json 200 (map (present h) providers))

  unfoldable pub get_provider : String → String → Exec (Reply ProviderView) (Reply ProviderView)
  get_provider org_id slug = do p ← attempt (load org_id slug); pure (json 200 (present h p))

  abbrev pub or_invalid : AuthProvider → Option ProviderError → Exec (Reply ProviderView) (Unit {0})
  or_invalid p none = pure tt
  or_invalid p (some e) = stop (bad_request (h.provider_message e p))

  unfoldable pub create_provider :
      String → String → Option ProviderRequest → Exec (Reply ProviderView) (Reply ProviderView)
  create_provider new_id org_id body = do
    req ← require body (bad_request "invalid JSON")
    p ← or_bad_request (apply h req (blank new_id org_id req.slug))
    or_invalid p (validate p)
    attempt (Store.create_auth_provider p)
    pure (json 201 (present h p))

  unfoldable pub update_provider :
      String → String → Option ProviderRequest → Exec (Reply ProviderView) (Reply ProviderView)
  update_provider org_id slug body = do
    old ← attempt (load org_id slug)
    req ← require body (bad_request "invalid JSON")
    stop_if (not (req.slug == old.slug))
        (bad_request "slug cannot be changed after the provider is created")
    p ← or_bad_request (apply h req old)
    or_invalid p (validate p)
    attempt (Store.update_auth_provider p)
    pure (json 200 (present h p))

  unfoldable pub delete_provider : String → String → Exec (Reply ProviderView) (Reply ProviderView)
  delete_provider org_id slug = do
    p ← attempt (load org_id slug)
    attempt (Store.delete_auth_provider p.org_id p.id)
    pure no_content

  -- The asset, and the address to upload it to.
  unfoldable pub prepare_provider_icon_upload :
      String → String → Exec (Reply (String × String)) (Reply (String × String))
  prepare_provider_icon_upload org_id slug = do
    p ← attempt (load org_id slug)
    url ← attempt (lift (unexpected (h.presign (asset_key (icon_asset_id p.id)))))
    pure (json 200 (icon_asset_id p.id, url))

  unfoldable pub put_provider_icon : String → String → Exec (Reply String) (Reply String)
  put_provider_icon org_id slug = do
    p ← attempt (load org_id slug)
    attempt (Store.set_auth_provider_icon p.org_id p.id (some (icon_asset_id p.id)))
    pure (json 200 (icon_asset_id p.id))

  -- The error of the storage's deletion is dropped, and the database does not see the call.
  unfoldable pub delete_provider_icon : String → String → Exec (Reply String) (Reply String)
  delete_provider_icon org_id slug = do
    p ← attempt (load org_id slug)
    attempt (Store.set_auth_provider_icon p.org_id p.id none)
    pure no_content

  abbrev pub save_keypair : Result String AuthProvider → Exec Error AuthProvider
  save_keypair (err e) = lift (unexpected (err e))
  save_keypair (ok p) = do Store.update_auth_provider p; pure p

  unfoldable pub ensure_sp_keypair : AuthProvider → Exec Error AuthProvider
  ensure_sp_keypair p =
      if not (p.sp_cert == "") && not (p.sp_key == "")
      then pure p
      else save_keypair (fresh_keypair h keypair_message p)

  unfoldable pub decrypt : String → Result String String
  decrypt ciphertext = if ciphertext == "" then ok "" else decrypt_with h.cipher ciphertext

  unfoldable pub saml_metadata : String → String → Exec (Reply MetadataView) (Reply MetadataView)
  saml_metadata org_id slug = do
    old ← attempt (load org_id slug)
    stop_if (not (old.kind == kind_saml)) (bad_request "provider is not a SAML provider")
    p ← attempt (ensure_sp_keypair old)
    key ← attempt (lift (unexpected (decrypt p.sp_key)))
    let acs = acs_url h.public_url p.org_id p.slug
    let metadata_url = saml_metadata_url h.public_url p.org_id p.slug
    doc ← attempt (
        lift (
          unexpected (h.metadata_document (saml_provider_for p h.public_url key) acs metadata_url)))
    pure (
        json 200 (record {
          entity_id = metadata_url;
          acs_url = acs;
          metadata_url = metadata_url;
          metadata = doc;
        }))
