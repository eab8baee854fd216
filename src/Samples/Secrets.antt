-- ===== src/Samples/Secrets.antt =====
-- The update of a provider that sends back what a response has shown.
use uigraph_api.Prelude.{true, false, some}
use uigraph_api.Authz.Scope.{role_viewer}
use uigraph_api.Exec.{World}
use uigraph_api.Store.Providers as Rows
use uigraph_api.Providers.{ProviderRequest}
use uigraph_api.Providers.Handlers.{update_provider}
use uigraph_api.Samples.Providers.{settings, world}

abbrev shown_back : ProviderRequest
shown_back = record {
  slug = "acme";
  kind = "oidc";
  type = "generic";
  display_name = "Acme";
  enabled = true;
  allow_sign_up = false;
  allowed_domains = "";
  default_role = role_viewer;
  client_id = "c1";
  client_secret = "***";
  auth_url = "https://a";
  token_url = "https://t";
  userinfo_url = "https://u";
  api_url = "";
  scopes = "";
  email_claim = "";
  name_claim = "";
  sub_claim = "";
  groups_claim = "";
  idp_metadata_url = "";
  idp_metadata_xml = "";
  idp_entity_id = "";
  idp_sso_url = "";
  idp_cert = "";
  sign_requests = false;
  name_id_format = "";
  email_attribute = "";
  name_attribute = "";
  groups_attribute = "";
}

abbrev updated : World
updated = (update_provider settings "o1" "acme" (some shown_back) world).1
