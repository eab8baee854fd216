-- ===== src/Providers/Domains.antt =====
-- internal/api/auth/authprovider.go: the handlers for the e-mail domain of an organisation.
use uigraph_api.Prelude.{Char, String, Option, List, ltb, length}
use uigraph_api.Http.{Reply, json, no_content, api_error, bad_request}
use uigraph_api.Db.{OrgDomain}
use uigraph_api.Exec.{Exec, pure, stop_if, require, attempt, ◌>>=◌, ◌>>◌}
use uigraph_api.Identity.Provider.{normalize_org_domain}
use uigraph_api.Store.Ordered.{Locale}
use uigraph_api.Store.Domains as Store

-- `lower` is `unicode.ToLower`; the body of a request is its only field.
module _ (locale : Locale) (lower : Char → Char) where
  unfoldable pub list_domains : String → Exec (Reply (List OrgDomain)) (Reply (List OrgDomain))
  list_domains org_id = do
    domains ← attempt (Store.list_org_domains locale org_id)
    pure (json 200 domains)

  unfoldable pub create_domain :
      String → String → Option String → Exec (Reply OrgDomain) (Reply OrgDomain)
  create_domain new_id org_id body = do
    value ← require body (bad_request "invalid JSON")
    domain ←
        require (normalize_org_domain lower value) (bad_request "a valid email domain is required")
    domains ← attempt (Store.list_org_domains locale org_id)
    stop_if (ltb 0 (length domains))
        (api_error 409 "conflict" "an organization can currently have only one domain")
    let d : OrgDomain = record { id = new_id; org_id = org_id; domain = domain }
    attempt (Store.create_org_domain locale d)
    pure (json 201 d)

  unfoldable pub update_domain :
      String → String → Option String → Exec (Reply OrgDomain) (Reply OrgDomain)
  update_domain org_id domain_id body = do
    value ← require body (bad_request "invalid JSON")
    domain ←
        require (normalize_org_domain lower value) (bad_request "a valid email domain is required")
    let d : OrgDomain = record { id = domain_id; org_id = org_id; domain = domain }
    attempt (Store.update_org_domain locale d)
    pure (json 200 d)

  unfoldable pub delete_domain : String → String → Exec (Reply OrgDomain) (Reply OrgDomain)
  delete_domain org_id domain_id = do
    attempt (Store.delete_org_domain locale org_id domain_id)
    pure no_content
