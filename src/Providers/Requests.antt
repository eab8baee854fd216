-- ===== src/Providers/Requests.antt =====
-- Any sequence of requests to the handlers for identity providers and their role mappings.
use uigraph_api.Prelude.{String, Option, List, [], ◌∷◌}
use uigraph_api.Exec.{World}
use uigraph_api.Exec.Rules.{maintains_rules}
use uigraph_api.Rolemap.{Compile}
use uigraph_api.Store.Providers as Store
use uigraph_api.Providers.{Backend, ProviderRequest}
use uigraph_api.Providers.Handlers as Handlers
use uigraph_api.Providers.Mappings as Mappings
use uigraph_api.Providers.Mappings.{RoleMappingRequest}
use uigraph_api.Providers.Valid.{IsSound}
use uigraph_api.Providers.Invariant.{
  Keeps, loaded, create_provider-Keeps, update_provider-Keeps, delete_provider-Keeps,
  put_icon-Keeps, delete_icon-Keeps, create_mapping-Keeps, update_mapping-Keeps,
  delete_mapping-Keeps,
}
use uigraph_api.Providers.Keypairs.{saml_metadata-Keeps}

-- A request, with the fresh id that it may need.
pub data ProviderCall : Type 0 where
  to_list : String → ProviderCall
  to_get : String → String → ProviderCall
  to_create : String → String → Option ProviderRequest → ProviderCall
  to_update : String → String → Option ProviderRequest → ProviderCall
  to_delete : String → String → ProviderCall
  to_prepare_icon : String → String → ProviderCall
  to_put_icon : String → String → ProviderCall
  to_delete_icon : String → String → ProviderCall
  to_read_metadata : String → String → ProviderCall
  to_list_mappings : String → String → ProviderCall
  to_create_mapping : String → String → String → Option RoleMappingRequest → ProviderCall
  to_update_mapping : String → String → String → Option RoleMappingRequest → ProviderCall
  to_delete_mapping : String → String → String → ProviderCall

module _ (h : Backend) (compile : Compile) where
  -- The world after a request.
  pub serve : World → ProviderCall → World
  serve w (to_list org) = (Handlers.list_providers h org w).1
  serve w (to_get org slug) = (Handlers.get_provider h org slug w).1
  serve w (to_create id org body) = (Handlers.create_provider h id org body w).1
  serve w (to_update org slug body) = (Handlers.update_provider h org slug body w).1
  serve w (to_delete org slug) = (Handlers.delete_provider h org slug w).1
  serve w (to_prepare_icon org slug) = (Handlers.prepare_provider_icon_upload h org slug w).1
  serve w (to_put_icon org slug) = (Handlers.put_provider_icon h org slug w).1
  serve w (to_delete_icon org slug) = (Handlers.delete_provider_icon h org slug w).1
  serve w (to_read_metadata org slug) = (Handlers.saml_metadata h org slug w).1
  serve w (to_list_mappings org slug) = (Mappings.list_role_mappings org slug w).1
  serve w (to_create_mapping id org slug body) =
      (Mappings.create_role_mapping h compile id org slug body w).1
  serve w (to_update_mapping org slug id body) =
      (Mappings.update_role_mapping h compile org slug id body w).1
  serve w (to_delete_mapping org slug id) = (Mappings.delete_role_mapping org slug id w).1

  pub serve_all : World → List ProviderCall → World
  serve_all w [] = w
  serve_all w (c ∷ cs) = serve_all (serve w c) cs

  list-Keeps : (org : String) → Keeps h compile (Handlers.list_providers h org)
  unfolding Handlers.list_providers Store.list_auth_providers
  list-Keeps org = search maintains_rules

  get-Keeps : (org slug : String) → Keeps h compile (Handlers.get_provider h org slug)
  unfolding Handlers.get_provider
  get-Keeps org slug = loaded h compile org slug _ λ p _. search maintains_rules

  prepare-Keeps :
      (org slug : String) → Keeps h compile (Handlers.prepare_provider_icon_upload h org slug)
  unfolding Handlers.prepare_provider_icon_upload
  prepare-Keeps org slug = loaded h compile org slug _ λ p _. search maintains_rules

  list_mappings-Keeps : (org slug : String) → Keeps h compile (Mappings.list_role_mappings org slug)
  unfolding Mappings.list_role_mappings Store.list_role_mappings
  list_mappings-Keeps org slug = loaded h compile org slug _ λ p _. search maintains_rules

  serve-IsSound :
      (w : World) (c : ProviderCall) → IsSound compile w.db → IsSound compile (serve w c).db
  unfolding serve
  serve-IsSound w (to_list org) = (list-Keeps org).at w
  serve-IsSound w (to_get org slug) = (get-Keeps org slug).at w
  serve-IsSound w (to_create id org body) = (create_provider-Keeps h compile id org body).at w
  serve-IsSound w (to_update org slug body) = (update_provider-Keeps h compile org slug body).at w
  serve-IsSound w (to_delete org slug) = (delete_provider-Keeps h compile org slug).at w
  serve-IsSound w (to_prepare_icon org slug) = (prepare-Keeps org slug).at w
  serve-IsSound w (to_put_icon org slug) = (put_icon-Keeps h compile org slug).at w
  serve-IsSound w (to_delete_icon org slug) = (delete_icon-Keeps h compile org slug).at w
  serve-IsSound w (to_read_metadata org slug) = (saml_metadata-Keeps h compile org slug).at w
  serve-IsSound w (to_list_mappings org slug) = (list_mappings-Keeps org slug).at w
  serve-IsSound w (to_create_mapping id org slug body) =
      (create_mapping-Keeps h compile id org slug body).at w
  serve-IsSound w (to_update_mapping org slug id body) =
      (update_mapping-Keeps h compile org slug id body).at w
  serve-IsSound w (to_delete_mapping org slug id) =
      (delete_mapping-Keeps h compile org slug id).at w

  -- From a database whose providers pass Validate and whose role mappings pass ValidateRule: over
  -- any sequence of requests to the handlers for providers and role mappings, valid or not, and
  -- whichever database calls fail, every provider passes Validate and every mapping ValidateRule.
  pub provider_calls-IsSound :
      (w : World) (cs : List ProviderCall)
      → IsSound compile w.db
      → IsSound compile (serve_all w cs).db
  unfolding serve_all
  provider_calls-IsSound w [] s = s
  provider_calls-IsSound w (c ∷ cs) s = provider_calls-IsSound (serve w c) cs (serve-IsSound w c s)
