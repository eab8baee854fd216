-- ===== src/Providers/Valid.antt =====
-- The providers and the rules of the tables pass the checks of the code.
use uigraph_api.Prelude.{String, none, ◌==◌, ◌≡◌, All, arith, Option}
use uigraph_api.Db.{Db, AuthProvider, Rule}
use uigraph_api.Exec.Rules.{Maintains, Maintains-exec, Maintains-insert_if, Maintains-statement}
use uigraph_api.Identity.Provider.{validate}
use uigraph_api.Rolemap.{Compile, validate_rule}
use uigraph_api.Store.Tables.{All-insert, All-update_where, All-delete_where, delete_where}
use uigraph_api.Store.Providers.{
  is_provider, is_mapping, updated_provider, updated_mapping, drop_provider, create_auth_provider,
  update_auth_provider, delete_auth_provider, set_auth_provider_icon, create_role_mapping,
  update_role_mapping, delete_role_mapping,
}

abbrev pub IsValidProvider : AuthProvider → Type 0
IsValidProvider p = validate p ≡ none

validate-updated :
    (p row : AuthProvider)
    → IsValidProvider p
    → IsValidProvider row
    → IsValidProvider (updated_provider p row)
unfolding validate
validate-updated p row h k = ground arith

pub validate-keypair :
    (p : AuthProvider) (cert key : String)
    → IsValidProvider p
    → IsValidProvider (record p { sp_cert = cert; sp_key = key })
unfolding validate
validate-keypair p cert key h = h

validate-icon :
    (p : AuthProvider) (asset_id : String)
    → IsValidProvider p
    → IsValidProvider (record p { icon_asset_id = asset_id })
unfolding validate
validate-icon p asset_id h = h

module _ (compile : Compile) where
  abbrev pub IsValidRule : Rule → Type 0
  IsValidRule r = validate_rule compile r ≡ none

  pub record IsSound (db : Db) : Type 0 where
    pub providers : All IsValidProvider db.providers
    pub rules : All IsValidRule db.rules

  validate-updated_mapping : (r row : Rule) → IsValidRule r → IsValidRule (updated_mapping r row)
  unfolding validate_rule
  validate-updated_mapping r row h = h

  pub create_auth_provider-IsSound :
      (p : AuthProvider) → IsValidProvider p → Maintains IsSound (create_auth_provider p)
  unfolding create_auth_provider
  create_auth_provider-IsSound p v = Maintains-statement _ _ λ db _ _ s. record {
    providers = All-insert IsValidProvider p db.providers v s.providers;
    rules = s.rules;
  }

  pub update_auth_provider-IsSound :
      (p : AuthProvider) → IsValidProvider p → Maintains IsSound (update_auth_provider p)
  unfolding update_auth_provider
  update_auth_provider-IsSound p v = Maintains-statement _ _ λ db _ _ s. record {
    providers =
        All-update_where IsValidProvider (is_provider p.org_id p.id) (updated_provider p)
          db.providers (λ row _ k. validate-updated p row v k) s.providers;
    rules = s.rules;
  }

  drop_provider-IsSound :
      (org_id id : String) (db : Db) → IsSound db → IsSound (drop_provider org_id id db)
  drop_provider-IsSound org_id id db s =
      let dropped : IsSound (record db {
        providers = delete_where (is_provider org_id id) db.providers;
        rules = delete_where (λ r. r.provider_id == id) db.rules;
        login_states = delete_where (λ l. l.provider_id == id) db.login_states;
      }) =
        record {
          providers =
              All-delete_where IsValidProvider (is_provider org_id id) db.providers s.providers;
          rules = All-delete_where IsValidRule (λ r. r.provider_id == id) db.rules s.rules;
        } in
      ground (arith, s, dropped)

  pub delete_auth_provider-IsSound :
      (org_id id : String) → Maintains IsSound (delete_auth_provider org_id id)
  unfolding delete_auth_provider
  delete_auth_provider-IsSound org_id id = Maintains-exec _ (drop_provider-IsSound org_id id)

  pub set_auth_provider_icon-IsSound :
      (org_id id : String) (asset_id : Option String)
      → Maintains IsSound (set_auth_provider_icon org_id id asset_id)
  unfolding set_auth_provider_icon
  set_auth_provider_icon-IsSound org_id id asset_id = Maintains-exec _ λ db s. record {
    providers =
        All-update_where IsValidProvider (is_provider org_id id) _ db.providers
          (λ p _ v. validate-icon p _ v) s.providers;
    rules = s.rules;
  }

  pub create_role_mapping-IsSound :
      (r : Rule) → IsValidRule r → Maintains IsSound (create_role_mapping r)
  unfolding create_role_mapping
  create_role_mapping-IsSound r v = Maintains-insert_if _ _ λ db _ s. record {
    providers = s.providers;
    rules = All-insert IsValidRule r db.rules v s.rules;
  }

  pub update_role_mapping-IsSound :
      (r : Rule) → IsValidRule r → Maintains IsSound (update_role_mapping r)
  unfolding update_role_mapping
  update_role_mapping-IsSound r v = Maintains-statement _ _ λ db _ _ s. record {
    providers = s.providers;
    rules =
        All-update_where IsValidRule (is_mapping r.provider_id r.id) (updated_mapping r) db.rules
          (λ row _ _. validate-updated_mapping r row v) s.rules;
  }

  pub delete_role_mapping-IsSound :
      (provider_id id : String) → Maintains IsSound (delete_role_mapping provider_id id)
  unfolding delete_role_mapping
  delete_role_mapping-IsSound provider_id id = Maintains-exec _ λ db s. record {
    providers = s.providers;
    rules = All-delete_where IsValidRule (is_mapping provider_id id) db.rules s.rules;
  }
