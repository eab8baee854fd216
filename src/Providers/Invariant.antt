-- ===== src/Providers/Invariant.antt =====
-- What every sequence of requests keeps of the providers and of their role mappings.
use uigraph_api.Prelude.{
  ◌+◌, String, Option, none, some, ◌≡◌, refl, find, Bool-cases, Option-cases, inl, inr,
}
use uigraph_api.Http.{Reply}
use uigraph_api.Db.{AuthProvider, Rule}
use uigraph_api.Exec.{Exec, Result, ok, err, attempt, ◌>>=◌, ◌>>◌}
use uigraph_api.Exec.Rules.{
  Maintains, maintains_rules, Maintains-bind, Maintains-attempt, Maintains-after_stop,
}
use uigraph_api.Identity.Provider.{ProviderError, validate}
use uigraph_api.Rolemap.{RuleError, Compile, validate_rule}
use uigraph_api.Store.Tables.{find-holds}
use uigraph_api.Store.Providers as Store
use uigraph_api.Store.Providers.{has_slug}
use uigraph_api.Providers.{Backend, ProviderRequest, ProviderView, load}
use uigraph_api.Providers.Handlers as Handlers
use uigraph_api.Providers.Handlers.{
  or_bad_request, or_invalid, ensure_sp_keypair, keypair_message, save_keypair,
}
use uigraph_api.Providers.Mappings as Mappings
use uigraph_api.Providers.Mappings.{RoleMappingRequest, rule_of}
use uigraph_api.Providers.Valid.{
  IsValidProvider, IsSound, create_auth_provider-IsSound, update_auth_provider-IsSound,
  delete_auth_provider-IsSound, set_auth_provider_icon-IsSound, create_role_mapping-IsSound,
  update_role_mapping-IsSound, delete_role_mapping-IsSound,
}

module _ (h : Backend) (compile : Compile) where
  abbrev pub Keeps : {E A : Type 0} → Exec E A → Type 0
  Keeps m = Maintains (IsSound compile) m

  -- What follows the lookup may rest on the checks that its provider passes.
  pub loaded :
      {A B : Type 0} (org_id slug : String) (next : AuthProvider → Exec (Reply B) A)
      → ((p : AuthProvider) → IsValidProvider p → Keeps (next p))
      → Keeps (attempt (load org_id slug) >>= next)
  unfolding load Store.get_auth_provider_by_slug ◌>>=◌
  loaded org_id slug next k = record {
    at = λ w s. elim (Bool-cases (w.fails w.calls)) [
      | inl failed ↦ rw failed s
      | inr fine ↦ elim (Option-cases (find (has_slug org_id slug) w.db.providers)) [
        | inl missing ↦ rw (fine, missing) s
        | inr (p, found) ↦
            rw (fine, found)
              ((k p
                  (find-holds IsValidProvider (has_slug org_id slug) w.db.providers p found
                    s.providers).0).at
                (record w { calls = w.calls + 1 }) s)
      ]
    ];
  }

  or_bad_request-Keeps : {A B : Type 0} (r : Result String A) → Keeps (or_bad_request {B = B} r)
  or_bad_request-Keeps (ok a) = search maintains_rules
  or_bad_request-Keeps (err e) = search maintains_rules

  -- What follows the check of a provider, or of a rule, may rest on it.
  checked :
      {A : Type 0} (p : AuthProvider) (o : Option ProviderError) (m : Exec (Reply ProviderView) A)
      → (o ≡ none → Keeps m)
      → Keeps (or_invalid h p o >> m)
  checked p none m k = Maintains-bind _ (λ _. k refl) _ (search maintains_rules)
  checked p (some e) m k = Maintains-after_stop _ _

  checked_rule :
      {A : Type 0} (r : Rule) (o : Option RuleError) (m : Exec (Reply Rule) A)
      → (o ≡ none → Keeps m)
      → Keeps (Mappings.or_invalid h compile r o >> m)
  checked_rule r none m k = Maintains-bind _ (λ _. k refl) _ (search maintains_rules)
  checked_rule r (some e) m k = Maintains-after_stop _ _

  pub create_provider-Keeps :
      (id org_id : String) (body : Option ProviderRequest)
      → Keeps (Handlers.create_provider h id org_id body)
  unfolding Handlers.create_provider
  create_provider-Keeps id org_id body =
      Maintains-bind _
        (λ req.
          Maintains-bind _
            (λ p. checked p (validate p) _ λ valid.
              Maintains-bind _ (λ _. search maintains_rules) _
                (Maintains-attempt _ (create_auth_provider-IsSound compile p valid)))
            _ (or_bad_request-Keeps _))
        _ (search maintains_rules)

  pub update_provider-Keeps :
      (org_id slug : String) (body : Option ProviderRequest)
      → Keeps (Handlers.update_provider h org_id slug body)
  unfolding Handlers.update_provider
  update_provider-Keeps org_id slug body = loaded org_id slug _ λ old _.
      Maintains-bind _
        (λ req.
          Maintains-bind _
            (λ _.
              Maintains-bind _
                (λ p. checked p (validate p) _ λ valid.
                  Maintains-bind _ (λ _. search maintains_rules) _
                    (Maintains-attempt _ (update_auth_provider-IsSound compile p valid)))
                _ (or_bad_request-Keeps _))
            _ (search maintains_rules))
        _ (search maintains_rules)

  pub delete_provider-Keeps :
      (org_id slug : String) → Keeps (Handlers.delete_provider h org_id slug)
  unfolding Handlers.delete_provider
  delete_provider-Keeps org_id slug =
      loaded org_id slug _ λ p _. search (maintains_rules, delete_auth_provider-IsSound)

  pub put_icon-Keeps : (org_id slug : String) → Keeps (Handlers.put_provider_icon h org_id slug)
  unfolding Handlers.put_provider_icon
  put_icon-Keeps org_id slug =
      loaded org_id slug _ λ p _. search (maintains_rules, set_auth_provider_icon-IsSound)

  pub delete_icon-Keeps :
      (org_id slug : String) → Keeps (Handlers.delete_provider_icon h org_id slug)
  unfolding Handlers.delete_provider_icon
  delete_icon-Keeps org_id slug =
      loaded org_id slug _ λ p _. search (maintains_rules, set_auth_provider_icon-IsSound)

  pub delete_mapping-Keeps :
      (org_id slug id : String) → Keeps (Mappings.delete_role_mapping org_id slug id)
  unfolding Mappings.delete_role_mapping
  delete_mapping-Keeps org_id slug id =
      loaded org_id slug _ λ p _. search (maintains_rules, delete_role_mapping-IsSound)

  pub create_mapping-Keeps :
      (id org_id slug : String) (body : Option RoleMappingRequest)
      → Keeps (Mappings.create_role_mapping h compile id org_id slug body)
  unfolding Mappings.create_role_mapping
  create_mapping-Keeps id org_id slug body = loaded org_id slug _ λ p _.
      Maintains-bind _
        (λ req.
          checked_rule (rule_of id p req) (validate_rule compile (rule_of id p req)) _ λ valid.
            Maintains-bind _ (λ _. search maintains_rules) _
              (Maintains-attempt _ (create_role_mapping-IsSound compile _ valid)))
        _ (search maintains_rules)

  pub update_mapping-Keeps :
      (org_id slug id : String) (body : Option RoleMappingRequest)
      → Keeps (Mappings.update_role_mapping h compile org_id slug id body)
  unfolding Mappings.update_role_mapping
  update_mapping-Keeps org_id slug id body = loaded org_id slug _ λ p _.
      Maintains-bind _
        (λ req.
          checked_rule (rule_of id p req) (validate_rule compile (rule_of id p req)) _ λ valid.
            Maintains-bind _ (λ _. search maintains_rules) _
              (Maintains-attempt _ (update_role_mapping-IsSound compile _ valid)))
        _ (search maintains_rules)
