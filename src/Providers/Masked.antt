-- ===== src/Providers/Masked.antt =====
-- The providers that the responses show, with their secrets masked.
use uigraph_api.Prelude.{String, List, [], ◌∷◌, ◌≡◌, ◌⊎◌, arith, eq_iff, inl, inr, map, All}
use uigraph_api.Http.{Reply, json, no_content, api_error, redirect, refused}
use uigraph_api.Db.{AuthProvider}
use uigraph_api.Exec.{World, Exec, Result, ok, err, pure, Result-cases, ◌>>=◌}
use uigraph_api.Providers.{Backend, ProviderView, mask, present}
use uigraph_api.Providers.Handlers.{
  list_providers, get_provider, create_provider, update_provider, delete_provider,
}
use uigraph_api.Providers.Requests.{
  ProviderCall, to_list, to_get, to_create, to_update, to_delete, to_prepare_icon, to_put_icon,
  to_delete_icon, to_read_metadata, to_list_mappings, to_create_mapping, to_update_mapping,
  to_delete_mapping,
}

abbrev pub IsHidden : String → Type 0
IsHidden s = (s ≡ "") ⊎ (s ≡ "***")

pub record IsMasked (v : ProviderView) : Type 0 where
  pub secret : IsHidden v.provider.client_secret
  pub key : IsHidden v.provider.sp_key

-- What a reply at the end of a handler shows.
abbrev pub Shows : {A : Type 0} → (A → Type 0) → Result (Reply A) (Reply A) → Type 0
Shows P (ok (json status a)) = P a
Shows P (ok no_content) = Unit
Shows P (ok (api_error status code msg)) = Unit
Shows P (ok (redirect url)) = Unit
Shows P (ok (refused status msg)) = Unit
Shows P (err e) = Unit

module _ {A B : Type 0} (P : A → Type 0) where
  bind-Shows :
      (m : Exec (Reply A) B) (k : B → Exec (Reply A) (Reply A))
      → ((b : B) (w : World) → Shows P (k b w).0)
      → (w : World) → Shows P ((m >>= k) w).0
  unfolding ◌>>=◌
  bind-Shows m k h w = elim (Result-cases (m w).0) [
    | inl (b, done) ↦ rw done (h b (m w).1)
    | inr (e, failed) ↦ rw failed tt
  ]

mask-shown : (s : String) → IsHidden (mask s)
mask-shown s = ground (arith, eq_iff s "")

module _ (h : Backend) where
  present-IsMasked : (p : AuthProvider) → IsMasked (present h p)
  unfolding present
  present-IsMasked p = record { secret = mask-shown p.client_secret; key = mask-shown p.sp_key }

  all_present : (ps : List AuthProvider) → All IsMasked (map (present h) ps)
  all_present [] = tt
  all_present (p ∷ ps) = (present-IsMasked p, all_present ps)

  pure-Shows :
      {A : Type 0} (P : A → Type 0) (status : _) (a : A) (w : World)
      → P a
      → Shows P (pure {E = Reply A} (json status a) w).0
  unfolding ◌>>=◌
  pure-Shows P status a w p = p

  -- The providers that a request is answered with have their secrets masked.
  abbrev pub Masks : World → ProviderCall → Type 0
  Masks w (to_list org) = Shows (All IsMasked) (list_providers h org w).0
  Masks w (to_get org slug) = Shows IsMasked (get_provider h org slug w).0
  Masks w (to_create id org body) = Shows IsMasked (create_provider h id org body w).0
  Masks w (to_update org slug body) = Shows IsMasked (update_provider h org slug body w).0
  Masks w (to_delete org slug) = Shows IsMasked (delete_provider h org slug w).0
  Masks w (to_prepare_icon org slug) = Unit
  Masks w (to_put_icon org slug) = Unit
  Masks w (to_delete_icon org slug) = Unit
  Masks w (to_read_metadata org slug) = Unit
  Masks w (to_list_mappings org slug) = Unit
  Masks w (to_create_mapping id org slug body) = Unit
  Masks w (to_update_mapping org slug id body) = Unit
  Masks w (to_delete_mapping org slug id) = Unit

  nothing_shown : (w : World) → Shows IsMasked (pure {E = Reply ProviderView} no_content w).0
  unfolding ◌>>=◌
  nothing_shown w = tt

  delete_provider-Shows :
      (org slug : String) (w : World) → Shows IsMasked (delete_provider h org slug w).0
  unfolding delete_provider
  delete_provider-Shows org slug =
      bind-Shows IsMasked _ _ λ p. bind-Shows IsMasked _ _ λ _. nothing_shown

  pub masked : (w : World) (c : ProviderCall) → Masks w c
  unfolding list_providers get_provider create_provider update_provider
  masked w (to_list org) =
      bind-Shows (All IsMasked) _ _ (λ ps v. pure-Shows (All IsMasked) 200 _ v (all_present ps)) w
  masked w (to_get org slug) =
      bind-Shows IsMasked _ _ (λ p v. pure-Shows IsMasked 200 _ v (present-IsMasked p)) w
  masked w (to_create id org body) =
      bind-Shows IsMasked _ _
        (λ req. bind-Shows IsMasked _ _ λ p.
          bind-Shows IsMasked _ _
            λ _. bind-Shows IsMasked _ _ λ _ v. pure-Shows IsMasked 201 _ v (present-IsMasked p))
        w
  masked w (to_update org slug body) =
      bind-Shows IsMasked _ _
        (λ old. bind-Shows IsMasked _ _ λ req. bind-Shows IsMasked _ _ λ _.
          bind-Shows IsMasked _ _ λ p.
            bind-Shows IsMasked _ _
              λ _. bind-Shows IsMasked _ _ λ _ v. pure-Shows IsMasked 200 _ v (present-IsMasked p))
        w
  masked w (to_delete org slug) = delete_provider-Shows org slug w
  masked w (to_prepare_icon org slug) = tt
  masked w (to_put_icon org slug) = tt
  masked w (to_delete_icon org slug) = tt
  masked w (to_read_metadata org slug) = tt
  masked w (to_list_mappings org slug) = tt
  masked w (to_create_mapping id org slug body) = tt
  masked w (to_update_mapping org slug id body) = tt
  masked w (to_delete_mapping org slug id) = tt
