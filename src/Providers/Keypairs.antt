-- ===== src/Providers/Keypairs.antt =====
-- SAMLMetadata, a read that may store a new pair of keys.
use uigraph_api.Prelude.{
  String, Option, none, some, ◌≡◌, ◌==◌, ◌||◌, ◌&&◌, not, subst, refl, arith, Bool-cases, inl, inr,
}
use uigraph_api.Db.{AuthProvider}
use uigraph_api.Exec.{Result, ok, err, pure}
use uigraph_api.Exec.Rules.{maintains_rules, Maintains-bind, Maintains-if}
use uigraph_api.Rolemap.{Compile}
use uigraph_api.Providers.{Cipher, Backend}
use uigraph_api.Providers.Apply.{with_keypair, encrypt_keypair, keypair_with, fresh_keypair}
use uigraph_api.Providers.Handlers as Handlers
use uigraph_api.Providers.Handlers.{
  or_bad_request, or_invalid, ensure_sp_keypair, keypair_message, save_keypair,
}
use uigraph_api.Providers.Valid.{IsValidProvider, validate-keypair, update_auth_provider-IsSound}
use uigraph_api.Providers.Invariant.{Keeps, loaded}

module _ (h : Backend) (compile : Compile) where
  -- A pair of keys leaves what the checks read alone.
  abbrev Yields : Result String AuthProvider → Type 0
  Yields r = (q : AuthProvider) → r ≡ ok q → IsValidProvider q

  ok-Yields : (p : AuthProvider) → IsValidProvider p → Yields (ok p)
  ok-Yields p v q e = subst IsValidProvider (ground arith) v

  err-Yields : (msg : String) → Yields (err msg)
  err-Yields msg q e = absurd (ground arith)

  with_keypair-Yields :
      (p : AuthProvider) (cert : String) (r : Result String String)
      → IsValidProvider p
      → Yields (with_keypair h p cert r)
  with_keypair-Yields p cert (err e) v = err-Yields e
  with_keypair-Yields p cert (ok enc) v = ok-Yields _ (validate-keypair p cert enc v)

  encrypt_keypair-Yields :
      (p : AuthProvider) (c : Cipher) (r : Result String (String × String))
      → IsValidProvider p
      → Yields (encrypt_keypair h p c r)
  encrypt_keypair-Yields p c (err e) v = err-Yields e
  encrypt_keypair-Yields p c (ok pair) v = with_keypair-Yields p pair.0 (c.encrypt pair.1) v

  keypair_with-Yields :
      (p : AuthProvider) (msg : String) (c : Option Cipher)
      → IsValidProvider p
      → Yields (keypair_with h p msg c)
  keypair_with-Yields p msg none v = err-Yields msg
  keypair_with-Yields p msg (some c) v = encrypt_keypair-Yields p c _ v

  fresh_keypair-Yields :
      (msg : String) (p : AuthProvider) → IsValidProvider p → Yields (fresh_keypair h msg p)
  unfolding fresh_keypair
  fresh_keypair-Yields msg p v = elim (Bool-cases (p.sp_cert == "" || p.sp_key == "")) [
    | inl t ↦ rw t (keypair_with-Yields p msg h.cipher v)
    | inr f ↦ rw f (ok-Yields p v)
  ]

  save_keypair-Keeps :
      (r : Result String AuthProvider)
      → ((q : AuthProvider) → r ≡ ok q → IsValidProvider q)
      → Keeps h compile (save_keypair h r)
  save_keypair-Keeps (err e) v = search maintains_rules
  save_keypair-Keeps (ok p) v =
      Maintains-bind _ (λ _. search maintains_rules) _
        (update_auth_provider-IsSound compile p (v p refl))

  ensure_sp_keypair-Keeps :
      (p : AuthProvider) → IsValidProvider p → Keeps h compile (ensure_sp_keypair h p)
  unfolding ensure_sp_keypair
  ensure_sp_keypair-Keeps p v =
      Maintains-if (pure p) (search maintains_rules) _
        (save_keypair-Keeps (fresh_keypair h keypair_message p)
          (fresh_keypair-Yields keypair_message p v))
        (not (p.sp_cert == "") && not (p.sp_key == ""))

  pub saml_metadata-Keeps :
      (org_id slug : String) → Keeps h compile (Handlers.saml_metadata h org_id slug)
  unfolding Handlers.saml_metadata
  saml_metadata-Keeps org_id slug =
      loaded h compile org_id slug _
        λ p v. search (maintains_rules, ensure_sp_keypair-Keeps) depth 20
