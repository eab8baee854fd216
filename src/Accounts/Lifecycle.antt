-- ===== src/Accounts/Lifecycle.antt =====
-- The life of an API key: it works once its token is created, and no longer once the token is
-- revoked or the account is deleted.
use uigraph_api.Prelude.{
  ℕ, String, Bool, true, false, Option, none, some, List, [], ◌∷◌, ◌≡◌, ◌≢◌, refl, ◌==◌, eq_refl,
  arith, any, find, Option-cases, ◌≤◌, inl, inr, subst, sym, ap, ◌∙◌,
}
use uigraph_api.Http.{json, no_content}
use uigraph_api.Db.{Db, ServiceAccount, Token}
use uigraph_api.Exec.{World, ok, ◌>>=◌}
use uigraph_api.Store.Tables.{update_where, insert, find-update_where}
use uigraph_api.Store.Accounts as Rows
use uigraph_api.Store.Accounts.{is_live, token_clashes}
use uigraph_api.Identity.Token.{prefix}
use uigraph_api.Identity.Principal.{Principal}
use uigraph_api.Middleware.{is_expired, account_principal, verify_api_key}
use uigraph_api.Middleware.Authenticated.{verify_api_key_sound, verify_api_key_complete}
use uigraph_api.Accounts.{
  CreateTokenRequest, CreatedToken, expiry, create_token, revoke_token, delete,
}

abbrev set_revoked : Token → Token
set_revoked t = record t { revoked = true }

abbrev set_deleted : ℕ → ServiceAccount → ServiceAccount
set_deleted now sa = record sa { deleted_at = some now }

revoke_token_rows :
    (id : String) (w : World)
    → (revoke_token id w).0 ≡ ok no_content
    → (revoke_token id w).1.db.tokens ≡ update_where (λ t. t.id == id) set_revoked w.db.tokens
unfolding revoke_token Rows.revoke_token ◌>>=◌
revoke_token_rows id w h = ground arith

-- A key is refused once the token that its prefix finds was revoked.
pub revoked_is_refused :
    (hash : String → String) (key : String) (w : World) (tok : Token) (p : Principal)
    → find (λ t. t.prefix == prefix key) w.db.tokens ≡ some tok
    → (revoke_token tok.id w).0 ≡ ok no_content
    → (verify_api_key hash key (revoke_token tok.id w).1).0 ≢ ok p
revoked_is_refused hash key w tok p found done accepted =
    let k = verify_api_key_sound hash key (revoke_token tok.id w).1 p accepted in
    let q : Token → Bool = λ t. t.prefix == prefix key in
    let listed : find q (update_where (λ t. t.id == tok.id) set_revoked w.db.tokens)
        ≡ some k.token =
      rw (← revoke_token_rows tok.id w done) k.listed in
    let changed = find-update_where (λ t. t.id == tok.id) q set_revoked w.db.tokens (λ _. refl) in
    let current : k.token.revoked ≡ false = k.current.0 in
    ground (arith, listed, changed, current, eq_refl tok.id)

delete_rows :
    (id : String) (w : World)
    → (delete id w).0 ≡ ok no_content
    → (delete id w).1.db.accounts
      ≡ update_where (λ sa. sa.id == id) (set_deleted w.now) w.db.accounts
unfolding delete Rows.get_service_account Rows.delete_service_account ◌>>=◌
delete_rows id w h = ground arith

delete_tokens : (id : String) (w : World) → (delete id w).1.db.tokens ≡ w.db.tokens
unfolding delete Rows.get_service_account Rows.delete_service_account ◌>>=◌
delete_tokens id w = ground arith

none_live :
    (id : String) (now : ℕ) (rows : List ServiceAccount)
    → find (is_live id) (update_where (λ sa. sa.id == id) (set_deleted now) rows) ≡ none
unfolding update_where
none_live id now [] = refl
none_live id now (a ∷ rows) = ground (arith, none_live id now rows)

-- Every key of an account is refused once the account was deleted, whatever its tokens say.
pub deleted_is_refused :
    (hash : String → String) (key : String) (w : World) (tok : Token) (p : Principal)
    → find (λ t. t.prefix == prefix key) w.db.tokens ≡ some tok
    → (delete tok.service_account_id w).0 ≡ ok no_content
    → (verify_api_key hash key (delete tok.service_account_id w).1).0 ≢ ok p
deleted_is_refused hash key w tok p found done accepted =
    let id : String = tok.service_account_id in
    let k = verify_api_key_sound hash key (delete id w).1 p accepted in
    let again : find (λ t. t.prefix == prefix key) w.db.tokens ≡ some k.token =
      sym (ap (find (λ t. t.prefix == prefix key)) (delete_tokens id w)) ∙ k.listed in
    let same : k.token ≡ tok = ground (arith, again, found) in
    let owned : find (is_live k.token.service_account_id) (delete id w).1.db.accounts
        ≡ some k.account =
      k.owned in
    let owned' : find (is_live id) (delete id w).1.db.accounts ≡ some k.account =
      subst
        (λ (t : Token).
          find (is_live t.service_account_id) (delete id w).1.db.accounts ≡ some k.account)
        same owned in
    cc (none_live id w.now w.db.accounts, owned', delete_rows id w done)

-- The row that CreateToken writes.
abbrev token_row : (String → String) → String → String → String → Option ℕ → String → Token
token_row hash id sa_id name expires_at plaintext = record {
  id = id;
  service_account_id = sa_id;
  name = name;
  prefix = prefix plaintext;
  hash = hash plaintext;
  expires_at = expires_at;
  last_used_at = none;
  revoked = false;
}

find-insert :
    (t : Token) (rows : List Token)
    → any (token_clashes t) rows ≡ false
    → find (λ r. r.prefix == t.prefix) (insert t rows) ≡ some t
find-insert t [] h = ground (arith, eq_refl t.prefix)
find-insert t (r ∷ rows) h = ground (arith, find-insert t rows)

module _ (hash : String → String) (parse_time : String → Option ℕ) where
  create_token_rows :
      (id sa_id : String) (random : Option String) (body : Option CreateTokenRequest) (w : World)
      (c : CreatedToken)
      → (create_token hash parse_time id random sa_id body w).0 ≡ ok (json 201 c)
      → (req : CreateTokenRequest) × (t : Token) × (body ≡ some req)
        × (expiry parse_time req.expires_at ≡ some t.expires_at)
        × (t.hash ≡ hash c.token)
        × (t.prefix ≡ prefix c.token)
        × (t.service_account_id ≡ sa_id)
        × (t.revoked ≡ false)
        × (find
              (λ r. r.prefix == t.prefix)
              (create_token hash parse_time id random sa_id body w).1.db.tokens
            ≡ some t)
  unfolding create_token Rows.create_token ◌>>=◌
  create_token_rows id sa_id (some random) (some req) w c h =
      elim (Option-cases (expiry parse_time req.expires_at)) [
        | inl bad ↦ absurd (ground arith)
        | inr (date, good) ↦
            let t : Token = token_row hash id sa_id req.name date c.token in
            (req, t, refl, good, refl, refl, refl, refl, ground (arith, find-insert t w.db.tokens))
      ]
  create_token_rows id sa_id none body w c h = absurd (ground arith)
  create_token_rows id sa_id random none w c h = absurd (ground arith)

unexpired :
    (now : ℕ) (date : Option ℕ) → ((d : ℕ) → date ≡ some d → now ≤ d) → is_expired now date ≡ false
unexpired now none h = refl
unexpired now (some d) h = ground (arith, h d refl)

-- What CreateToken returned is accepted as an API key, while the database answers, the token has
-- not expired and its account is neither deleted nor disabled: it acts as that account.
pub created_is_accepted :
    (hash : String → String) (parse_time : String → Option ℕ) (id sa_id : String)
    (random : Option String) (body : Option CreateTokenRequest) (w w' : World) (c : CreatedToken)
    (sa : ServiceAccount)
    → (create_token hash parse_time id random sa_id body w).0 ≡ ok (json 201 c)
    → w'.db ≡ (create_token hash parse_time id random sa_id body w).1.db
    → ((n : ℕ) → w'.fails n ≡ false)
    → ((req : CreateTokenRequest) (date : ℕ)
        → body ≡ some req
        → expiry parse_time req.expires_at ≡ some (some date)
        → w'.now ≤ date)
    → find (is_live sa_id) w'.db.accounts ≡ some sa
    → sa.disabled ≡ false
    → (verify_api_key hash c.token w').0 ≡ ok (account_principal sa)
created_is_accepted hash parse_time id sa_id random body w w' c sa made same answers later owned
      on =
    let (req, t, given, date, hashed, named, of, live, listed) =
      create_token_rows hash parse_time id sa_id random body w c made in
    verify_api_key_complete hash c.token w' (account_principal sa)
      (record {
        token = t;
        account = sa;
        listed =
            subst (λ s. find (λ x. x.prefix == s) w'.db.tokens ≡ some t) named
              (ap (λ (db : Db). find (λ x. x.prefix == t.prefix) db.tokens) same ∙ listed);
        hashed = sym hashed;
        current =
            (live, unexpired w'.now t.expires_at (λ d e. later req d given (date ∙ ap some e)));
        owned = subst (λ i. find (is_live i) w'.db.accounts ≡ some sa) (sym of) owned;
        enabled = on;
        principal = refl;
        kind = refl;
        org = refl;
        scopes = refl;
      })
      answers
