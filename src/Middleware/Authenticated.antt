-- ===== src/Middleware/Authenticated.antt =====
-- What holds of a request that is let through.
use uigraph_api.Prelude.{
  ◌+◌, ℕ, String, true, false, some, ◌≡◌, ◌==◌, eq_iff, ap, arith, find, inl, inr, Option-cases,
  ◌<◌, ◌⊎◌,
}
use uigraph_api.Db.{Session, ServiceAccount, Token}
use uigraph_api.Exec.{World, ok, ◌>>=◌}
use uigraph_api.Store.Accounts.{is_live, get_token_by_prefix, touch_token, get_service_account}
use uigraph_api.Store.Sessions.{accepts, get_session_by_token}
use uigraph_api.Store.Tables.{find-test}
use uigraph_api.Store.Users.{get_user}
use uigraph_api.Identity.Token.{prefix, verify}
use uigraph_api.Identity.Token.Verified.{verify_iff}
use uigraph_api.Identity.Principal.{Principal, user, service_account}
use uigraph_api.Middleware.{
  is_expired, account_principal, check_token, verify_api_key, session_principal, verify_bearer,
}

module _ (hash : String → String) where
  -- The rows that an API key rests on: the token that its prefix finds, and the token's account.
  pub record IsKeyOf (key : String) (w : World) (p : Principal) : Type 0 where
    pub token : Token
    pub account : ServiceAccount
    pub listed : find (λ t. t.prefix == prefix key) w.db.tokens ≡ some token
    pub hashed : hash key ≡ token.hash
    pub current : (token.revoked ≡ false) × (is_expired w.now token.expires_at ≡ false)
    pub owned : find (is_live token.service_account_id) w.db.accounts ≡ some account
    pub enabled : account.disabled ≡ false
    pub principal : p ≡ account_principal account
    pub kind : p.kind ≡ service_account
    pub org : p.org_id ≡ account.org_id
    pub scopes : p.scopes ≡ account.scopes

  check_token_sound :
      (key : String) (w : World) (tok : Token) (p : Principal)
      → (check_token hash key (some tok) w).0 ≡ ok p
      → (sa : ServiceAccount) × (verify hash key tok.hash ≡ true)
        × (tok.revoked ≡ false)
        × (is_expired w.now tok.expires_at ≡ false)
        × (find (is_live tok.service_account_id) w.db.accounts ≡ some sa)
        × (sa.disabled ≡ false)
        × (p ≡ account_principal sa)
  unfolding check_token touch_token get_service_account ◌>>=◌
  check_token_sound key w tok p h =
      elim (Option-cases (find (is_live tok.service_account_id) w.db.accounts)) [
        | inl missing ↦ absurd (ground arith)
        | inr (sa, found) ↦
            (sa, ground arith, ground arith, ground arith, found, ground arith, ground arith)
      ]

  -- A key is accepted only if the token that its prefix finds has its hash, is not revoked and has
  -- not expired, and the account of that token is neither deleted nor disabled; the principal has
  -- the organisation and the scopes of that account.
  pub verify_api_key_sound :
      (key : String) (w : World) (p : Principal)
      → (verify_api_key hash key w).0 ≡ ok p
      → IsKeyOf key w p
  unfolding verify_api_key get_token_by_prefix ◌>>=◌
  verify_api_key_sound key w p h =
      elim (Option-cases (find (λ t. t.prefix == prefix key) w.db.tokens)) [
        | inl missing ↦ absurd (unfold check_token in ground arith)
        | inr (tok, found) ↦
            let (sa, verified, live, fresh, owned, enabled, same) =
              check_token_sound key (record w { calls = w.calls + 1 }) tok p (ground arith) in
            record {
              token = tok;
              account = sa;
              listed = found;
              hashed = (verify_iff hash key tok.hash).0 verified;
              current = (live, fresh);
              owned = owned;
              enabled = enabled;
              principal = same;
              kind = ap (λ (q : Principal). q.kind) same;
              org = ap (λ (q : Principal). q.org_id) same;
              scopes = ap (λ (q : Principal). q.scopes) same;
            }
      ]

  check_token_complete :
      (key : String) (w : World) (tok : Token) (sa : ServiceAccount)
      → verify hash key tok.hash ≡ true
      → (tok.revoked ≡ false) × (is_expired w.now tok.expires_at ≡ false)
      → find (is_live tok.service_account_id) w.db.accounts ≡ some sa
      → sa.disabled ≡ false
      → w.fails (w.calls + 1) ≡ false
      → (check_token hash key (some tok) w).0 ≡ ok (account_principal sa)
  unfolding check_token touch_token get_service_account ◌>>=◌
  check_token_complete key w tok sa v c o e a = ground arith

  -- A key whose token has its hash, is not revoked and has not expired, of an account that is
  -- neither deleted nor disabled, is accepted for the principal of that account while the database
  -- answers.
  pub verify_api_key_complete :
      (key : String) (w : World) (p : Principal)
      → IsKeyOf key w p
      → ((n : ℕ) → w.fails n ≡ false)
      → (verify_api_key hash key w).0 ≡ ok p
  unfolding verify_api_key get_token_by_prefix ◌>>=◌
  verify_api_key_complete key w p k answers =
      let w' : World = record w { calls = w.calls + 1 } in
      ground (
        arith,
        answers w.calls,
        k.principal,
        k.listed,
        check_token_complete key w' k.token k.account
            ((verify_iff hash key k.token.hash).1 k.hashed) k.current k.owned k.enabled
            (answers (w.calls + 1 + 1)),
      )

  accepts_sound :
      (now : ℕ) (h : String) (s : Session)
      → accepts now h s ≡ true
      → ((h ≡ s.token_hash) ⊎ ((h ≡ s.prev_token_hash) × (s.auth_token_seen ≡ false)))
        × (now < s.expires_at)
  unfolding accepts
  accepts_sound now h s a =
      (ground (arith, eq_iff s.token_hash h, eq_iff s.prev_token_hash h), ground arith)

  session_principal_sound :
      (w : World) (s : Session) (p : Principal)
      → (session_principal hash (some s) w).0 ≡ ok p
      → (p.kind ≡ user) × (p.user_id ≡ s.user_id)
  unfolding session_principal get_user ◌>>=◌
  session_principal_sound w s p h = ground arith

  -- A bearer token is accepted only if a session accepts its hash: the hash is the session's
  -- current one, or its previous one while the new token has not been seen, and the session has
  -- not expired. The principal is the session's user.
  pub verify_bearer_sound :
      (token : String) (w : World) (p : Principal)
      → (verify_bearer hash token w).0 ≡ ok p
      → (s : Session) × (find (accepts w.now (hash token)) w.db.sessions ≡ some s)
        × ((hash token ≡ s.token_hash)
            ⊎ ((hash token ≡ s.prev_token_hash) × (s.auth_token_seen ≡ false)))
        × (w.now < s.expires_at)
        × (p.kind ≡ user)
        × (p.user_id ≡ s.user_id)
  unfolding verify_bearer get_session_by_token ◌>>=◌
  verify_bearer_sound token w p h =
      elim (Option-cases (find (accepts w.now (hash token)) w.db.sessions)) [
        | inl missing ↦ absurd (unfold session_principal in ground arith)
        | inr (s, found) ↦
            let (right, fresh) =
              accepts_sound w.now (hash token) s
                (find-test (accepts w.now (hash token)) w.db.sessions s found) in
            let (kind, same) =
              session_principal_sound (record w { calls = w.calls + 1 }) s p (ground arith) in
            (s, found, right, fresh, kind, same)
      ]
