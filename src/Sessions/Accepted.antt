-- ===== src/Sessions/Accepted.antt =====
-- The requests that the token of a sign-in makes.
use uigraph_api.Prelude.{
  ℕ, ◌+◌, ◌<◌, String, true, false, Option, some, List, [], ◌∷◌, ◌≡◌, ◌==◌, refl, ap, ◌∙◌, arith,
  any, find, eq_refl,
}
use uigraph_api.Http.{json}
use uigraph_api.Db.{User, Session}
use uigraph_api.Exec.{World, ok, ◌>>=◌}
use uigraph_api.Exec.Steps.{called}
use uigraph_api.Store.Tables.{insert}
use uigraph_api.Store.Sessions.{accepts, get_session_by_token}
use uigraph_api.Identity.Principal.{Principal, user}
use uigraph_api.Middleware.{session_principal, verify_bearer}
use uigraph_api.Sessions.{SessionBackend, Client, Cookie, session_lifetime}
use uigraph_api.Sessions.Password.{LoginRequest, LoginResponse, Fresh, login}
use uigraph_api.Sessions.Started.{IsStarted, IsSignIn, login_ok}

-- No session that the table has before accepts the hash of a new token.
find-insert :
    (t : ℕ) (hash : String) (row : Session) (rows : List Session)
    → any (λ s. s.token_hash == hash) rows ≡ false
    → any (λ s. s.prev_token_hash == hash) rows ≡ false
    → accepts t hash row ≡ true
    → find (accepts t hash) (insert row rows) ≡ some row
unfolding accepts
find-insert t hash row [] new unseen a = ground (arith, a)
find-insert t hash row (s ∷ rows) new unseen a = ground (arith, find-insert t hash row rows, a)

module _ (hash : String → String) where
  session_principal-some :
      (s : Session) (w : World)
      → (p : Principal) × ((session_principal hash (some s) w).0 ≡ ok p)
        × (p.kind ≡ user)
        × (p.user_id ≡ s.user_id)
  unfolding session_principal ◌>>=◌
  session_principal-some s w = (_, refl, refl, refl)

  -- The token of a session that has started is accepted until the session expires.
  pub started_accepted :
      (user_id token : String) (now : ℕ) (before after : List Session) (later : World)
      → IsStarted hash user_id token now before after
      → any (λ s. s.prev_token_hash == hash token) before ≡ false
      → later.db.sessions ≡ after
      → later.now < now + session_lifetime
      → ((n : ℕ) → later.fails n ≡ false)
      → (p : Principal) × ((verify_bearer hash token later).0 ≡ ok p)
        × (p.kind ≡ user)
        × (p.user_id ≡ user_id)
  unfolding verify_bearer get_session_by_token ◌>>=◌
  started_accepted user_id token now before after later s unseen kept soon answers =
      let a : accepts later.now (hash token) s.row ≡ true =
        unfold accepts in
        ground
          (arith, ap (λ x. x == hash token) s.hashed ∙ eq_refl (hash token), s.expires, soon) in
      let found : find (accepts later.now (hash token)) later.db.sessions ≡ some s.row =
        rw (kept, s.inserted) (find-insert later.now (hash token) s.row before s.unused unseen a) in
      let (p, done, kind, same) = session_principal-some s.row (called later) in
      (p, ground (arith, answers later.calls, found, done), kind, same ∙ s.owner)

module _ (h : SessionBackend) where
  -- Login answers with a token only if the request names the address of a user who has a password,
  -- is not disabled, and whose password is the one that was sent. From then on, while the sessions
  -- stay as Login left them and the database answers, the token is accepted until thirty days after
  -- the sign-in, for that user, if no session before had the hash of the token as its previous one.
  pub login-verify_bearer :
      (fresh : Fresh) (client : Client) (body : Option LoginRequest) (w later : World)
      (r : LoginResponse) (c : Cookie)
      → (login h fresh client body w).0 ≡ ok (json 200 r, c)
      → any (λ s. s.prev_token_hash == h.hash r.token) w.db.sessions ≡ false
      → later.db.sessions ≡ (login h fresh client body w).1.db.sessions
      → later.now < w.now + session_lifetime
      → ((n : ℕ) → later.fails n ≡ false)
      → (u : User) × IsSignIn h w body u
        × (p : Principal) × ((verify_bearer h.hash r.token later).0 ≡ ok p)
        × (p.kind ≡ user)
        × (p.user_id ≡ u.id)
  login-verify_bearer fresh client body w later r c e unseen kept soon answers =
      let (u, sign_in, started) = login_ok h fresh client body w r c e in
      let (p, accepted, kind, same) =
        started_accepted h.hash u.id r.token w.now w.db.sessions _ later started unseen kept soon
          answers in
      (u, sign_in, p, accepted, kind, same)
