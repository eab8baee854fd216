-- ===== src/Sessions/Started.antt =====
-- The session that a sign-in starts, and the requests that its token then makes.
use uigraph_api.Prelude.{
  ℕ, ◌+◌, String, Bool, true, false, not, ◌||◌, Option, none, some, List, [], ◌∷◌, ◌≡◌, ◌==◌, refl,
  subst, ap, sym, ◌∙◌, arith, any, find, inl, inr, Option-cases, Bool-cases,
}
use uigraph_api.Http.{json}
use uigraph_api.Db.{User, Session}
use uigraph_api.Exec.{World, ok, Result-cases, ◌>>=◌}
use uigraph_api.Exec.Steps.{bind_ok, require_ok, stop_if_ok, query_ok, pure_ok, called}
use uigraph_api.Store.Tables.{insert}
use uigraph_api.Store.Sessions.{stored, create_session}
use uigraph_api.Store.Users.{get_user_by_email}
use uigraph_api.Sessions.{SessionBackend, Client, Cookie, new_session, session_lifetime}
use uigraph_api.Sessions.Password.{
  LoginRequest, LoginResponse, Fresh, start_session, check_password, login,
}

-- The table of sessions before and after a session starts.
pub record IsStarted (hash : String → String) (user_id token : String) (now : ℕ)
    (before after : List Session) : Type 0 where
  pub row : Session
  pub inserted : after ≡ insert row before
  pub owner : row.user_id ≡ user_id
  pub hashed : row.token_hash ≡ hash token
  pub expires : row.expires_at ≡ now + session_lifetime
  pub unused : any (λ s. s.token_hash == hash token) before ≡ false

clash_of_hash :
    (id hash : String) (rows : List Session)
    → any (λ row. row.id == id || row.token_hash == hash) rows ≡ false
    → any (λ row. row.token_hash == hash) rows ≡ false
clash_of_hash id hash [] h = refl
clash_of_hash id hash (s ∷ rows) h = ground (arith, clash_of_hash id hash rows)

IsStarted-same :
    (hash : String → String) (user_id : String) (now : ℕ) (before : List Session)
    {token given : String}
    → token ≡ given
    → {w v : World} → v ≡ w
    → IsStarted hash user_id token now before w.db.sessions
    → IsStarted hash user_id given now before v.db.sessions
IsStarted-same hash user_id now before same at s = rw (at, sym same) s

abbrev pub refuses : Session → World → Bool
refuses s w =
    w.fails w.calls
    || (any (λ row. row.id == s.id || row.token_hash == s.token_hash) w.db.sessions
        || not (any (λ u. u.id == s.user_id) w.db.users))

create_session_ok :
    (s : Session) (w : World) (t : Unit {0})
    → (create_session s w).0 ≡ ok t
    → (any (λ row. row.token_hash == s.token_hash) w.db.sessions ≡ false)
      × ((create_session s w).1.db.sessions ≡ insert (stored w.now s) w.db.sessions)
unfolding create_session ◌>>=◌
create_session_ok s w t e = elim (Bool-cases (refuses s w)) [
  | inl refused ↦ absurd (ground arith)
  | inr fine ↦ (clash_of_hash s.id s.token_hash w.db.sessions (ground (arith, fine)), rw fine refl)
]

module _ (h : SessionBackend) where
  pub start_session-IsStarted :
      {A : Type 0} (fresh : Fresh) (client : Client) (user_id auth_provider token : String)
      (expires : ℕ) (w : World)
      → (start_session h {A = A} fresh client user_id auth_provider w).0 ≡ ok (token, expires)
      → IsStarted h.hash user_id token w.now w.db.sessions
          (start_session h {A = A} fresh client user_id auth_provider w).1.db.sessions
  unfolding start_session ◌>>=◌
  start_session-IsStarted {A} fresh client user_id auth_provider token expires w e =
      elim (Option-cases fresh.token) [
        | inl missing ↦ absurd (ground arith)
        | inr (plaintext, random) ↦
            let s : Session =
              new_session fresh.id user_id (h.hash plaintext) client w.now auth_provider in
            elim (Result-cases (create_session s w).0) [
              | inl (t, done) ↦
                  let (unused, inserted) = create_session_ok s w t done in
                  let same : plaintext ≡ token = ground (arith, done) in
                  record {
                    row = stored w.now s;
                    inserted = rw (random, done) inserted;
                    owner = unfold stored in refl;
                    hashed = unfold stored in ap h.hash same;
                    expires = unfold stored in refl;
                    unused =
                        subst (λ t. any (λ s. s.token_hash == h.hash t) w.db.sessions ≡ false) same
                          unused;
                  }
              | inr (x, failed) ↦ absurd (ground (arith, failed))
            ]
      ]

  -- The user whose password Login has checked.
  pub record IsSignIn (w : World) (body : Option LoginRequest) (u : User) : Type 0 where
    pub req : LoginRequest
    pub sent : body ≡ some req
    pub found : find (λ v. v.email == req.email) w.db.users ≡ some u
    pub enabled : u.disabled ≡ false
    pub has_password : (u.password_hash == "") ≡ false
    pub right : h.password_matches u.password_hash req.password ≡ true

  check_password_ok :
      (password : String) (found : Option User) (w : World) (u : User)
      → (check_password h password found w).0 ≡ ok u
      → (found ≡ some u)
        × (u.disabled ≡ false)
        × ((u.password_hash == "") ≡ false)
        × (h.password_matches u.password_hash password ≡ true)
        × ((check_password h password found w).1 ≡ w)
  unfolding check_password ◌>>=◌
  check_password_ok password none w u e = absurd (ground arith)
  check_password_ok password (some v) w u e =
      elim (Bool-cases (
        v.password_hash == "" || v.disabled || not (h.password_matches v.password_hash password))) [
          | inl refused ↦ absurd (ground arith)
          | inr fine ↦
              let same : v ≡ u = ground (arith, fine) in
              (
                ap some same,
                subst (λ v. v.disabled ≡ false) same (ground (arith, fine)),
                subst (λ v. (v.password_hash == "") ≡ false) same (ground (arith, fine)),
                subst (λ v. h.password_matches v.password_hash password ≡ true) same
                    (ground (arith, fine)),
                ground (arith, fine),
              )
        ]

  -- What follows from an answer of Login with a token.
  pub login_ok :
      (fresh : Fresh) (client : Client) (body : Option LoginRequest) (w : World) (r : LoginResponse)
      (c : Cookie)
      → (login h fresh client body w).0 ≡ ok (json 200 r, c)
      → (u : User) × IsSignIn w body u
        × IsStarted h.hash u.id r.token w.now w.db.sessions
            (login h fresh client body w).1.db.sessions
  unfolding login get_user_by_email
  login_ok fresh client body w r c e =
      let (req, sent, e1, same1) = require_ok _ _ _ w _ e in
      let (_, e2, same2) = stop_if_ok _ _ _ w _ e1 in
      let (e3, same3) = query_ok _ _ w _ e2 in
      let (u, checked, e4, same4) = bind_ok _ _ (called w) _ e3 in
      let (found, enabled, has_password, right, still) =
        check_password_ok req.password _ (called w) u checked in
      let (session, started, e5, same5) = bind_ok _ _ _ _ e4 in
      let (answer, same6) = pure_ok _ _ _ e5 in
      let token : session.0 ≡ r.token = ground (arith, answer) in
      let started_here : IsStarted h.hash u.id session.0 w.now w.db.sessions
          (start_session h {A = LoginResponse} fresh client u.id ""
            (check_password h req.password _ (called w)).1).1.db.sessions =
        subst
          (λ v.
            IsStarted h.hash u.id session.0 w.now w.db.sessions
              (start_session h {A = LoginResponse} fresh client u.id "" v).1.db.sessions)
          (sym still)
          (start_session-IsStarted fresh client u.id "" session.0 session.1 (called w) (
            subst (λ v. (start_session h {A = LoginResponse} fresh client u.id "" v).0 ≡ ok session)
              still started)) in
      (
        u,
        record {
          req = req;
          sent = sent;
          found = found;
          enabled = enabled;
          has_password = has_password;
          right = right;
        },
        IsStarted-same h.hash u.id w.now w.db.sessions token
            (same1 ∙ same2 ∙ same3 ∙ same4 ∙ same5 ∙ same6) started_here,
      )
