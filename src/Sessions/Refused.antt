-- ===== src/Sessions/Refused.antt =====
-- The requests that Login refuses.
use uigraph_api.Prelude.{
  String, true, false, ◌||◌, Option, none, some, ◌≡◌, ◌≢◌, ◌==◌, ◌↔◌, ◌⊎◌, refl, arith, find, inl,
  inr, Option-cases,
}
use uigraph_api.Http.{
  Error, not_found, conflict, invalid_dependency, team_not_found, service_name_exists,
  membership_not_found, forbidden, database, error_reply, unauthorized_reply,
}
use uigraph_api.Db.{User, Session}
use uigraph_api.Exec.{World, err, Result-cases, ◌>>=◌}
use uigraph_api.Exec.Steps.{called}
use uigraph_api.Store.Sessions.{create_session}
use uigraph_api.Store.Users.{get_user_by_email}
use uigraph_api.Sessions.{SessionBackend, Client, new_session}
use uigraph_api.Sessions.Password.{
  LoginRequest, LoginResponse, Fresh, start_session, check_password, login,
}

module _ (h : SessionBackend) where
  -- A user who must not get in with the password, and why the reply does not tell.
  abbrev pub IsWrong : String → User → Type 0
  IsWrong password u =
      ((u.password_hash == "") ≡ true)
      ⊎ ((u.disabled ≡ false) × (h.password_matches u.password_hash password ≡ false))

  check_password_iff :
      (password : String) (found : Option User) (w : World)
      → ((check_password h password found w).0 ≡ err unauthorized_reply)
        ↔ ((found ≡ none) ⊎ ((u : User) × (found ≡ some u) × IsWrong password u))
  unfolding check_password ◌>>=◌
  check_password_iff password none w = (λ e. inl refl, λ k. refl)
  check_password_iff password (some u) w = ground arith

  error_reply-not : (x : Error) → error_reply {A = LoginResponse} x ≢ unauthorized_reply
  unfolding error_reply
  error_reply-not not_found e = absurd (ground arith)
  error_reply-not conflict e = absurd (ground arith)
  error_reply-not invalid_dependency e = absurd (ground arith)
  error_reply-not team_not_found e = absurd (ground arith)
  error_reply-not service_name_exists e = absurd (ground arith)
  error_reply-not membership_not_found e = absurd (ground arith)
  error_reply-not forbidden e = absurd (ground arith)
  error_reply-not database e = absurd (ground arith)

  start_session-not :
      (fresh : Fresh) (client : Client) (user_id auth_provider : String) (w : World)
      → (start_session h {A = LoginResponse} fresh client user_id auth_provider w).0
        ≢ err unauthorized_reply
  unfolding start_session ◌>>=◌
  start_session-not fresh client user_id auth_provider w e = elim (Option-cases fresh.token) [
    | inl missing ↦ error_reply-not database (ground arith)
    | inr (plaintext, random) ↦
        let s : Session =
          new_session fresh.id user_id (h.hash plaintext) client w.now auth_provider in
        elim (Result-cases (create_session s w).0) [
          | inl (t, done) ↦ absurd (ground (arith, done))
          | inr (x, failed) ↦ error_reply-not x (ground (arith, failed))
        ]
  ]

  -- Login on a request with an address and a password, while its first call of the database
  -- answers: the reply is 401 exactly if no user has the address, the user has no password, or the
  -- user is not disabled and the password is another one. These cases give the same reply.
  pub login-unauthorized :
      (fresh : Fresh) (client : Client) (req : LoginRequest) (w : World)
      → (req.email == "" || req.password == "") ≡ false
      → w.fails w.calls ≡ false
      → ((login h fresh client (some req) w).0 ≡ err unauthorized_reply) ↔ (
          (find (λ u. u.email == req.email) w.db.users ≡ none)
          ⊎ ((u : User) × (find (λ u. u.email == req.email) w.db.users ≡ some u)
              × IsWrong req.password u))
  unfolding login get_user_by_email ◌>>=◌
  login-unauthorized fresh client req w filled answers =
      let found : Option User = find (λ u. u.email == req.email) w.db.users in
      let same : ((check_password h req.password found (called w)).0 ≡ err unauthorized_reply)
          ↔ ((found ≡ none) ⊎ ((u : User) × (found ≡ some u) × IsWrong req.password u)) =
        check_password_iff req.password found (called w) in
      elim (Result-cases (check_password h req.password found (called w)).0) [
        | inl (u, passed) ↦
            let after : World = (check_password h req.password found (called w)).1 in
            elim (Result-cases (start_session h {A = LoginResponse} fresh client u.id "" after).0) [
              | inl (session, started) ↦ (
                λ e. absurd (ground (arith, filled, answers, passed, started)),
                λ k. absurd (ground (arith, passed, same.1 k)),
              )
              | inr (x, failed) ↦ (
                λ e. absurd (
                    start_session-not fresh client u.id "" after
                      (ground (arith, filled, answers, passed, failed))),
                λ k. absurd (ground (arith, passed, same.1 k)),
              )
            ]
        | inr (x, refused) ↦ (
          λ e. same.0 (ground (arith, filled, answers, refused)),
          λ k. ground (arith, filled, answers, refused, same.1 k),
        )
      ]
