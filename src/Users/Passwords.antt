-- ===== src/Users/Passwords.antt =====
-- The temporary password of ResetPassword, and the sign-in that it allows.
use uigraph_api.Prelude.{
  ℕ, ◌+◌, String, true, false, ◌||◌, Option, some, List, ◌≡◌, ◌≢◌, refl, ◌==◌, eq_refl, ap, sym,
  ◌∙◌, arith, find, inl, inr, Bool-cases, Option-cases,
}
use uigraph_api.Http.{Error, Reply, json}
use uigraph_api.Db.{Db, User}
use uigraph_api.Exec.{World, ok, err, pure, cache_del, Result, Result-cases, ◌>>=◌, ◌>>◌}
use uigraph_api.Exec.Steps.{called}
use uigraph_api.Store.Tables.{update_where, find-update_where}
use uigraph_api.Store.Users.{updated_user, get_user, get_user_by_email, update_user}
use uigraph_api.Store.Sessions.{create_session}
use uigraph_api.Sessions.{SessionBackend, Client, new_session, set_session, session_lifetime}
use uigraph_api.Sessions.Started.{refuses}
use uigraph_api.Sessions.Password.{Fresh, LoginResponse, check_password, start_session, login}
use uigraph_api.Users.{actor_key, with_temporary, reset_password}

update_user_ok :
    (u : User) (w : World) (t : Unit {0})
    → (update_user u w).0 ≡ ok t
    → (update_user u w).1.db
      ≡ record w.db { users = update_where (λ v. v.id == u.id) (updated_user u) w.db.users }
unfolding update_user ◌>>=◌
update_user_ok u w t e = ground arith

forgotten :
    (key : String) (r : Reply String) (w : World)
    → (((cache_del key >> pure {E = Reply String} r) w).0 ≡ ok r)
      × (((cache_del key >> pure {E = Reply String} r) w).1.db ≡ w.db)
unfolding ◌>>=◌
forgotten key r w = (ground arith, ground arith)

-- The steps of ResetPassword up to the write.
reset_runs :
    (bcrypt : String → Option String) (random : Option String) (user_id : String) (w : World)
    (u : User) (t hash : String) (x : Unit {0})
    → w.fails w.calls ≡ false
    → find (λ v. v.id == user_id) w.db.users ≡ some u
    → random ≡ some t
    → bcrypt t ≡ some hash
    → (update_user (with_temporary hash u) (called w)).0 ≡ ok x
    → reset_password bcrypt random user_id w
      ≡ (cache_del (actor_key user_id) >> pure (json 200 t))
          (update_user (with_temporary hash u) (called w)).1
unfolding reset_password get_user ◌>>=◌
reset_runs bcrypt random user_id w u t hash x first found drawn hashed done =
    rw (first, found, drawn, hashed, done) refl

reset_refused :
    (bcrypt : String → Option String) (random : Option String) (user_id : String) (w : World)
    (u : User) (t hash temp : String) (x : Error)
    → w.fails w.calls ≡ false
    → find (λ v. v.id == user_id) w.db.users ≡ some u
    → random ≡ some t
    → bcrypt t ≡ some hash
    → (update_user (with_temporary hash u) (called w)).0 ≡ err x
    → (reset_password bcrypt random user_id w).0 ≢ ok (json 200 temp)
unfolding reset_password get_user ◌>>=◌
reset_refused bcrypt random user_id w u t hash temp x first found drawn hashed failed =
    rw (first, found, drawn, hashed, failed) (λ e. cc)

shown_same :
    (s t : String)
    → ◌≡◌ {A = Result (Reply String) (Reply String)} (ok (json 200 s)) (ok (json 200 t))
    → s ≡ t
shown_same s t e = ground arith

-- What ResetPassword has written when it shows a password.
reset_ok :
    (bcrypt : String → Option String) (random : Option String) (user_id : String) (w : World)
    (u : User) (temp : String)
    → find (λ v. v.id == user_id) w.db.users ≡ some u
    → (reset_password bcrypt random user_id w).0 ≡ ok (json 200 temp)
    → (hash : String) × (bcrypt temp ≡ some hash)
      × ((reset_password bcrypt random user_id w).1.db.users
          ≡ update_where (λ v. v.id == u.id) (updated_user (with_temporary hash u)) w.db.users)
reset_ok bcrypt random user_id w u temp found e = elim (Bool-cases (w.fails w.calls)) [
  | inl failed ↦ absurd (unfold reset_password get_user ◌>>=◌ in ground (arith, failed))
  | inr first ↦ elim (Option-cases random) [
    | inl missing ↦
        absurd (unfold reset_password get_user ◌>>=◌ in ground (arith, first, found, missing))
    | inr (t, drawn) ↦ elim (Option-cases (bcrypt t)) [
      | inl failed ↦
          absurd
            (unfold reset_password get_user ◌>>=◌ in ground (arith, first, found, drawn, failed))
      | inr (hash, hashed) ↦
          elim (Result-cases (update_user (with_temporary hash u) (called w)).0) [
            | inr (x, failed) ↦ absurd (
                reset_refused bcrypt random user_id w u t hash temp x first found drawn hashed
                  failed e)
            | inl (x, done) ↦
                let runs =
                  reset_runs bcrypt random user_id w u t hash x first found drawn hashed done in
                let v : World = (update_user (with_temporary hash u) (called w)).1 in
                let (reply, kept) = forgotten (actor_key user_id) (json 200 t) v in
                let shown : ◌≡◌ {A = Result (Reply String) (Reply String)} (ok (json 200 t))
                    (ok (json 200 temp)) =
                  sym reply ∙ ap (λ r. r.0) (sym runs) ∙ e in
                let same : t ≡ temp = shown_same t temp shown in
                (
                  hash,
                  ap bcrypt (sym same) ∙ hashed,
                  ap (λ r. r.1.db.users) runs
                      ∙ ap (λ (db : Db). db.users) kept
                      ∙ ap (λ (db : Db). db.users)
                          (update_user_ok (with_temporary hash u) (called w) x done),
                )
          ]
    ]
  ]
]

-- The user with the new password is the one that Login finds by the address.
found_by_email :
    (u : User) (hash : String) (users : List User)
    → find (λ v. v.email == u.email) users ≡ some u
    → find
        (λ v. v.email == u.email)
        (update_where (λ v. v.id == u.id) (updated_user (with_temporary hash u)) users)
      ≡ some (with_temporary hash u)
found_by_email u hash users found = ground (
  arith,
  found,
  eq_refl u.id,
  find-update_where (λ (v : User). v.id == u.id) (λ (v : User). v.email == u.email)
      (updated_user (with_temporary hash u)) users (λ x. refl),
)

module _ (h : SessionBackend) where
  check_password_passes :
      (u : User) (password : String) (w : World)
      → (u.password_hash == "") ≡ false
      → u.disabled ≡ false
      → h.password_matches u.password_hash password ≡ true
      → check_password h password (some u) w ≡ (ok u, w)
  unfolding check_password ◌>>=◌
  check_password_passes u password w given enabled right = rw (given, enabled, right) refl

  start_session_runs :
      (A : Type 0) (fresh : Fresh) (token user_id auth_provider : String) (client : Client)
      (w : World)
      → fresh.token ≡ some token
      → refuses (new_session fresh.id user_id (h.hash token) client w.now auth_provider) w ≡ false
      → (start_session h {A = A} fresh client user_id auth_provider w).0
        ≡ ok (token, w.now + session_lifetime)
  unfolding start_session create_session ◌>>=◌
  start_session_runs A fresh token user_id auth_provider client w drawn free = rw (drawn, free) refl

  -- A user who is not disabled, whom the address finds, and a bcrypt whose hashes are not empty and
  -- match their passwords: with the temporary password that ResetPassword showed, while the users
  -- stay as it left them, the database answers and the new session clashes with none, Login answers
  -- 200 with a token and says that the password has to be changed.
  pub reset_password-login :
      (bcrypt : String → Option String) (random : Option String) (user_id temp token : String)
      (u : User) (fresh : Fresh) (client : Client) (w later : World)
      → ((p hash : String) → bcrypt p ≡ some hash → h.password_matches hash p ≡ true)
      → ((p hash : String) → bcrypt p ≡ some hash → (hash == "") ≡ false)
      → find (λ v. v.id == user_id) w.db.users ≡ some u
      → find (λ v. v.email == u.email) w.db.users ≡ some u
      → u.disabled ≡ false
      → (u.email == "" || temp == "") ≡ false
      → (reset_password bcrypt random user_id w).0 ≡ ok (json 200 temp)
      → later.db.users ≡ (reset_password bcrypt random user_id w).1.db.users
      → ((n : ℕ) → later.fails n ≡ false)
      → fresh.token ≡ some token
      → refuses (new_session fresh.id u.id (h.hash token) client later.now "") (called later)
        ≡ false
      → (login h fresh client (some (record { email = u.email; password = temp })) later).0
        ≡ ok (
          json 200 (record { token = token; must_change_password = true }),
          set_session token (later.now + session_lifetime),
        )
  unfolding login get_user_by_email ◌>>=◌
  reset_password-login bcrypt random user_id temp token u fresh client w later matches given by_id
        by_email enabled sent reset kept answers drawn free =
      let (hash, hashed, rows) = reset_ok bcrypt random user_id w u temp by_id reset in
      let found : find (λ v. v.email == u.email) later.db.users ≡ some (with_temporary hash u) =
        rw (kept, rows) (found_by_email u hash w.db.users by_email) in
      let checked =
        check_password_passes (with_temporary hash u) temp (called later) (given temp hash hashed)
          enabled (matches temp hash hashed) in
      let started =
        start_session_runs LoginResponse fresh token u.id "" client (called later) drawn free in
      rw (sent, answers later.calls, found, checked, started) refl
