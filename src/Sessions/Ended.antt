-- ===== src/Sessions/Ended.antt =====
-- The session that Logout ends.
use uigraph_api.Prelude.{
  ℕ, ◌+◌, ◌≤◌, String, false, none, List, [], ◌∷◌, ◌≡◌, ◌==◌, ◌⊎◌, All, refl, arith, find, eq_iff,
  inl, inr, Option-cases,
}
use uigraph_api.Http.{forbidden, no_content}
use uigraph_api.Db.{Session}
use uigraph_api.Exec.{World, ok, err, ◌>>=◌}
use uigraph_api.Store.Tables.{delete_where, find-holds}
use uigraph_api.Store.Sessions.{accepts, get_session_by_token, delete_session}
use uigraph_api.Middleware.{Request, session_principal, verify_bearer}
use uigraph_api.Sessions.{SessionBackend, cleared}
use uigraph_api.Sessions.Password.{logout_token, logout}

-- At a time, only sessions of one id accept a hash.
abbrev pub OnlyOf : ℕ → String → String → List Session → Type 0
OnlyOf now hash id rows = All (λ s. (accepts now hash s ≡ false) ⊎ (s.id ≡ id)) rows

-- A session that does not accept a hash does not accept it later.
accepts-later :
    (now later : ℕ) (hash : String) (s : Session)
    → now ≤ later
    → accepts now hash s ≡ false
    → accepts later hash s ≡ false
unfolding accepts
accepts-later now later hash s after a = ground (arith, a)

find-deleted :
    (now later : ℕ) (hash id : String) (rows : List Session)
    → now ≤ later
    → OnlyOf now hash id rows
    → find (accepts later hash) (delete_where (λ s. s.id == id) rows) ≡ none
unfolding delete_where
find-deleted now later hash id [] after h = refl
find-deleted now later hash id (s ∷ rows) after (h, hs) = ground (
  arith,
  eq_iff s.id id,
  h,
  accepts-later now later hash s after,
  find-deleted now later hash id rows after hs,
)

find-missing :
    (now later : ℕ) (hash : String) (rows : List Session)
    → now ≤ later
    → find (accepts now hash) rows ≡ none
    → find (accepts later hash) rows ≡ none
find-missing now later hash [] after e = refl
find-missing now later hash (s ∷ rows) after e =
    ground (arith, accepts-later now later hash s after, find-missing now later hash rows after)

refused_missing :
    (hash : String → String) (token : String) (w : World)
    → find (accepts w.now (hash token)) w.db.sessions ≡ none
    → w.fails w.calls ≡ false
    → (verify_bearer hash token w).0 ≡ err forbidden
unfolding verify_bearer get_session_by_token session_principal ◌>>=◌
refused_missing hash token w e answers = ground arith

module _ (h : SessionBackend) where
  -- The sessions that Logout leaves.
  logout_sessions :
      (r : Request) (w : World) (id : String) (later : ℕ)
      → (logout_token h r == "") ≡ false
      → OnlyOf w.now (h.hash (logout_token h r)) id w.db.sessions
      → w.now ≤ later
      → ((n : ℕ) → w.fails n ≡ false)
      → find (accepts later (h.hash (logout_token h r))) (logout h r w).1.db.sessions ≡ none
  unfolding logout get_session_by_token delete_session ◌>>=◌
  logout_sessions r w id later sent only after answers =
      let hash : String = h.hash (logout_token h r) in
      elim (Option-cases (find (accepts w.now hash) w.db.sessions)) [
        | inl missing ↦
            rw (sent, answers w.calls, missing)
              (find-missing w.now later hash w.db.sessions after missing)
        | inr (s, found) ↦
            let same : s.id ≡ id = ground (
              arith,
              find-holds (λ x. (accepts w.now hash x ≡ false) ⊎ (x.id ≡ id)) (accepts w.now hash)
                  w.db.sessions s found only,
            ) in
            rw (sent, answers w.calls, found, answers (w.calls + 1), same)
              (find-deleted w.now later hash id w.db.sessions after only)
      ]

  logout_reply :
      (r : Request) (w : World)
      → ((n : ℕ) → w.fails n ≡ false)
      → (logout h r w).0 ≡ ok (no_content, cleared)
  unfolding logout get_session_by_token delete_session ◌>>=◌
  logout_reply r w answers =
      let hash : String = h.hash (logout_token h r) in
      elim (Option-cases (find (accepts w.now hash) w.db.sessions)) [
        | inl missing ↦ ground (arith, answers w.calls, missing)
        | inr (s, found) ↦ ground (arith, answers w.calls, found, answers (w.calls + 1))
      ]

  -- Logout on a request with a token in its header, or in its cookie if the header has none, while
  -- the database answers and only sessions of one id accept the token: the response is 204, clears
  -- the cookie, and from then on, while the sessions stay as they are, the token is refused.
  pub logout-verify_bearer :
      (r : Request) (w later : World) (id : String)
      → (logout_token h r == "") ≡ false
      → OnlyOf w.now (h.hash (logout_token h r)) id w.db.sessions
      → ((n : ℕ) → w.fails n ≡ false)
      → w.now ≤ later.now
      → later.db.sessions ≡ (logout h r w).1.db.sessions
      → later.fails later.calls ≡ false
      → ((logout h r w).0 ≡ ok (no_content, cleared))
        × ((verify_bearer h.hash (logout_token h r) later).0 ≡ err forbidden)
  logout-verify_bearer r w later id sent only answers after kept again = (
    logout_reply r w answers,
    refused_missing h.hash (logout_token h r) later
        (rw kept (logout_sessions r w id later.now sent only after answers)) again,
  )
