-- ===== src/Sessions/Throttled.antt =====
-- How often the organisations of one address are looked up.
use uigraph_api.Prelude.{
  ℕ, ◌+◌, ◌-◌, ◌≤◌, String, Bool, false, ◌&&◌, Option, none, some, List, [], ◌∷◌, ◌≡◌, ◌==◌, subst,
  arith, eq_iff, filter, length, ltb, leb, inl, inr, Bool-cases, Option-cases,
}
use uigraph_api.Prelude.Text.{cut_last}
use uigraph_api.Db.{Db, User, LoginAttempt}
use uigraph_api.Exec.{World, ◌>>=◌}
use uigraph_api.Exec.Rules.{Maintains, Maintains-from, maintains_rules}
use uigraph_api.Store.Tables.{insert}
use uigraph_api.Store.Users.{get_user_by_email}
use uigraph_api.Store.Domains.{list_orgs_by_domain, list_orgs_for_user}
use uigraph_api.Store.Logins.{count_login_attempts, record_login_attempt}
use uigraph_api.Sessions.{SessionBackend, discover_window, discover_limit}
use uigraph_api.Sessions.Discovery.{
  DiscoveredOrg, domain_if_whole, spelled, admit, add_memberships, look_up, discover_orgs,
}

-- The attempts for an address after a time, as CountLoginAttempts counts them.
abbrev pub recent : String → ℕ → List LoginAttempt → ℕ
recent email since rows = length (filter (λ a. a.username == email && ltb since a.created_at) rows)

-- No address has more than twenty attempts in the window before a time, or in any later one.
pub record IsThrottled (now : ℕ) (db : Db) : Type 0 where
  pub few :
      (email : String) (since : ℕ)
      → now ≤ since + discover_window
      → recent email since db.attempts ≤ discover_limit

recent-insert :
    (email ip other : String) (since now : ℕ) (rows : List LoginAttempt)
    → recent email since (insert (record { username = other; ip = ip; created_at = now }) rows)
      ≤ recent email since rows + 1
recent-insert email ip other since now [] = ground arith
recent-insert email ip other since now (a ∷ rows) =
    ground (arith, recent-insert email ip other since now rows)

recent-other :
    (email ip other : String) (since now : ℕ) (rows : List LoginAttempt)
    → (other == email) ≡ false
    → recent email since (insert (record { username = other; ip = ip; created_at = now }) rows)
      ≡ recent email since rows
recent-other email ip other since now [] h = ground (arith, h)
recent-other email ip other since now (a ∷ rows) h =
    ground (arith, recent-other email ip other since now rows h)

-- A later start counts fewer attempts.
recent-antitone :
    (email : String) (early late : ℕ) (rows : List LoginAttempt)
    → early ≤ late
    → recent email late rows ≤ recent email early rows
recent-antitone email early late [] h = ground arith
recent-antitone email early late (a ∷ rows) h =
    ground (arith, recent-antitone email early late rows h)

insert-IsThrottled :
    (email ip : String) (now : ℕ) (db : Db)
    → leb discover_limit (recent email (now - discover_window) db.attempts) ≡ false
    → IsThrottled now db
    → IsThrottled now (record db {
      attempts = insert (record { username = email; ip = ip; created_at = now }) db.attempts;
    })
insert-IsThrottled email ip now db room s = record {
  few = λ other since h. elim (Bool-cases (email == other)) [
    | inl t ↦
        let same : email ≡ other = (eq_iff email other).0 t in
        subst
          (λ o.
            recent o since
              (insert (record { username = email; ip = ip; created_at = now }) db.attempts)
            ≤ discover_limit)
          same
          (ground (
            arith,
            room,
            h,
            recent-insert email ip email since now db.attempts,
            recent-antitone email (now - discover_window) since db.attempts,
          ))
    | inr f ↦
        ground (arith, s.few other since h, recent-other other ip email since now db.attempts f)
  ];
}

module _ (h : SessionBackend) where
  admit-IsThrottled :
      (remote_addr email : String) (w : World)
      → IsThrottled w.now w.db
      → IsThrottled w.now (admit h remote_addr email w).1.db
  unfolding admit count_login_attempts record_login_attempt ◌>>=◌
  admit-IsThrottled remote_addr email w s =
      let room : Bool = leb discover_limit (recent email (w.now - discover_window) w.db.attempts) in
      elim (Bool-cases (w.fails w.calls)) [
        | inl failed ↦ rw failed s
        | inr fine ↦ elim (Bool-cases room) [
          | inl full ↦ rw (fine, full) s
          | inr free ↦ elim (Bool-cases (w.fails (w.calls + 1))) [
            | inl failed ↦ rw (fine, free, failed) s
            | inr again ↦
                rw (fine, free, again) (insert-IsThrottled email remote_addr w.now w.db free s)
          ]
        ]
      ]

  add_memberships-Maintains :
      (now : ℕ) (orgs : List DiscoveredOrg) (found : Option User)
      → Maintains (IsThrottled now) (add_memberships h orgs found)
  unfolding list_orgs_for_user
  add_memberships-Maintains now orgs none = search maintains_rules
  add_memberships-Maintains now orgs (some u) = search maintains_rules

  IsThrottled-later :
      (now later : ℕ) (db : Db) → now ≤ later → IsThrottled now db → IsThrottled later db
  IsThrottled-later now later db after s = record {
    few = λ email since h. s.few email since (ground (arith, h, after));
  }

  look_up-Maintains :
      (now : ℕ) (email domain : String) → Maintains (IsThrottled now) (look_up h email domain)
  unfolding look_up list_orgs_by_domain get_user_by_email
  look_up-Maintains now email domain = search (maintains_rules, add_memberships-Maintains) depth 30

  discover_orgs-kept :
      (remote_addr : String) (body : Option String) (w : World)
      → IsThrottled w.now w.db
      → IsThrottled w.now (discover_orgs h remote_addr body w).1.db
  unfolding discover_orgs ◌>>=◌
  discover_orgs-kept remote_addr none w s = s
  discover_orgs-kept remote_addr (some value) w s =
      elim (Option-cases (domain_if_whole (cut_last b'@' (spelled h value)))) [
        | inl missing ↦ rw missing s
        | inr (domain, whole) ↦ rw whole (
            Maintains-from _ (λ _. look_up-Maintains w.now (spelled h value) domain)
              (admit h remote_addr (spelled h value)) w
              (admit-IsThrottled remote_addr (spelled h value) w s))
      ]

  -- If no address has more than twenty lookups in the quarter of an hour before a request, then
  -- none has after the request, whichever database calls fail, nor at any later time.
  pub discover_orgs-IsThrottled :
      (remote_addr : String) (body : Option String) (w : World) (later : ℕ)
      → IsThrottled w.now w.db
      → w.now ≤ later
      → IsThrottled later (discover_orgs h remote_addr body w).1.db
  discover_orgs-IsThrottled remote_addr body w later s after =
      IsThrottled-later w.now later _ after (discover_orgs-kept remote_addr body w s)
