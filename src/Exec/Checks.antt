-- ===== src/Exec/Checks.antt =====
-- The shape of a handler: it reads, checks what it read, and only then writes. From a database
-- with `P`, an action ends in a database with `Q`; what was read and checked is known later on.
use uigraph_api.Prelude.{
  ◌+◌, ℕ, Bool, true, false, Option, none, some, ◌≡◌, refl, arith, Bool-cases, inl, inr,
}
use uigraph_api.Http.{Error, Reply}
use uigraph_api.Db.{Db}
use uigraph_api.Exec.{
  Result-cases, World, Result, ok, err, Exec, now_of, query, exec, insert_if, attempt, stop_if,
  require, continue, ◌>>=◌, ◌>>◌,
}
use uigraph_api.Exec.Rules.{Maintains}

pub record Ensures {E A : Type 0} (P Q : Db → Type 0) (m : Exec E A) : Type 0 where
  pub at : (w : World) → P w.db → Q (m w).1.db

module _ {P Q : Db → Type 0} (weaken : (db : Db) → P db → Q db) where
  pub Ensures-read :
      {A B C : Type 0} (f : Db → A) (k : A → Exec (Reply B) C)
      → ((a : A) → Ensures (λ db. P db × (f db ≡ a)) Q (k a))
      → Ensures P Q (attempt (query f) >>= k)
  unfolding ◌>>=◌
  Ensures-read f k h = record {
    at = λ w p. elim (Bool-cases (w.fails w.calls)) [
      | inl failed ↦ rw failed (weaken w.db p)
      | inr fine ↦ rw fine ((h (f w.db)).at (record w { calls = w.calls + 1 }) (p, refl))
    ];
  }

  pub Ensures-stop_if :
      {E A : Type 0} (b : Bool) (e : E) (m : Exec E A)
      → (b ≡ false → Ensures P Q m)
      → Ensures P Q (stop_if b e >> m)
  unfolding ◌>>=◌
  Ensures-stop_if true e m h = record { at = λ w p. weaken w.db p }
  Ensures-stop_if false e m h = record { at = λ w p. (h refl).at w p }

  pub Ensures-require :
      {E A B : Type 0} (o : Option A) (e : E) (k : A → Exec E B)
      → ((a : A) → o ≡ some a → Ensures P Q (k a))
      → Ensures P Q (require o e >>= k)
  unfolding ◌>>=◌
  Ensures-require none e k h = record { at = λ w p. weaken w.db p }
  Ensures-require (some a) e k h = record { at = λ w p. (h a refl).at w p }

  -- A write of which `P` is enough for `Q`; what follows keeps `Q`.
  pub Ensures-exec : (f : Db → Db) → ((db : Db) → P db → Q (f db)) → Ensures P Q (exec f)
  unfolding exec
  Ensures-exec f h = record { at = λ w p. ground (arith, weaken w.db p, h w.db p) }

  pub Ensures-insert_if :
      (clashes : Db → Bool) (f : Db → Db)
      → ((db : Db) → clashes db ≡ false → P db → Q (f db))
      → Ensures P Q (insert_if clashes f)
  unfolding insert_if
  Ensures-insert_if clashes f h = record { at = λ w p. ground (arith, weaken w.db p, h w.db) }

  pub Ensures-timed :
      (f : ℕ → Db → Db)
      → ((now : ℕ) (db : Db) → P db → Q (f now db))
      → Ensures P Q (do now ← now_of; exec (f now))
  unfolding ◌>>=◌
  Ensures-timed f h = record { at = λ w p. ground (arith, weaken w.db p, h w.now w.db p) }

  pub Ensures-timed_if :
      (clashes : Db → Bool) (f : ℕ → Db → Db)
      → ((now : ℕ) (db : Db) → P db → Q (f now db))
      → Ensures P Q (do now ← now_of; insert_if clashes (f now))
  unfolding ◌>>=◌
  Ensures-timed_if clashes f h = record {
    at = λ w p. ground (arith, weaken w.db p, h w.now w.db p);
  }

Ensures-continue :
    {Q : Db → Type 0} {E A B : Type 0} (r : Result E A) (k : A → Exec E B) (w : World)
    → ((a : A) → Maintains Q (k a))
    → Q w.db
    → Q (continue r k w).1.db
Ensures-continue (ok a) k w h q = (h a).at w q
Ensures-continue (err e) k w h q = q

pub Ensures-bind :
    {P Q : Db → Type 0} {A B C : Type 0} (m : Exec Error A) (k : A → Exec (Reply B) C)
    → Ensures P Q m
    → ((a : A) → Maintains Q (k a))
    → Ensures P Q (attempt m >>= k)
unfolding ◌>>=◌
Ensures-bind m k h hk = record {
  at = λ w p. Ensures-continue (attempt m w).0 k (m w).1 hk (h.at w p);
}

pub Maintains-of_Ensures :
    {P : Db → Type 0} {E A : Type 0} (m : Exec E A) → Ensures P P m → Maintains P m
Maintains-of_Ensures m h = record { at = h.at }

-- A step whose success is worth `R`: what follows may rest on it.
pub Ensures-step :
    {P R Q : Db → Type 0} {E A B : Type 0} (m : Exec E A) (k : A → Exec E B)
    → ((db : Db) → P db → Q db)
    → Maintains P m
    → ((w : World) (a : A) → P w.db → (m w).0 ≡ ok a → R (m w).1.db)
    → ((a : A) → Ensures R Q (k a))
    → Ensures P Q (m >>= k)
unfolding ◌>>=◌
Ensures-step m k weaken kept gained h = record {
  at = λ w p. elim (Result-cases (m w).0) [
    | inl (a, fine) ↦ rw fine ((h a).at (m w).1 (gained w a p fine))
    | inr (e, failed) ↦ rw failed (weaken (m w).1.db (kept.at w p))
  ];
}

pub Ensures-keep :
    {P Q : Db → Type 0} {E A B : Type 0} (m : Exec E A) (k : A → Exec E B)
    → ((db : Db) → P db → Q db)
    → Maintains P m
    → ((a : A) → Ensures P Q (k a))
    → Ensures P Q (m >>= k)
Ensures-keep m k weaken kept h = Ensures-step m k weaken kept (λ w a p _. kept.at w p) h
