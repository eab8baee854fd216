-- ===== src/Exec/Steps.antt =====
-- What is known of a chain of actions that has returned: its first action returned, and so did what
-- followed, from the world that the first one left.
use uigraph_api.Prelude.{
  ◌+◌, ◌||◌, Bool, true, false, Option, none, some, ◌≡◌, refl, arith, inl, inr, Bool-cases,
}
use uigraph_api.Http.{Error, Reply}
use uigraph_api.Db.{Db}
use uigraph_api.Exec.{
  World, ok, Exec, pure, require, stop_if, query, insert_if, attempt, Result-cases, ◌>>=◌, ◌>>◌,
}

module _ {E A B : Type 0} where
  pub bind_ok :
      (m : Exec E A) (k : A → Exec E B) (w : World) (b : B)
      → ((m >>= k) w).0 ≡ ok b
      → (a : A) × ((m w).0 ≡ ok a) × ((k a (m w).1).0 ≡ ok b) × (((m >>= k) w).1 ≡ (k a (m w).1).1)
  unfolding ◌>>=◌
  bind_ok m k w b e = elim (Result-cases (m w).0) [
    | inl (a, done) ↦ (a, done, ground (arith, done), rw done refl)
    | inr (x, failed) ↦ absurd (ground arith)
  ]

  pub require_ok :
      (o : Option A) (x : E) (k : A → Exec E B) (w : World) (b : B)
      → ((require o x >>= k) w).0 ≡ ok b
      → (a : A) × (o ≡ some a) × ((k a w).0 ≡ ok b) × (((require o x >>= k) w).1 ≡ (k a w).1)
  unfolding ◌>>=◌
  require_ok none x k w b e = absurd (ground arith)
  require_ok (some a) x k w b e = (a, refl, e, refl)

pub stop_if_ok :
    {E B : Type 0} (test : Bool) (x : E) (m : Exec E B) (w : World) (b : B)
    → ((stop_if test x >> m) w).0 ≡ ok b
    → (test ≡ false) × ((m w).0 ≡ ok b) × (((stop_if test x >> m) w).1 ≡ (m w).1)
unfolding ◌>>=◌
stop_if_ok true x m w b e = absurd (ground arith)
stop_if_ok false x m w b e = (refl, e, refl)

-- The world after a call that has changed nothing.
abbrev pub called : World → World
called w = record w { calls = w.calls + 1 }

pub query_ok :
    {A B C : Type 0} (f : Db → A) (k : A → Exec (Reply B) C) (w : World) (c : C)
    → ((attempt (query f) >>= k) w).0 ≡ ok c
    → ((k (f w.db) (called w)).0 ≡ ok c)
      × (((attempt (query f) >>= k) w).1 ≡ (k (f w.db) (called w)).1)
unfolding ◌>>=◌
query_ok f k w c e = elim (Bool-cases (w.fails w.calls)) [
  | inl t ↦ absurd (ground arith)
  | inr t ↦ (ground (arith, t), rw t refl)
]

pub pure_ok :
    {E A : Type 0} (a b : A) (w : World)
    → (pure {E = E} a w).0 ≡ ok b
    → (a ≡ b) × ((pure {E = E} a w).1 ≡ w)
unfolding ◌>>=◌
pure_ok a b w e = (ground arith, refl)

pub attempt_ok :
    {A B : Type 0} (m : Exec Error A) (w : World) (a : A)
    → (attempt {B = B} m w).0 ≡ ok a
    → ((m w).0 ≡ ok a) × ((attempt {B = B} m w).1 ≡ (m w).1)
unfolding ◌>>=◌
attempt_ok m w a e = elim (Result-cases (m w).0) [
  | inl (b, done) ↦ (ground (arith, done), refl)
  | inr (x, failed) ↦ absurd (ground (arith, failed))
]

-- A call whose error ends the handler.
pub call_ok :
    {A B C : Type 0} (m : Exec Error A) (k : A → Exec (Reply B) C) (w : World) (c : C)
    → ((attempt m >>= k) w).0 ≡ ok c
    → (a : A) × ((m w).0 ≡ ok a)
      × ((k a (m w).1).0 ≡ ok c)
      × (((attempt m >>= k) w).1 ≡ (k a (m w).1).1)
unfolding ◌>>=◌
call_ok m k w c e = elim (Result-cases (m w).0) [
  | inl (a, done) ↦ (a, done, ground (arith, done), rw done refl)
  | inr (x, failed) ↦ absurd (ground (arith, failed))
]

pub insert_if_ok :
    (clashes : Db → Bool) (f : Db → Db) (w : World) (t : Unit {0})
    → (insert_if clashes f w).0 ≡ ok t
    → (clashes w.db ≡ false)
      × ((insert_if clashes f w).1.db ≡ f w.db)
      × ((insert_if clashes f w).1.now ≡ w.now)
unfolding ◌>>=◌
insert_if_ok clashes f w t e = elim (Bool-cases (w.fails w.calls || clashes w.db)) [
  | inl refused ↦ absurd (ground arith)
  | inr fine ↦ (ground (arith, fine), rw fine refl, rw fine refl)
]
