-- ===== src/Exec/Rules.antt =====
-- Invariants of actions: one rule for each way to build an action.
use uigraph_api.Prelude.{
  Option, none, some, String, ◌≡◌, Bool, true, false, arith, inl, inr, if◌then◌else◌,
}
use uigraph_api.Http.{Error}
use uigraph_api.Db.{Db}
use uigraph_api.Exec.{
  require, cache_del, World, Result, ok, err, Exec, pure, stop, lift, continue, ◌>>=◌, stop_if,
  query, exec, insert_if, statement, Result-cases, attempt, ignore, capture, now_of,
}

-- `m` keeps the property `P` of the database, whether it returns or stops.
pub record Maintains {E A : Type 0} (P : Db → Type 0) (m : Exec E A) : Type 0 where
  pub at : (w : World) → P w.db → P (m w).1.db

module _ {E A : Type 0} {P : Db → Type 0} where
  pub Maintains-pure : (a : A) → Maintains P (pure {E = E} a)
  unfolding pure
  Maintains-pure a = record { at = λ w h. h }

  pub Maintains-stop : (e : E) → Maintains P (stop {A = A} e)
  unfolding stop
  Maintains-stop e = record { at = λ w h. h }

  pub Maintains-lift : (r : Result E A) → Maintains P (lift r)
  unfolding lift
  Maintains-lift r = record { at = λ w h. h }

  pub Maintains-require : (o : Option A) (e : E) → Maintains P (require o e)
  unfolding require
  Maintains-require none e = record { at = λ w h. h }
  Maintains-require (some a) e = record { at = λ w h. h }

  -- Both branches, whatever the test.
  pub Maintains-if :
      (m : Exec E A)
      → Maintains P m
      → (n : Exec E A) → Maintains P n
      → (test : Bool) → Maintains P (if test then m else n)
  Maintains-if m k n l true = k
  Maintains-if m k n l false = l

  pub Maintains-attempt : (m : Exec Error A) → Maintains P m → Maintains P (attempt {B = E} m)
  unfolding attempt
  Maintains-attempt m k = record { at = k.at }

  pub Maintains-ignore : (m : Exec Error A) → Maintains P m → Maintains P (ignore {E = E} m)
  unfolding ignore
  Maintains-ignore m k = record { at = k.at }

  pub Maintains-capture : (m : Exec Error A) → Maintains P m → Maintains P (capture {E = E} m)
  unfolding capture
  Maintains-capture m k = record { at = k.at }

module _ {P : Db → Type 0} where
  pub Maintains-query : {A : Type 0} (f : Db → A) → Maintains P (query f)
  unfolding query
  Maintains-query f = record { at = λ w h. ground arith }

  pub Maintains-stop_if : {E : Type 0} (b : Bool) (e : E) → Maintains P (stop_if b e)
  unfolding stop_if
  Maintains-stop_if b e = record { at = λ w h. ground arith }

  pub Maintains-now_of : {E : Type 0} → Maintains P (now_of {E = E})
  unfolding now_of
  Maintains-now_of = record { at = λ w h. h }

  pub Maintains-cache_del : {E : Type 0} (key : String) → Maintains P (cache_del {E = E} key)
  unfolding cache_del
  Maintains-cache_del key = record { at = λ w h. ground arith }

  -- A write keeps what the change of the tables keeps.
  pub Maintains-exec : (f : Db → Db) → ((db : Db) → P db → P (f db)) → Maintains P (exec f)
  unfolding exec
  Maintains-exec f k = record { at = λ w h. ground (arith, k w.db) }

  pub Maintains-statement :
      {A : Type 0} (answer : Db → Result Error A) (f : Db → Db)
      → ((db : Db) (a : A) → answer db ≡ ok a → P db → P (f db))
      → Maintains P (statement answer f)
  unfolding statement
  Maintains-statement answer f k = record {
    at = λ w h. elim (Result-cases (answer w.db)) [
      | inl (a, fine) ↦ ground (arith, k w.db a fine h)
      | inr (e, refused) ↦ ground (arith, h)
    ];
  }

  pub Maintains-insert_if :
      (clashes : Db → Bool) (f : Db → Db)
      → ((db : Db) → clashes db ≡ false → P db → P (f db))
      → Maintains P (insert_if clashes f)
  unfolding insert_if
  Maintains-insert_if clashes f k = record { at = λ w h. ground (arith, k w.db) }

module _ {E A B : Type 0} {P : Db → Type 0} (next : A → Exec E B)
    (rest : (a : A) → Maintains P (next a)) where
  Maintains-continue : (r : Result E A) (w : World) → P w.db → P (continue r next w).1.db
  Maintains-continue (err e) w h = h
  Maintains-continue (ok a) w h = (rest a).at w h

  pub Maintains-bind : (first : Exec E A) → Maintains P first → Maintains P (first >>= next)
  unfolding ◌>>=◌
  Maintains-bind first step = record {
    at = λ w h. Maintains-continue (first w).0 (first w).1 (step.at w h);
  }

  -- What the first action leaves in one world, the rest keeps.
  pub Maintains-from :
      (first : Exec E A) (w : World) → P (first w).1.db → P ((first >>= next) w).1.db
  unfolding ◌>>=◌
  Maintains-from first w h = Maintains-continue (first w).0 (first w).1 h

-- Nothing follows an early return.
pub Maintains-after_stop :
    {E A B : Type 0} {P : Db → Type 0} (e : E) (next : A → Exec E B) → Maintains P (stop e >>= next)
unfolding ◌>>=◌
Maintains-after_stop e next = record { at = λ w h. h }

pub ruleset maintains_rules = (
  Maintains-pure, Maintains-stop, Maintains-lift, Maintains-if, Maintains-require,
  Maintains-attempt, Maintains-ignore, Maintains-capture, Maintains-query, Maintains-stop_if,
  Maintains-now_of, Maintains-cache_del, Maintains-bind,
)
