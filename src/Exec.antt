-- ===== src/Exec.antt =====
-- Handlers and store calls as actions on the server's world: the database, the clock, and a
-- schedule that says which calls of the database fail.
pub mod Rules
pub mod Checks
pub mod Steps
use uigraph_api.Prelude.{
  String, List, Option, none, some, not, ◌==◌, filter, ◌≡◌, refl, ◌⊎◌, inl, inr, ℕ, ◌+◌, Bool, true,
  false, ◌||◌, if◌then◌else◌,
}
use uigraph_api.Http.{Error, database, Reply, error_reply}
use uigraph_api.Db.{Db}

-- One request reads one time, unless a handler says otherwise. `fails n` says that the n-th call of the database or of the cache
-- returns an error; a call that fails has changed nothing. Without a cache, `cache` is `none`.
pub record World : Type 0 where
  pub db : Db
  pub cache : Option (List (String × String))
  pub now : ℕ
  pub calls : ℕ
  pub fails : ℕ → Bool

pub data Result (E A : Type 0) : Type 0 where
  ok : A → Result E A
  err : E → Result E A

pub Result-cases :
    {E A : Type 0} (r : Result E A) → ((a : A) × (r ≡ ok a)) ⊎ ((e : E) × (r ≡ err e))
Result-cases (ok a) = inl (a, refl)
Result-cases (err e) = inr (e, refl)

-- What was written before an early return stays written.
abbrev pub Exec : Type 0 → Type 0 → Type 0
Exec E A = World → Result E A × World

module _ {E A : Type 0} where
  pub pure : A → Exec E A
  pure a w = (ok a, w)

  pub stop : E → Exec E A
  stop e w = (err e, w)

  pub lift : Result E A → Exec E A
  lift r w = (r, w)

-- The early return of a handler, `if b { …; return }`.
pub stop_if : {E : Type 0} → Bool → E → Exec E (Unit {0})
stop_if b e w = if b then (err e, w) else (ok tt, w)

pub now_of : {E : Type 0} → Exec E ℕ
now_of w = (ok w.now, w)

-- The calls of the database: a read, and a write.
pub query : {A : Type 0} → (Db → A) → Exec Error A
query f w =
    if w.fails w.calls
    then (err database, record w { calls = w.calls + 1 })
    else (ok (f w.db), record w { calls = w.calls + 1 })

pub exec : (Db → Db) → Exec Error (Unit {0})
exec f w =
    if w.fails w.calls
    then (err database, record w { calls = w.calls + 1 })
    else (ok tt, record w { db = f w.db; calls = w.calls + 1 })

-- A write that a constraint of the tables may refuse.
pub insert_if : (Db → Bool) → (Db → Db) → Exec Error (Unit {0})
insert_if clashes f w =
    if w.fails w.calls || clashes w.db
    then (err database, record w { calls = w.calls + 1 })
    else (ok tt, record w { db = f w.db; calls = w.calls + 1 })

module _ {A : Type 0} where
  abbrev pub after_statement : Result Error A → (Db → Db) → World → Result Error A × World
  after_statement (err e) f w = (err e, record w { calls = w.calls + 1 })
  after_statement (ok a) f w = (ok a, record w { db = f w.db; calls = w.calls + 1 })

  -- A write that answers from what it finds, or that the tables refuse with an error that the code
  -- tells apart.
  pub statement : (Db → Result Error A) → (Db → Db) → Exec Error A
  statement answer f w =
      if w.fails w.calls
      then (err database, record w { calls = w.calls + 1 })
      else after_statement (answer w.db) f w

without : String → List (String × String) → List (String × String)
without key = filter (λ e. not (e.0 == key))

-- `if h.cache != nil { _ = h.cache.Del(…) }`
pub cache_del : {E : Type 0} → String → Exec E (Unit {0})
unfolding without
cache_del key w = elim w.cache [
  | none ↦ (ok tt, w)
  | some entries ↦
      if w.fails w.calls
      then (ok tt, record w { calls = w.calls + 1 })
      else (ok tt, record w { cache = some (without key entries); calls = w.calls + 1 })
]

module _ {A B : Type 0} where
  abbrev pub or_reply : Result Error A → Result (Reply B) A
  or_reply (ok a) = ok a
  or_reply (err e) = err (error_reply e)

  -- `if err != nil { httputil.Error(w, r, err); return }` after a call.
  pub attempt : Exec Error A → Exec (Reply B) A
  attempt m w = (or_reply (m w).0, (m w).1)

-- A value that must be there, such as a decoded body, and the reply if it is not.
pub require : {E A : Type 0} → Option A → E → Exec E A
require none e w = (err e, w)
require (some a) e w = (ok a, w)

-- `_ = call(…)`: an error of the call is dropped.
pub ignore : {E A : Type 0} → Exec Error A → Exec E (Unit {0})
ignore m w = (ok tt, (m w).1)

-- A call whose error the caller looks at.
pub capture : {E A : Type 0} → Exec Error A → Exec E (Result Error A)
capture m w = (ok (m w).0, (m w).1)

module _ {E A B : Type 0} where
  abbrev pub continue : Result E A → (A → Exec E B) → Exec E B
  continue (ok a) f w = f a w
  continue (err e) f w = (err e, w)

  infixl 10 ◌>>=◌ ◌>>◌
  -- Opening this opens the actions above too.
  unfoldable pub ◌>>=◌ : Exec E A → (A → Exec E B) → Exec E B
  unfolding pure stop lift stop_if require now_of query exec insert_if statement attempt ignore
      capture cache_del
  ◌>>=◌ m f w = continue (m w).0 f (m w).1

  abbrev pub ◌>>◌ : Exec E A → Exec E B → Exec E B
  m >> n = m >>= λ _. n

-- The reply that a handler writes, early or at its end.
abbrev pub written : {A : Type 0} → Result (Reply A) (Reply A) → Reply A
written (ok r) = r
written (err r) = r

abbrev pub run : {A : Type 0} → Exec (Reply A) (Reply A) → World → Reply A × World
run h w = (written (h w).0, (h w).1)
