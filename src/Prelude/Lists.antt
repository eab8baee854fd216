-- ===== src/Prelude/Lists.antt =====
-- Lists measured by native numbers, and the Boolean and the logical quantifiers over them.
use Prim.Native.Nat.{ℕ, suc}
use Prim.Native.String.{String}
use mathlib.Core.Path.{◌≡◌}
use mathlib.Core.Logic.{◌⊎◌, ◌↔◌}
use mathlib.Core.Bool.{Bool, true, false, ◌&&◌, ◌||◌}
use mathlib.Core.Option.{Option, none, some}
use mathlib.Core.List.{List, [], ◌∷◌}
use native.Mathlib.Omega.{arith}
use text.Mathlib.Text.{◌==◌}
use text.Mathlib.TextEquality.{eq_iff}
use uigraph_api.Prelude.Tests.{if◌then◌else◌}

module _ {ℓ} {A : Type ℓ} where
  abbrev pub length : List A → ℕ
  length [] = 0
  length (x ∷ xs) = suc (length xs)

  -- The library's `all`, `any` and `filter` do not run on a Boolean test.
  abbrev pub all : (A → Bool) → List A → Bool
  all p [] = true
  all p (x ∷ xs) = p x && all p xs

  abbrev pub any : (A → Bool) → List A → Bool
  any p [] = false
  any p (x ∷ xs) = p x || any p xs

  abbrev pub filter : (A → Bool) → List A → List A
  filter p [] = []
  filter p (x ∷ xs) = if p x then x ∷ filter p xs else filter p xs

  -- The first element that passes the test.
  abbrev pub find : (A → Bool) → List A → Option A
  find p [] = none
  find p (x ∷ xs) = if p x then some x else find p xs

  abbrev pub change_first : (A → A) → List A → List A
  change_first f [] = []
  change_first f (x ∷ xs) = f x ∷ xs

module _ {ℓ κ} {A : Type ℓ} (P : A → Type κ) where
  abbrev pub All : List A → Type κ
  All [] = Unit
  All (x ∷ xs) = P x × All xs

module _ {ℓ} {A : Type ℓ} (P : A → Type 0) where
  abbrev pub Any : List A → Type 0
  Any [] = ⊥
  Any (x ∷ xs) = P x ⊎ Any xs

abbrev pub In : {A : Type 0} → A → List A → Type 0
In a xs = Any (λ x. x ≡ a) xs

pub All-map {ℓ κ} :
    {A : Type ℓ} {P Q : A → Type κ} → ((x : A) → P x → Q x) → (xs : List A) → All P xs → All Q xs
All-map f [] h = tt
All-map f (x ∷ xs) (h, hs) = (f x h, All-map f xs hs)

module _ {A : Type 0} where
  pub all→All : (p : A → Bool) (xs : List A) → all p xs ≡ true → All (λ x. p x ≡ true) xs
  all→All p [] h = tt
  all→All p (x ∷ xs) h = (ground arith, all→All p xs (ground arith))

  pub any_iff : (p : A → Bool) (xs : List A) → (any p xs ≡ true) ↔ Any (λ x. p x ≡ true) xs
  any_iff p [] = ground arith
  any_iff p (x ∷ xs) = ground (arith, any_iff p xs)

abbrev pub contains : List String → String → Bool
contains xs s = any (λ x. x == s) xs

pub contains-In : (xs : List String) (s : String) → contains xs s ≡ true → In s xs
contains-In [] s h = absurd (ground arith)
contains-In (x ∷ xs) s h = ground (arith, eq_iff x s, contains-In xs s)
