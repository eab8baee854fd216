-- ===== src/Store/Ordered.antt =====
-- `ORDER BY`: the rows in the order of a test, equal rows in the order of insertion.
use uigraph_api.Prelude.{Bool, String, List, [], ◌∷◌, All, arith, if◌then◌else◌}

-- How the database compares texts: the collation, and the function LOWER.
pub record Locale : Type 0 where
  pub before : String → String → Bool
  pub lower : String → String

module _ {A : Type 0} where
  unfoldable pub place : (A → A → Bool) → A → List A → List A
  place before x [] = x ∷ []
  place before x (y ∷ ys) = if before y x then y ∷ place before x ys else x ∷ y ∷ ys

  unfoldable pub order_by : (A → A → Bool) → List A → List A
  unfolding place
  order_by before [] = []
  order_by before (x ∷ xs) = place before x (order_by before xs)

  All-place :
      (P : A → Type 0) (before : A → A → Bool) (x : A) (xs : List A)
      → P x
      → All P xs
      → All P (place before x xs)
  unfolding place
  All-place P before x [] h k = (h, k)
  All-place P before x (y ∷ ys) h (k, ks) = ground (arith, All-place P before x ys h ks)

  -- What holds of the rows holds of them in any order.
  pub All-order_by :
      (P : A → Type 0) (before : A → A → Bool) (xs : List A) → All P xs → All P (order_by before xs)
  unfolding order_by
  All-order_by P before [] h = h
  All-order_by P before (x ∷ xs) (h, hs) =
      All-place P before x (order_by before xs) h (All-order_by P before xs hs)
