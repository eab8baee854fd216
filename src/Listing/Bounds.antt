-- ===== src/Listing/Bounds.antt =====
-- The bounds of a listing, whatever the query says.
use uigraph_api.Prelude.{
  ℕ, ◌≤◌, String, Option, none, some, ◌≡◌, inl, inr, refl, arith, ◌==◌, Bool-cases, ltb,
}
use uigraph_api.Prelude.Int.{ℤ, pos, negsuc, lt_int}
use uigraph_api.Listing.{clamped, not_negative, list_limit, list_offset}

pos_bounds : (n : ℕ) → (m : ℕ) × (clamped (some (pos n)) ≡ pos m) × (1 ≤ m) × (m ≤ 100)
unfolding lt_int
pos_bounds n = elim (Bool-cases (ltb n 1)) [
  | inl low ↦ (24, ground arith, omega arith, omega arith)
  | inr fine ↦ elim (Bool-cases (ltb 100 n)) [
    | inl high ↦ (100, ground arith, omega arith, omega arith)
    | inr in_range ↦ (n, ground arith, ground arith, ground arith)
  ]
]

clamped_bounds : (o : Option ℤ) → (m : ℕ) × (clamped o ≡ pos m) × (1 ≤ m) × (m ≤ 100)
unfolding lt_int
clamped_bounds none = (24, refl, omega arith, omega arith)
clamped_bounds (some (pos n)) = pos_bounds n
clamped_bounds (some (negsuc n)) = (24, refl, omega arith, omega arith)

offset_bounds : (o : Option ℤ) → (m : ℕ) × (not_negative o ≡ pos m)
unfolding lt_int
offset_bounds none = (0, refl)
offset_bounds (some (pos n)) = (n, ground arith)
offset_bounds (some (negsuc n)) = (0, refl)

-- The limit is between 1 and 100 and the offset is not negative, whatever the query says and
-- whatever number it is read as.
pub list_bounds :
    (atoi : String → Option ℤ) (raw : String)
    → ((n : ℕ) × (list_limit atoi raw ≡ pos n) × (1 ≤ n) × (n ≤ 100))
      × ((n : ℕ) × (list_offset atoi raw ≡ pos n))
unfolding list_limit list_offset
list_bounds atoi raw = elim (Bool-cases (raw == "")) [
  | inl absent ↦ rw (absent) ((24, refl, omega arith, omega arith), (0, refl))
  | inr given ↦ rw (given) (clamped_bounds (atoi raw), offset_bounds (atoi raw))
]
