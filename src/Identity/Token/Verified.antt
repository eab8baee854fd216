-- ===== src/Identity/Token/Verified.antt =====
-- The comparison without early exit decides equality.
use Prim.Native.Nat.{bit_or, bit_xor}
use Prim.Native.String.{[], ◌∷◌}
use text.Mathlib.TextEquality.{Char-path}
use text.Mathlib.TextLemmas.{cons-eq-cons}
use uigraph_api.Prelude.{ℕ, String, code, ◌≡◌, ◌↔◌, refl, true, arith}
use uigraph_api.Prelude.Bits.{bit_or-eq-zero_iff, bit_xor-eq-zero_iff}
use uigraph_api.Identity.Token.{len, difference, verify}

difference-eq-zero :
    (diff : ℕ) (s t : String) → len s ≡ len t → difference diff s t ≡ 0 → (diff ≡ 0) × (s ≡ t)
unfolding difference
difference-eq-zero diff [] [] e h = (h, refl)
difference-eq-zero diff [] (d ∷ t) e h = absurd (omega arith)
difference-eq-zero diff (c ∷ s) [] e h = absurd (omega arith)
difference-eq-zero diff (c ∷ s) (d ∷ t) e h =
    let (both, rest) =
      difference-eq-zero (bit_or diff (bit_xor (code c) (code d))) s t (omega arith) h in
    let (before, here) = (bit_or-eq-zero_iff diff (bit_xor (code c) (code d))).0 both in
    let same : c ≡ d = Char-path c d ((bit_xor-eq-zero_iff (code c) (code d)).0 here) in
    (before, cons-eq-cons.1 (same, rest))

difference_self : (s : String) → difference 0 s s ≡ 0
unfolding difference
difference_self [] = refl
difference_self (c ∷ s) =
    let same : bit_xor (code c) (code c) ≡ 0 = (bit_xor-eq-zero_iff (code c) (code c)).1 refl in
    rw same (difference_self s)

-- A token verifies against a stored hash exactly when the stored hash is the hash of the token.
pub verify_iff :
    (hash : String → String) (plaintext stored_hash : String)
    → (verify hash plaintext stored_hash ≡ true) ↔ (hash plaintext ≡ stored_hash)
unfolding verify
verify_iff hash plaintext stored_hash = (
  λ h. (difference-eq-zero 0 (hash plaintext) stored_hash (ground arith) (ground arith)).1,
  λ e. rw (← e) (rw (difference_self (hash plaintext)) (ground arith)),
)
