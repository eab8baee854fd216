-- ===== src/Prelude/Bits.antt =====
-- When the bitwise or and the bitwise difference of two numbers are zero.
use Prim.Native.Nat.{
  ℕ, zero, suc, ◌/◌, ◌%◌, ◌≤◌, max, digits, differ, bit_or, bit_xor, bit_or-bitwise,
  bit_xor-bitwise,
}
use native.Mathlib.Nat.{le_refl}
use mathlib.Core.Path.{◌≡◌, refl, ap}
use mathlib.Core.Logic.{◌↔◌}
use native.Mathlib.Omega.{arith}

differ-eq-zero : (x y : ℕ) → differ x y ≡ 0 → x ≡ y
differ-eq-zero zero y h = omega arith
differ-eq-zero (suc x) zero h = h
differ-eq-zero (suc x) (suc y) h = ap suc (differ-eq-zero x y h)

differ_self : (x : ℕ) → differ x x ≡ 0
differ_self zero = refl
differ_self (suc x) = differ_self x

xor_digits : (n a b : ℕ) → a ≤ n → digits (λ y. y) differ n a b ≡ 0 → a ≡ b
xor_digits zero zero b p h = omega arith
xor_digits zero (suc a) b p h = absurd (omega arith)
xor_digits (suc n) zero b p h = omega arith
xor_digits (suc n) (suc a) b p h =
    let high : suc a / 2 ≡ b / 2 = xor_digits n (suc a / 2) (b / 2) (omega arith) (omega arith) in
    let low : suc a % 2 ≡ b % 2 = differ-eq-zero (suc a % 2) (b % 2) (omega arith) in omega arith

xor_digits_self : (n a : ℕ) → a ≤ n → digits (λ y. y) differ n a a ≡ 0
xor_digits_self zero zero p = refl
xor_digits_self zero (suc a) p = absurd (omega arith)
xor_digits_self (suc n) zero p = refl
xor_digits_self (suc n) (suc a) p =
    omega (arith, xor_digits_self n (suc a / 2) (omega arith), differ_self (suc a % 2))

pub bit_xor-eq-zero_iff : (a b : ℕ) → (bit_xor a b ≡ 0) ↔ (a ≡ b)
bit_xor-eq-zero_iff a b = (
  λ h. xor_digits a a b (le_refl a) (omega (arith, bit_xor-bitwise a b)),
  λ e. rw (← e) (omega (arith, bit_xor-bitwise a a, xor_digits_self a a (le_refl a))),
)

or_digits : (n a b : ℕ) → a ≤ n → digits (λ y. y) max n a b ≡ 0 → (a ≡ 0) × (b ≡ 0)
or_digits zero zero b p h = (refl, h)
or_digits zero (suc a) b p h = absurd (omega arith)
or_digits (suc n) zero b p h = (refl, h)
or_digits (suc n) (suc a) b p h =
    let (high_a, high_b) = or_digits n (suc a / 2) (b / 2) (omega arith) (omega arith) in
    (omega arith, omega arith)

pub bit_or-eq-zero_iff : (a b : ℕ) → (bit_or a b ≡ 0) ↔ ((a ≡ 0) × (b ≡ 0))
bit_or-eq-zero_iff a b =
    (λ h. or_digits a a b (le_refl a) (omega (arith, bit_or-bitwise a b)), λ e. rw (e.0, e.1) refl)
