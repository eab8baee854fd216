-- ===== src/Identity/Token.antt =====
-- internal/identity/token.go: API tokens. The digest `sha256` in lower-case hexadecimal is a
-- parameter; plaintexts and hashes are ASCII, so that a character is a byte.
pub mod Verified
use Prim.Native.Nat.{bit_or, bit_xor}
use Prim.Native.String.{[], ◌∷◌}
use uigraph_api.Prelude.{
  ℕ, zero, suc, ◌+◌, String, Bool, true, false, nat_beq, code, ltb, if◌then◌else◌,
}

-- `len` of an ASCII text
abbrev pub len : String → ℕ
len [] = 0
len (c ∷ s) = suc (len s)

-- `s[:n]`
abbrev pub take : ℕ → String → String
take zero s = []
take (suc n) [] = []
take (suc n) (c ∷ s) = c ∷ take n s

abbrev pub prefix_len : ℕ
prefix_len = 12

unfoldable pub prefix : String → String
prefix plaintext = if ltb (len plaintext) prefix_len then plaintext else take prefix_len plaintext

-- The loop of Verify over two texts of one length: every byte is read, whatever the first ones say.
unfoldable pub difference : ℕ → String → String → ℕ
difference diff [] stored = diff
difference diff (c ∷ computed) [] = diff
difference diff (c ∷ computed) (d ∷ stored) =
    difference (bit_or diff (bit_xor (code c) (code d))) computed stored

unfoldable pub verify : (String → String) → String → String → Bool
verify hash plaintext stored_hash =
    let computed = hash plaintext in
    if nat_beq (len computed) (len stored_hash)
    then nat_beq (difference 0 computed stored_hash) 0
    else false
