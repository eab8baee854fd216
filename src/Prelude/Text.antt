-- ===== src/Prelude/Text.antt =====
-- What the server uses of the Go package strings, over texts as lists of code points.
use Prim.Native.Nat.{ℕ, ◌+◌}
use Prim.Native.Char.{Char, code, len_utf8}
use Prim.Native.String.{String, [], ◌∷◌}
use mathlib.Core.List.{List}
use mathlib.Core.Option.{Option, none, some}
use mathlib.Core.Bool.{Bool, true, false, ◌&&◌, ◌||◌}
use text.Mathlib.Text.{◌==◌}
use uigraph_api.Prelude.Lists.{change_first}
use uigraph_api.Prelude.Tests.{leb, nat_beq, if◌then◌else◌}

-- The results of `strings.Cut(s, sep)` for a separator of one character.
pub record Parts : Type 0 where
  pub before : String
  pub after : String
  pub found : Bool

abbrev pub prepend : Char → Parts → Parts
prepend c p = record p { before = c ∷ p.before }

unfoldable pub cut : ℕ → String → Parts
cut sep [] = record { before = []; after = []; found = false }
cut sep (c ∷ s) =
    if nat_beq (code c) sep
    then record { before = []; after = s; found = true }
    else prepend c (cut sep s)

-- `unicode.IsSpace`
unfoldable pub is_space : Char → Bool
is_space c =
    (leb 9 (code c) && leb (code c) 13)
    || nat_beq (code c) 32
    || nat_beq (code c) 0x85
    || nat_beq (code c) 0xa0
    || nat_beq (code c) 0x1680
    || (leb 0x2000 (code c) && leb (code c) 0x200a)
    || nat_beq (code c) 0x2028
    || nat_beq (code c) 0x2029
    || nat_beq (code c) 0x202f
    || nat_beq (code c) 0x205f
    || nat_beq (code c) 0x3000

unfoldable pub trim_left : String → String
unfolding is_space
trim_left [] = []
trim_left (c ∷ s) = if is_space c then trim_left s else c ∷ s

-- A character before a trimmed rest: a space is dropped if nothing follows it.
abbrev pub keep_before : Char → String → String
keep_before c [] = if is_space c then [] else c ∷ []
keep_before c (d ∷ s) = c ∷ d ∷ s

unfoldable pub trim_right : String → String
unfolding is_space
trim_right [] = []
trim_right (c ∷ s) = keep_before c (trim_right s)

-- `strings.TrimSpace`
unfoldable pub trim_space : String → String
unfolding trim_left trim_right
trim_space s = trim_right (trim_left s)

-- `strings.HasPrefix(s, prefix)`
unfoldable pub has_prefix : String → String → Bool
has_prefix s [] = true
has_prefix [] (d ∷ prefix) = false
has_prefix (c ∷ s) (d ∷ prefix) = nat_beq (code c) (code d) && has_prefix s prefix

-- `strings.HasSuffix(s, suffix)`: some end of `s` is `suffix`
unfoldable pub has_suffix : String → String → Bool
has_suffix [] suffix = suffix == []
has_suffix (c ∷ s) suffix = (c ∷ s) == suffix || has_suffix s suffix

-- `strings.Contains(s, part)`
unfoldable pub contains_text : String → String → Bool
unfolding has_prefix
contains_text [] part = part == []
contains_text (c ∷ s) part = has_prefix (c ∷ s) part || contains_text s part

-- `strings.Split(s, sep)` for a separator of one character.
unfoldable pub split : ℕ → String → List String
split sep [] = List.◌∷◌ [] List.[]
split sep (c ∷ s) =
    let parts = split sep s in
    if nat_beq (code c) sep then List.◌∷◌ [] parts else change_first (λ part. c ∷ part) parts

-- What is before and after the last separator, none if there is no separator.
abbrev pub before_rest : Char → ℕ → String → Option (String × String) → Option (String × String)
before_rest c sep s (some p) = some (c ∷ p.0, p.1)
before_rest c sep s none = if nat_beq (code c) sep then some ([], s) else none

unfoldable pub cut_last : ℕ → String → Option (String × String)
cut_last sep [] = none
cut_last sep (c ∷ s) = before_rest c sep s (cut_last sep s)

-- `strings.ToLower`, over the table of `unicode.ToLower`.
unfoldable pub to_lower : (Char → Char) → String → String
to_lower lower [] = []
to_lower lower (c ∷ s) = lower c ∷ to_lower lower s

-- `strings.TrimPrefix(s, p)` for a prefix of one character.
unfoldable pub trim_first : ℕ → String → String
trim_first p [] = []
trim_first p (c ∷ s) = if nat_beq (code c) p then s else c ∷ s

unfoldable pub all_chars : (Char → Bool) → String → Bool
all_chars p [] = true
all_chars p (c ∷ s) = p c && all_chars p s

-- `len(s)`, in bytes
unfoldable pub byte_len : String → ℕ
byte_len [] = 0
byte_len (c ∷ s) = len_utf8 c + byte_len s

unfoldable pub some_char : (Char → Bool) → String → Bool
some_char p [] = false
some_char p (c ∷ s) = p c || some_char p s

-- The number of characters, as the database counts.
unfoldable pub char_len : String → ℕ
char_len [] = 0
char_len (c ∷ s) = 1 + char_len s
