-- ===== src/Listing.antt =====
-- internal/httputil/list.go: the limit and the offset of a listing. `strconv.Atoi` is a parameter,
-- none on an error.
pub mod Bounds
use uigraph_api.Prelude.{String, Bool, true, false, Option, none, some, ◌==◌, if◌then◌else◌}
use uigraph_api.Prelude.Int.{ℤ, pos, lt_int}
use uigraph_api.Prelude.Text.{trim_space}

abbrev pub default_limit : ℤ
default_limit = pos 24

abbrev pub max_limit : ℤ
max_limit = pos 100

abbrev pub clamped : Option ℤ → ℤ
clamped none = default_limit
clamped (some n) =
    if lt_int n (pos 1) then default_limit else if lt_int max_limit n then max_limit else n

abbrev pub not_negative : Option ℤ → ℤ
not_negative none = pos 0
not_negative (some n) = if lt_int n (pos 0) then pos 0 else n

module _ (atoi : String → Option ℤ) where
  unfoldable pub list_limit : String → ℤ
  list_limit raw = if raw == "" then default_limit else clamped (atoi raw)

  unfoldable pub list_offset : String → ℤ
  list_offset raw = if raw == "" then pos 0 else not_negative (atoi raw)

-- The value of a query parameter, none if nothing but spaces is left of it.
unfoldable pub exact : String → Option String
exact value = if trim_space value == "" then none else some (trim_space value)
