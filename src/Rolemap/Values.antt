-- ===== src/Rolemap/Values.antt =====
-- The attributes of a user, and the path lookup in them.
use uigraph_api.Prelude.{
  ℕ, zero, suc, String, Bool, true, false, Option, none, some, List, [], ◌∷◌, ◌==◌, if◌then◌else◌,
}
use uigraph_api.Prelude.Text.{cut}
use uigraph_api.Identity.Token.{len}

-- A value of type `any`: nil, a string, a []string, a []any, a map[string]any, or another value,
-- of which only its printed form is used.
mutual
  pub data Attribute : Type 0 where
    nil : Attribute
    text : String → Attribute
    texts : List String → Attribute
    items : Items → Attribute
    nested : Attributes → Attribute
    other : String → Attribute

  pub data Items : Type 0 where
    none_left : Items
    item : Attribute → Items → Items

  pub data Attributes : Type 0 where
    empty : Attributes
    entry : String → Attribute → Attributes → Attributes

unfoldable pub get : String → Attributes → Option Attribute
get key empty = none
get key (entry k v rest) = if k == key then some v else get key rest

unfoldable pub is_present : Attribute → Bool
is_present nil = false
is_present _ = true

-- One call of Lookup, with `again` for the call on nested attributes.
abbrev pub in_nested : (Attributes → Attribute) → Bool → Attribute → Attribute
in_nested again false v = v
in_nested again true (nested attrs) = again attrs
in_nested again true v = nil

abbrev pub by_path : (Attributes → Attribute) → Bool → Option Attribute → Attribute
by_path again more none = nil
by_path again more (some v) = in_nested again more v

-- A key is looked up whole, then by its part before the first dot. Each nested call has a shorter
-- key, so that the length of the key bounds the depth.
unfoldable pub lookup_fuel : ℕ → Attributes → String → Attribute
lookup_fuel zero attrs key = nil
lookup_fuel (suc fuel) attrs key = elim (get key attrs) [
  | some v ↦ v
  | none ↦
      by_path (λ inner. lookup_fuel fuel inner (cut b'.' key).after) (cut b'.' key).found
        (get (cut b'.' key).before attrs)
]

unfoldable pub lookup : Attributes → String → Attribute
unfolding lookup_fuel
lookup attrs key = lookup_fuel (suc (len key)) attrs key

module _ (show : Attribute → String) where
  unfoldable pub item_texts : Items → List String
  item_texts none_left = []
  item_texts (item nil rest) = item_texts rest
  item_texts (item (text s) rest) = s ∷ item_texts rest
  item_texts (item v rest) = show v ∷ item_texts rest

  unfoldable pub string_values : Attribute → List String
  unfolding item_texts
  string_values nil = []
  string_values (text s) = s ∷ []
  string_values (texts ss) = ss
  string_values (items xs) = item_texts xs
  string_values v = show v ∷ []
