-- ===== src/Rolemap/Paths.antt =====
-- The lookup by a dotted key.
use Prim.Native.String.{[], ◌∷◌}
use uigraph_api.Prelude.{
  ℕ, zero, suc, String, Bool, true, false, Option, none, some, ◌≡◌, ◌⊎◌, inl, inr, refl, sym, subst,
  arith, ◌∙◌, ◌<◌, ap, Bool-cases, Option-cases,
}
use uigraph_api.Prelude.Text.{cut}
use uigraph_api.Identity.Token.{len}
use uigraph_api.Rolemap.Values.{
  Attribute, Attributes, nil, nested, text, texts, items, other, get, lookup_fuel, lookup,
  in_nested, by_path,
}

-- A value under a key: the one under the whole key, or, if there is none, one under what follows the
-- first dot in the attributes under what precedes it.
pub data Finds : Attributes → String → Attribute → Type 0 where
  whole :
      {attrs : Attributes} {key : String} {v : Attribute}
      → get key attrs ≡ some v
      → Finds attrs key v
  below :
      {attrs inner : Attributes} {key : String} {v : Attribute}
      → get key attrs ≡ none
      → (cut b'.' key).found ≡ true
      → get (cut b'.' key).before attrs ≡ some (nested inner)
      → Finds inner (cut b'.' key).after v
      → Finds attrs key v

cut_shorter : (sep : ℕ) (s : String) → (cut sep s).found ≡ true → len (cut sep s).after < len s
unfolding cut
cut_shorter sep [] h = absurd (ground arith)
cut_shorter sep (c ∷ s) h = ground (arith, cut_shorter sep s)

cut_whole : (sep : ℕ) (s : String) → (cut sep s).found ≡ false → (cut sep s).before ≡ s
unfolding cut
cut_whole sep [] h = refl
cut_whole sep (c ∷ s) h = ground (arith, cut_whole sep s)

-- The lookup of a key that has no value as a whole.
step_below :
    (n : ℕ) (attrs : Attributes) (key : String)
    → get key attrs ≡ none
    → (found : Bool) (o : Option Attribute) → (cut b'.' key).found ≡ found
    → get (cut b'.' key).before attrs ≡ o
    → lookup_fuel (suc n) attrs key
      ≡ by_path (λ inner. lookup_fuel n inner (cut b'.' key).after) found o
unfolding lookup_fuel
step_below n attrs key missing found o is_found is_o =
    let again : Attributes → Attribute = λ inner. lookup_fuel n inner (cut b'.' key).after in
    let path : Attribute = by_path again (cut b'.' key).found (get (cut b'.' key).before attrs) in
    ap (λ r. elim r [ some v ↦ v | none ↦ path ]) missing
    ∙ ap (λ b. by_path again b (get (cut b'.' key).before attrs)) is_found
    ∙ ap (by_path again found) is_o

step_whole :
    (n : ℕ) (attrs : Attributes) (key : String) (v : Attribute)
    → get key attrs ≡ some v
    → lookup_fuel (suc n) attrs key ≡ v
unfolding lookup_fuel
step_whole n attrs key v e =
    ap
      (λ r. elim r [
        | some v ↦ v
        | none ↦
            by_path (λ inner. lookup_fuel n inner (cut b'.' key).after) (cut b'.' key).found
              (get (cut b'.' key).before attrs)
      ])
      e

fuel_complete :
    (n : ℕ) (attrs : Attributes) (key : String) (v : Attribute)
    → Finds attrs key v
    → len key < n
    → lookup_fuel n attrs key ≡ v
unfolding lookup_fuel
fuel_complete zero attrs key v f short = absurd (omega arith)
fuel_complete (suc n) attrs key v (whole e) short = step_whole n attrs key v e
fuel_complete (suc n) attrs key v (below {inner = inner} e more under f) short =
    let shorter = cut_shorter b'.' key more in
    step_below n attrs key e true (some (nested inner)) more under
    ∙ fuel_complete n inner (cut b'.' key).after v f (omega arith)

-- What a value below other attributes rests on.
below_of :
    (attrs : Attributes) (key : String) (v : Attribute)
    → Finds attrs key v
    → get key attrs ≡ none
    → (inner : Attributes) × ((cut b'.' key).found ≡ true)
      × (get (cut b'.' key).before attrs ≡ some (nested inner))
      × Finds inner (cut b'.' key).after v
below_of attrs key v (whole e) missing = absurd (ground arith)
below_of attrs key v (below {inner = inner} e more under f) missing = (inner, more, under, f)

-- The nested attributes of a value, if it is a map.
abbrev map_of : Attribute → Option Attributes
map_of (nested attrs) = some attrs
map_of _ = none

map_of-some : (v : Attribute) (inner : Attributes) → map_of v ≡ some inner → v ≡ nested inner
map_of-some (nested attrs) inner e = ground (arith, e)
map_of-some nil inner e = absurd (ground arith)
map_of-some (text s) inner e = absurd (ground arith)
map_of-some (texts ss) inner e = absurd (ground arith)
map_of-some (items xs) inner e = absurd (ground arith)
map_of-some (other s) inner e = absurd (ground arith)

no_map :
    (again : Attributes → Attribute) (v : Attribute)
    → map_of v ≡ none
    → in_nested again true v ≡ nil
no_map again nil e = refl
no_map again (text s) e = refl
no_map again (texts ss) e = refl
no_map again (items xs) e = refl
no_map again (other s) e = refl
no_map again (nested attrs) e = absurd (ground arith)

-- Nothing is found where a step to nested attributes is needed and there is none.
nothing :
    (attrs : Attributes) (key : String)
    → get key attrs ≡ none
    → ((inner : Attributes)
        → (cut b'.' key).found ≡ true
        → get (cut b'.' key).before attrs ≡ some (nested inner)
        → (v : Attribute) → ¬ Finds inner (cut b'.' key).after v)
    → (v : Attribute) → ¬ Finds attrs key v
nothing attrs key missing empty v f =
    let (inner, more, under, g) = below_of attrs key v f missing in empty inner more under v g

flat_map : (i : Attributes) (v : Attribute) → some v ≡ some (nested i) → map_of v ≡ none → ⊥
flat_map i v e flat =
    let same : v ≡ nested i = ground arith in absurd (ground (arith, ap map_of same, flat))

same_map :
    (i j : Attributes) → ◌≡◌ {A = Option Attribute} (some (nested i)) (some (nested j)) → i ≡ j
same_map i j e = ground arith

fuel_sound :
    (n : ℕ) (attrs : Attributes) (key : String)
    → len key < n
    → Finds attrs key (lookup_fuel n attrs key)
      ⊎ ((lookup_fuel n attrs key ≡ nil) × ((v : Attribute) → ¬ Finds attrs key v))
unfolding lookup_fuel
fuel_sound zero attrs key short = absurd (omega arith)
fuel_sound (suc n) attrs key short = elim (Option-cases (get key attrs)) [
  | inr (v, e) ↦ inl (subst (Finds attrs key) (sym (step_whole n attrs key v e)) (whole e))
  | inl missing ↦ elim (Bool-cases (cut b'.' key).found) [
    | inr last ↦
        let absent : get (cut b'.' key).before attrs ≡ none =
          subst (λ k. get k attrs ≡ none) (sym (cut_whole b'.' key last)) missing in
        inr (
          step_below n attrs key missing false none last absent,
          nothing attrs key missing (λ i more u v f. absurd (ground arith)),
        )
    | inl more ↦ elim (Option-cases (get (cut b'.' key).before attrs)) [
      | inl absent ↦ inr (
        step_below n attrs key missing true none more absent,
        nothing attrs key missing (λ i m u v f. absurd (ground arith)),
      )
      | inr (value, under) ↦ elim (Option-cases (map_of value)) [
        | inl flat ↦ inr (
          step_below n attrs key missing true (some value) more under ∙ no_map _ value flat,
          nothing attrs key missing
              (λ i m u v f. absurd (ground (arith, flat_map i value (sym under ∙ u) flat))),
        )
        | inr (inner, deeper) ↦
            let is_map : get (cut b'.' key).before attrs ≡ some (nested inner) =
              under ∙ ap some (map_of-some value inner deeper) in
            let shorter = cut_shorter b'.' key more in
            elim (fuel_sound n inner (cut b'.' key).after (omega arith)) [
              | inl f ↦ inl (
                  subst (Finds attrs key)
                    (sym (step_below n attrs key missing true (some (nested inner)) more is_map))
                    (below missing more is_map f))
              | inr (is_nil, unfound) ↦ inr (
                step_below n attrs key missing true (some (nested inner)) more is_map ∙ is_nil,
                nothing attrs key missing (λ i m u v f. unfound v (
                    subst (λ x. Finds x (cut b'.' key).after v) (same_map i inner (sym u ∙ is_map))
                      f)),
              )
            ]
      ]
    ]
  ]
]

-- Lookup returns the value that is found under a key, where one is, and nil where none is: no key has
-- two. The lookup of a key takes as many steps as it has characters at most, so that it ends.
pub lookup-Finds :
    (attrs : Attributes) (key : String)
    → ((v : Attribute) → Finds attrs key v → lookup attrs key ≡ v)
      × (Finds attrs key (lookup attrs key)
          ⊎ ((lookup attrs key ≡ nil) × ((v : Attribute) → ¬ Finds attrs key v)))
unfolding lookup
lookup-Finds attrs key = (
  λ v f. fuel_complete (suc (len key)) attrs key v f (omega arith),
  fuel_sound (suc (len key)) attrs key (omega arith),
)
