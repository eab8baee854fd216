-- ===== src/Store/Graph/Paths.antt =====
-- Lists of service names without repetitions, and the rows that carry them.
use uigraph_api.Prelude.{
  String, true, false, ◌||◌, List, [], ◌∷◌, ◌++◌, ◌≡◌, refl, ◌==◌, eq_iff, ap, inl, inr, arith, map,
  contains, All, In, Bool-cases, subst,
}
use uigraph_api.Store.Graph.{WalkRow, distinct, add_new}

-- Lists of texts without repetitions.
abbrev pub Distinct : List String → Type 0
Distinct [] = Unit
Distinct (x ∷ xs) = (contains xs x ≡ false) × Distinct xs

abbrev pub ids : List WalkRow → List String
ids rows = map (λ w. w.service_id) rows

contains-add_new :
    (a x : String) (xs : List String) → contains (add_new x xs) a ≡ (x == a || contains xs a)
contains-add_new a x xs = elim (Bool-cases (contains xs x)) [
  | inl old ↦ elim (Bool-cases (x == a)) [
    | inl same ↦
        let e : x ≡ a = ground (arith, same, eq_iff x a) in
        ground (arith, old, subst (λ y. contains xs y ≡ true) e old, same)
    | inr other ↦ ground (arith, old, other)
  ]
  | inr new ↦ ground (arith, new)
]

pub contains-distinct : (a : String) (xs : List String) → contains (distinct xs) a ≡ contains xs a
unfolding distinct
contains-distinct a [] = refl
contains-distinct a (x ∷ xs) =
    ground (arith, contains-add_new a x (distinct xs), contains-distinct a xs)

contains-append :
    (a : String) (xs ys : List String) → contains (xs ++ ys) a ≡ (contains xs a || contains ys a)
contains-append a [] ys = refl
contains-append a (x ∷ xs) ys = ground (arith, contains-append a xs ys)

pub ids-append :
    (a : String) (xs ys : List WalkRow)
    → contains (ids (xs ++ ys)) a ≡ (contains (ids xs) a || contains (ids ys) a)
ids-append a [] ys = refl
ids-append a (x ∷ xs) ys = ground (arith, ids-append a xs ys)

pub In-append_left : {A : Type 0} (a : A) (xs ys : List A) → In a xs → In a (xs ++ ys)
In-append_left a [] ys i = elim i [ ]
In-append_left a (x ∷ xs) ys (inl e) = inl e
In-append_left a (x ∷ xs) ys (inr i) = inr (In-append_left a xs ys i)

pub In-append_right : {A : Type 0} (a : A) (xs ys : List A) → In a ys → In a (xs ++ ys)
In-append_right a [] ys i = i
In-append_right a (x ∷ xs) ys i = inr (In-append_right a xs ys i)

pub In-ids :
    (rows : List WalkRow) (w : WalkRow) → In w rows → contains (ids rows) w.service_id ≡ true
In-ids [] w i = elim i [ ]
In-ids (v ∷ vs) w (inl e) =
    let same : v.service_id ≡ w.service_id = ap (λ (u : WalkRow). u.service_id) e in
    ground (arith, same, eq_iff v.service_id w.service_id)
In-ids (v ∷ vs) w (inr i) = ground (arith, In-ids vs w i)

pub avoids :
    (path : List String) (c : String) (cs : List String)
    → contains cs c ≡ false
    → All (λ x. contains path x ≡ false) cs
    → All (λ x. contains (path ++ c ∷ []) x ≡ false) cs
avoids path c [] once new = tt
avoids path c (x ∷ xs) once (n, ns) = (
  ground (arith, n, contains-append x path (c ∷ []), eq_iff c x, eq_iff x c),
  avoids path c xs (ground arith) ns,
)

pub apart :
    (a : String) (cs : List String)
    → contains cs a ≡ false
    → All (λ x. contains (a ∷ []) x ≡ false) cs
apart a [] h = tt
apart a (x ∷ xs) h = (ground (arith, eq_iff a x, eq_iff x a), apart a xs (ground arith))
