-- ===== src/Store/Tables.antt =====
-- Changes of a table: a table is the list of its rows in the order of insertion.
use uigraph_api.Prelude.{
  ◌≡◌, refl, Bool, true, List, [], ◌∷◌, ◌++◌, none, some, Option, String, false, arith, find,
  if◌then◌else◌, All, subst, Bool-cases, inl, inr,
}

-- A nullable reference to a row: whether the row is one of some, and what is left of it, by
-- `ON DELETE SET NULL`, when they go.
abbrev pub refers : (String → Bool) → Option String → Bool
refers p none = false
refers p (some id) = p id

abbrev pub set_null : (String → Bool) → Option String → Option String
set_null p none = none
set_null p (some id) = if p id then none else some id

module _ {A : Type 0} where
  -- `UPDATE … SET … WHERE …`
  unfoldable pub update_where : (A → Bool) → (A → A) → List A → List A
  update_where p f [] = []
  update_where p f (x ∷ xs) = (if p x then f x else x) ∷ update_where p f xs

  -- `DELETE FROM … WHERE …`
  unfoldable pub delete_where : (A → Bool) → List A → List A
  delete_where p [] = []
  delete_where p (x ∷ xs) = if p x then delete_where p xs else x ∷ delete_where p xs

  -- `INSERT INTO … VALUES …`
  abbrev pub insert : A → List A → List A
  insert x xs = xs ++ x ∷ []

  pub All-insert : (P : A → Type 0) (x : A) (xs : List A) → P x → All P xs → All P (insert x xs)
  All-insert P x [] h k = (h, tt)
  All-insert P x (y ∷ xs) h (k, ks) = (k, All-insert P x xs h ks)

  pub All-update_where :
      (P : A → Type 0) (p : A → Bool) (f : A → A) (xs : List A)
      → ((x : A) → p x ≡ true → P x → P (f x))
      → All P xs
      → All P (update_where p f xs)
  unfolding update_where
  All-update_where P p f [] k h = tt
  All-update_where P p f (x ∷ xs) k (h, hs) = (ground (arith, k x), All-update_where P p f xs k hs)

  pub All-delete_where :
      (P : A → Type 0) (p : A → Bool) (xs : List A) → All P xs → All P (delete_where p xs)
  unfolding delete_where
  All-delete_where P p [] h = tt
  All-delete_where P p (x ∷ xs) (h, hs) = ground (arith, All-delete_where P p xs hs)

  -- A row that is found is in the table, and passes the test.
  pub find-holds :
      (P : A → Type 0) (p : A → Bool) (xs : List A) (a : A)
      → find p xs ≡ some a
      → All P xs
      → P a × (p a ≡ true)
  find-holds P p [] a e h = cc
  find-holds P p (x ∷ xs) a e (h, hs) = elim (Bool-cases (p x)) [
    | inl t ↦ let same : x ≡ a = ground arith in (subst P same h, subst (λ y. p y ≡ true) same t)
    | inr f ↦ find-holds P p xs a (ground arith) hs
  ]

  pub find-test : (p : A → Bool) (xs : List A) (a : A) → find p xs ≡ some a → p a ≡ true
  find-test p [] a e = cc
  find-test p (x ∷ xs) a e = elim (Bool-cases (p x)) [
    | inl t ↦ let same : x ≡ a = ground arith in subst (λ y. p y ≡ true) same t
    | inr f ↦ find-test p xs a (ground arith)
  ]

  -- An update that keeps the test: the row that is found is the row that was found, changed.
  pub find-update_where :
      (p q : A → Bool) (f : A → A) (xs : List A)
      → ((x : A) → q (f x) ≡ q x)
      → find q (update_where p f xs)
        ≡ elim (find q xs) [ none ↦ none | some a ↦ some (if p a then f a else a) ]
  unfolding update_where
  find-update_where p q f [] k = refl
  find-update_where p q f (x ∷ xs) k = ground (arith, k x, find-update_where p q f xs k)
