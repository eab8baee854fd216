-- ===== src/Accounts/Table.antt =====
-- The rows of the table of service accounts under the changes that the store makes.
use uigraph_api.Prelude.{
  String, Bool, true, false, some, List, [], ◌∷◌, ◌≡◌, refl, ◌==◌, eq_iff, arith, any, all, filter,
  find, All, All-map, ap, if◌then◌else◌, Bool-cases, inl, inr,
}
use uigraph_api.Db.{Db, ServiceAccount}
use uigraph_api.Authz.Scope.{valid_scope}
use uigraph_api.Store.Tables.{update_where, insert, All-insert, All-update_where, find-holds}
use uigraph_api.Store.Accounts.{is_live}
use uigraph_api.Accounts.{known_scopes}

abbrev pub DiffersFrom : ServiceAccount → ServiceAccount → Type 0
DiffersFrom a b = (a.id == b.id) ≡ false

-- No two rows have one id.
abbrev pub UniqueIds : List ServiceAccount → Type 0
UniqueIds [] = Unit
UniqueIds (a ∷ rows) = All (DiffersFrom a) rows × UniqueIds rows

abbrev pub internal_rows : List ServiceAccount → List ServiceAccount
internal_rows rows = filter (λ sa. sa.is_internal) rows

abbrev pub HasValidScopes : ServiceAccount → Type 0
HasValidScopes sa = all valid_scope sa.scopes ≡ true

-- The built-in accounts are `builtin`, the ids are unique and the scopes are valid.
pub record IsSound (builtin : List ServiceAccount) (db : Db) : Type 0 where
  pub unique : UniqueIds db.accounts
  pub scoped : All HasValidScopes db.accounts
  pub kept : internal_rows db.accounts ≡ builtin

pub known_scopes-IsValid : (scopes : List String) → all valid_scope (known_scopes scopes) ≡ true
unfolding known_scopes
known_scopes-IsValid [] = refl
known_scopes-IsValid (s ∷ scopes) = ground (arith, known_scopes-IsValid scopes)

-- A change of rows that leaves their ids and the built-in mark alone.
module _ (p : ServiceAccount → Bool) (f : ServiceAccount → ServiceAccount)
    (same_id : (sa : ServiceAccount) → (f sa).id ≡ sa.id) where
  DiffersFrom-update_where :
      (a : ServiceAccount) (rows : List ServiceAccount)
      → All (DiffersFrom a) rows
      → All (DiffersFrom a) (update_where p f rows)
  DiffersFrom-update_where a rows h =
      All-update_where (DiffersFrom a) p f rows (λ x _ d. rw (same_id x) d) h

  changed_id : (a : ServiceAccount) → (if p a then f a else a).id ≡ a.id
  changed_id a = ground (arith, same_id a)

  pub UniqueIds-update_where :
      (rows : List ServiceAccount) → UniqueIds rows → UniqueIds (update_where p f rows)
  unfolding update_where
  UniqueIds-update_where [] h = tt
  UniqueIds-update_where (a ∷ rows) (h, hs) = (
    All-map (λ x d. rw (changed_id a) d) (update_where p f rows)
        (DiffersFrom-update_where a rows h),
    UniqueIds-update_where rows hs,
  )

  pub internal-update_where :
      ((sa : ServiceAccount) → (f sa).is_internal ≡ sa.is_internal)
      → (rows : List ServiceAccount) → All (λ sa. p sa ≡ true → sa.is_internal ≡ false) rows
      → internal_rows (update_where p f rows) ≡ internal_rows rows
  unfolding update_where
  internal-update_where same [] h = refl
  internal-update_where same (a ∷ rows) (h, hs) =
      ground (arith, same a, internal-update_where same rows hs)

-- With unique ids, every row of the id of a live row has the mark of that row.
pub mark_of_id :
    (id : String) (rows : List ServiceAccount) (sa : ServiceAccount)
    → UniqueIds rows
    → find (is_live id) rows ≡ some sa
    → All (λ x. (x.id == id) ≡ true → x.is_internal ≡ sa.is_internal) rows
mark_of_id id [] sa u e = tt
mark_of_id id (a ∷ rows) sa (d, u) e = elim (Bool-cases (is_live id a)) [
  | inl live ↦
      let same : a ≡ sa = ground arith in
      (
        λ _. ap (λ x. x.is_internal) same,
        All-map
            (λ x differs named.
              absurd (ground (arith, eq_iff a.id id, eq_iff a.id x.id, eq_iff x.id id)))
            rows d,
      )
  | inr other ↦
      let (differs, live) = find-holds (DiffersFrom a) (is_live id) rows sa (ground arith) d in
      (
        λ named. absurd (ground (arith, eq_iff a.id id, eq_iff a.id sa.id, eq_iff sa.id id)),
        mark_of_id id rows sa u (ground arith),
      )
]

-- A new row that no row clashes with.
pub UniqueIds-insert :
    (sa : ServiceAccount) (rows : List ServiceAccount)
    → any (λ row. row.id == sa.id) rows ≡ false
    → UniqueIds rows
    → UniqueIds (insert sa rows)
UniqueIds-insert sa [] h u = (tt, tt)
UniqueIds-insert sa (a ∷ rows) h (d, u) =
    (All-insert (DiffersFrom a) sa rows (ground arith) d, UniqueIds-insert sa rows (ground arith) u)

pub internal-insert :
    (sa : ServiceAccount) (rows : List ServiceAccount)
    → sa.is_internal ≡ false
    → internal_rows (insert sa rows) ≡ internal_rows rows
internal-insert sa [] h = ground arith
internal-insert sa (a ∷ rows) h = ground (arith, internal-insert sa rows h)
