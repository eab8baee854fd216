-- ===== src/Catalog/Targets.antt =====
-- The rows of dependencies whose resolved service is one of the catalog.
use uigraph_api.Prelude.{
  ℕ, String, Bool, true, false, not, ◌&&◌, Option, none, some, List, [], ◌∷◌, ◌≡◌, ◌==◌, eq_iff,
  refl, subst, sym, arith, any, find, All, All-map, Bool-cases, Option-cases, inl, inr,
}
use uigraph_api.Http.{Error}
use uigraph_api.Db.{Db, Service, Dependency}
use uigraph_api.Exec.{Result, ok, err}
use uigraph_api.Store.Tables.{update_where, insert, All-insert, All-update_where}
use uigraph_api.Store.Services.{adopted, waits_for, is_active}
use uigraph_api.Store.Dependencies.{
  DependencyInput, Sync, cleared, has_key, is_own, resolved, upserted, inserted, upsert_all,
  rows_or,
}
use uigraph_api.Catalog.Upserted.{upsert_rest}

abbrev pub has_service : List Service → String → Bool
has_service services id = any (λ s. s.id == id) services

-- A dependency that is resolved names a service of the catalog, and not its own.
abbrev pub target_fine : List Service → String → Option String → Bool
target_fine services own none = true
target_fine services own (some id) = has_service services id && not (id == own)

abbrev pub IsFine : List Service → Dependency → Type 0
IsFine services d = target_fine services d.service_id d.dependency_id ≡ true

pub record IsResolved (db : Db) : Type 0 where
  pub targets :
      All (λ d. target_fine db.services d.service_id d.dependency_id ≡ true) db.dependencies

has_service-insert :
    (s : Service) (services : List Service) (id : String)
    → has_service services id ≡ true
    → has_service (insert s services) id ≡ true
has_service-insert s [] id h = absurd (ground arith)
has_service-insert s (x ∷ xs) id h = ground (arith, has_service-insert s xs id)

has_service-own :
    (s : Service) (services : List Service) → has_service (insert s services) s.id ≡ true
has_service-own s [] = ground (arith, eq_iff s.id s.id)
has_service-own s (x ∷ xs) = ground (arith, has_service-own s xs)

has_service-update :
    (p : Service → Bool) (f : Service → Service) (services : List Service) (id : String)
    → ((s : Service) → (f s).id ≡ s.id)
    → has_service (update_where p f services) id ≡ has_service services id
unfolding update_where
has_service-update p f [] id same = refl
has_service-update p f (s ∷ services) id same =
    ground (arith, same s, has_service-update p f services id same)

fine-insert :
    (s : Service) (services : List Service) (own : String) (target : Option String)
    → target_fine services own target ≡ true
    → target_fine (insert s services) own target ≡ true
fine-insert s services own none h = refl
fine-insert s services own (some id) h = ground (arith, h, has_service-insert s services id)

pub fine-update :
    (p : Service → Bool) (f : Service → Service) (services : List Service) (own : String)
    (target : Option String)
    → ((s : Service) → (f s).id ≡ s.id)
    → target_fine services own target ≡ true
    → target_fine (update_where p f services) own target ≡ true
fine-update p f services own none same h = refl
fine-update p f services own (some id) same h =
    ground (arith, h, has_service-update p f services id same)

found_service :
    (p : Service → Bool) (services : List Service) (s : Service)
    → find p services ≡ some s
    → has_service services s.id ≡ true
found_service p [] s e = absurd (ground arith)
found_service p (x ∷ xs) s e = elim (Bool-cases (p x)) [
  | inl t ↦ let same : x ≡ s = ground (arith, t) in ground (arith, same, eq_iff x.id s.id)
  | inr f ↦ ground (arith, found_service p xs s (ground (arith, f)))
]

-- A row that is resolved and not its own target stays within the catalog.
resolved_fine :
    (s : Sync) (services : List Service) (name : String)
    → is_own s (resolved s services name) ≡ false
    → target_fine services s.service_id (resolved s services name) ≡ true
resolved_fine s services name h =
    elim (Option-cases (find (λ row. is_active s.org_id row && row.name == name) services)) [
      | inl e ↦ rw e refl
      | inr (row, e) ↦ ground (arith, e, h, found_service _ services row e)
    ]

upserted-IsFine :
    (now : ℕ) (s : Sync) (services : List Service) (target : Option String) (d : DependencyInput)
    (rows : List Dependency)
    → target_fine services s.service_id target ≡ true
    → All (IsFine services) rows
    → All (IsFine services) (upserted now s target d rows)
unfolding upserted
upserted-IsFine now s services target d rows h hs =
    elim (Bool-cases (any (has_key s d.name) rows)) [
      | inl old ↦ rw old (
          All-update_where (IsFine services) _ _ rows
            (λ x k _.
              subst (λ own. target_fine services own target ≡ true)
                (sym ((eq_iff x.service_id s.service_id).0 (ground (arith, k)))) h)
            hs)
      | inr new ↦ rw new (All-insert (IsFine services) (inserted now s target d) rows h hs)
    ]

pub upsert_all-IsFine :
    (now : ℕ) (s : Sync) (services : List Service) (ds : List DependencyInput)
    (rows rows' : List Dependency)
    → upsert_all now s services ds rows ≡ ok rows'
    → All (IsFine services) rows
    → All (IsFine services) rows'
unfolding upsert_all
upsert_all-IsFine now s services [] rows rows' e h =
    subst (All (IsFine services)) (let same : rows ≡ rows' = ground arith in same) h
upsert_all-IsFine now s services (d ∷ ds) rows rows' e h =
    let (other, rest) = upsert_rest now s services d ds rows rows' e in
    let target : Option String = resolved s services d.dependency_name in
    upsert_all-IsFine now s services ds (upserted now s target d rows) rows' rest (
      upserted-IsFine now s services target d rows
        (resolved_fine s services d.dependency_name other) h)

pub cleared-IsFine :
    (now : ℕ) (s : Sync) (services : List Service) (rows : List Dependency)
    → All (IsFine services) rows
    → All (IsFine services) (cleared now s rows)
cleared-IsFine now s services rows h = All-update_where (IsFine services) _ _ rows (λ d _ k. k) h

pub rows_or-IsFine :
    (services : List Service) (old : List Dependency) (r : Result Error (List Dependency))
    → All (IsFine services) old
    → ((rows : List Dependency) → r ≡ ok rows → All (IsFine services) rows)
    → All (IsFine services) (rows_or old r)
rows_or-IsFine services old (ok rows) h k = k rows refl
rows_or-IsFine services old (err e) h k = h

pub adopted-IsFine :
    (s : Service) (services : List Service) (rows : List Dependency)
    → All (IsFine services) rows
    → All (IsFine (insert s services)) (adopted s rows)
unfolding adopted
adopted-IsFine s services rows h =
    let wider =
      All-map {Q = IsFine (insert s services)}
        (λ d k. fine-insert s services d.service_id d.dependency_id k) rows h in
    elim (Bool-cases (s.status == "active")) [
      | inr other ↦ rw other wider
      | inl active ↦ rw active (
          All-update_where (IsFine (insert s services)) (waits_for s) _ rows
            (λ d k _. ground (
              arith,
              k,
              has_service-own s services,
              eq_iff s.id d.service_id,
              eq_iff d.service_id s.id,
            ))
            wider)
    ]
