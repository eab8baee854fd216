-- ===== src/Catalog/Synced.antt =====
-- What a synchronisation leaves in the table of dependencies.
use uigraph_api.Prelude.{
  ℕ, ◌+◌, String, none, some, List, [], ◌≡◌, refl, ◌==◌, inl, inr, ◌⊎◌, arith, find, Bool-cases,
  Option-cases, subst, ◌∙◌,
}
use uigraph_api.Http.{
  Error, not_found, conflict, invalid_dependency, team_not_found, service_name_exists,
  membership_not_found, forbidden, database, bad_request, Reply, json,
}
use uigraph_api.Db.{Db, Dependency}
use uigraph_api.Exec.{World, Result-cases, ok, err, ◌>>=◌}
use uigraph_api.Store.Services.{get_service}
use uigraph_api.Store.Dependencies.{
  DependencyInput, Sync, cleared, synced, sync_service_dependencies,
}
use uigraph_api.Exec.Steps.{called}
use uigraph_api.Identity.Principal.{Principal}
use uigraph_api.Catalog.{ensure_service_in_org, live, in_org}
use uigraph_api.Catalog.Dependencies.{
  check_dependencies, sync_reply, SyncRequest, sync_of, sync_dependencies,
}
use uigraph_api.Catalog.Upserted.{
  is_live, shown, others, find-cleared, upsert_all-live, others-cleared,
}

-- The answer of the store: it writes the whole of the new table, or nothing.
stored :
    (s : Sync) (deps : List DependencyInput) (w : World)
    → ((rows : List Dependency) × (synced w.now s deps w.db ≡ ok rows)
        × (sync_service_dependencies s deps w
            ≡ (ok tt, record w { db = record w.db { dependencies = rows }; calls = w.calls + 1 })))
      ⊎ ((e : Error) × (sync_service_dependencies s deps w ≡ (err e, called w)))
unfolding sync_service_dependencies ◌>>=◌
stored s deps w = elim (Bool-cases (w.fails w.calls)) [
  | inl failed ↦ inr (database, rw failed refl)
  | inr fine ↦ elim (Result-cases (synced w.now s deps w.db)) [
    | inl (rows, e) ↦ inl (rows, e, ground (arith, fine, e))
    | inr (x, e) ↦ inr (x, ground (arith, fine, e))
  ]
]

ensured_db :
    (A : Type 0) (org_id service_id : String) (w : World)
    → (ensure_service_in_org {A = A} org_id service_id w).1.db ≡ w.db
unfolding ensure_service_in_org get_service ◌>>=◌
ensured_db A org_id service_id w = elim (Bool-cases (w.fails w.calls)) [
  | inl failed ↦ rw failed refl
  | inr fine ↦
      elim (Option-cases (in_org org_id (live (find (λ s. s.id == service_id) w.db.services)))) [
        | inl e ↦ rw (fine, e) refl
        | inr (s, e) ↦ rw (fine, e) refl
      ]
]

sync_reply_err : (x : Error) → (r : Reply (List DependencyInput)) × (sync_reply (err x) ≡ err r)
sync_reply_err not_found = (_, refl)
sync_reply_err conflict = (_, refl)
sync_reply_err invalid_dependency = (_, refl)
sync_reply_err team_not_found = (_, refl)
sync_reply_err service_name_exists = (_, refl)
sync_reply_err membership_not_found = (_, refl)
sync_reply_err forbidden = (_, refl)
sync_reply_err database = (_, refl)

-- After the synchronisation `s` of the rows of `old` with `deps`: for every name the service has
-- exactly the dependency of that name that was given, and the rows of other services are as before.
pub record IsSynced (s : Sync) (deps : List DependencyInput) (old new : List Dependency)
    : Type 0 where
  pub given : (name : String) → shown (find (is_live s name) new) ≡ find (λ d. d.name == name) deps
  pub others : others s new ≡ others s old

synced_rows :
    (now : ℕ) (s : Sync) (deps : List DependencyInput) (db : Db) (rows : List Dependency)
    → check_dependencies [] deps ≡ none
    → synced now s deps db ≡ ok rows
    → IsSynced s deps db.dependencies rows
synced_rows now s deps db rows h fine =
    let (names, kept) =
      upsert_all-live now s db.services deps [] (cleared now s db.dependencies) rows h fine in
    record {
      given = λ name. ground (arith, names name, find-cleared now s name db.dependencies);
      others = kept ∙ others-cleared now s db.dependencies;
    }

-- SyncDependencies for a decoded body, whatever the table holds and whichever database calls fail:
-- it replies 200 with the dependencies of the body, and then the service has for every name exactly
-- the dependency of that name that the body gives, and the rows of other services are as before; or
-- it does not reply 200, and nothing in the database has changed.
pub sync_dependencies-IsSynced :
    (new_id : String → String) (org_id service_id : String) (p : Principal) (body : SyncRequest)
    (w : World)
    → (((sync_dependencies new_id org_id service_id (some p) (some body) w).0
          ≡ ok (json 200 body.dependencies))
        × IsSynced
            (sync_of new_id org_id service_id p body)
            body.dependencies
            w.db.dependencies
            (sync_dependencies new_id org_id service_id (some p) (some body) w).1.db.dependencies)
      ⊎ ((refused : Reply (List DependencyInput)) × ((sync_dependencies new_id org_id service_id
              (some p)
              (some body)
              w).0
            ≡ err refused)
          × ((sync_dependencies new_id org_id service_id (some p) (some body) w).1.db ≡ w.db))
unfolding sync_dependencies ◌>>=◌
sync_dependencies-IsSynced new_id org_id service_id p body w =
    elim (Result-cases (ensure_service_in_org {A = List DependencyInput} org_id service_id w).0) [
      | inr (r, e) ↦
          inr (r, rw e refl, rw e (ensured_db (List DependencyInput) org_id service_id w))
      | inl (u, e) ↦ elim (Option-cases (check_dependencies [] body.dependencies)) [
        | inr (message, bad) ↦ inr (
          bad_request message,
          rw (e, bad) refl,
          rw (e, bad) (ensured_db (List DependencyInput) org_id service_id w),
        )
        | inl fine ↦
            let s : Sync = sync_of new_id org_id service_id p body in
            let v : World =
              (ensure_service_in_org {A = List DependencyInput} org_id service_id w).1 in
            let same : v.db ≡ w.db = ensured_db (List DependencyInput) org_id service_id w in
            elim (stored s body.dependencies v) [
              | inl (rows, all, whole) ↦ inl (
                rw (e, fine, whole) refl,
                rw (e, fine, whole)
                    (subst (λ (db : Db). IsSynced s body.dependencies db.dependencies rows) same
                      (synced_rows v.now s body.dependencies v.db rows fine all)),
              )
              | inr (x, whole) ↦
                  let (r, refused) = sync_reply_err x in
                  inr (r, rw (e, fine, whole, refused) refl, rw (e, fine, whole, refused) same)
            ]
      ]
    ]
