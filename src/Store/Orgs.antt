-- ===== src/Store/Orgs.antt =====
-- internal/store/postgres/org_store.go, without the columns that Db leaves out.
use uigraph_api.Prelude.{
  String, Bool, true, not, ◌&&◌, Option, List, ◌==◌, any, find, filter, length, ℕ, map, contains,
  zero, suc, ◌||◌,
}
use uigraph_api.Http.{Error}
use uigraph_api.Db.{Db, Org, Folder, Service, Dependency}
use uigraph_api.Exec.{Exec, query, exec, insert_if}
use uigraph_api.Store.Tables.{update_where, delete_where, insert, refers, set_null}
use uigraph_api.Store.Ordered.{Locale, order_by}

unfoldable pub create_org : Org → Exec Error (Unit {0})
create_org o =
    insert_if (λ db. any (λ row. row.id == o.id) db.orgs)
      (λ db. record db { orgs = insert o db.orgs })

unfoldable pub get_org : String → Exec Error (Option Org)
get_org id = query (λ db. find (λ o. o.id == id) db.orgs)

unfoldable pub count_all_orgs : Exec Error ℕ
count_all_orgs = query (λ db. length db.orgs)

unfoldable pub update_org : Org → Exec Error (Unit {0})
update_org o = exec (λ db. record db {
  orgs =
      update_where (λ row. row.id == o.id)
        (λ row. record row { name = o.name; disabled = o.disabled; auto_join = o.auto_join })
        db.orgs;
})

unfoldable pub set_onboarding_done : String → Exec Error (Unit {0})
set_onboarding_done id = exec (λ db. record db {
  orgs = update_where (λ row. row.id == id) (λ row. record row { onboarding_done = true }) db.orgs;
})

module _ (locale : Locale) where
  abbrev by_name : Org → Org → Bool
  by_name o p = locale.before o.name p.name

  unfoldable pub list_orgs : Exec Error (List Org)
  list_orgs = query (λ db. order_by by_name db.orgs)

  unfoldable pub list_auto_join_orgs : Exec Error (List Org)
  list_auto_join_orgs =
      query (λ db. order_by by_name (filter (λ o. o.auto_join && not o.disabled) db.orgs))

-- The ids of folders, with those of the folders that are in one of them: so many times. Folders are
-- below each other at most as deep as the table is long.
unfoldable with_folders_below : ℕ → List Folder → List String → List String
with_folders_below zero folders ids = ids
with_folders_below (suc n) folders ids =
    with_folders_below n folders (
      map (λ f. f.id)
        (filter (λ f. contains ids f.id || refers (contains ids) f.parent_id) folders))

-- What goes with the organisation, by the references that are ON DELETE CASCADE: the rows of the
-- organisation, and those that refer to a row that goes. The references to a row that goes which are
-- ON DELETE SET NULL are emptied.
unfoldable pub without_org : String → Db → Db
unfolding with_folders_below
without_org id db =
    let teams : List String = map (λ t. t.id) (filter (λ t. t.org_id == id) db.teams) in
    let folders : List String =
      with_folders_below (length db.folders) db.folders
        (map (λ f. f.id) (filter (λ f. f.org_id == id) db.folders)) in
    let services : List String = map (λ s. s.id) (filter (λ s. s.org_id == id) db.services) in
    let accounts : List String = map (λ a. a.id) (filter (λ a. a.org_id == id) db.accounts) in
    let providers : List String = map (λ p. p.id) (filter (λ p. p.org_id == id) db.providers) in
    record db {
      orgs = delete_where (λ o. o.id == id) db.orgs;
      members = delete_where (λ m. m.org_id == id) db.members;
      teams = delete_where (λ t. t.org_id == id) db.teams;
      team_members = delete_where (λ m. m.org_id == id || contains teams m.team_id) db.team_members;
      accounts = delete_where (λ a. a.org_id == id) db.accounts;
      tokens = delete_where (λ t. contains accounts t.service_account_id) db.tokens;
      folders =
          map {A = Folder} (λ f. record f { team_id = set_null (contains teams) f.team_id })
            (delete_where (λ f. contains folders f.id) db.folders);
      providers = delete_where (λ p. p.org_id == id) db.providers;
      rules = delete_where (λ r. contains providers r.provider_id) db.rules;
      domains = delete_where (λ d. d.org_id == id) db.domains;
      login_states =
          delete_where (λ s. s.org_id == id || contains providers s.provider_id) db.login_states;
      services =
          map {A = Service}
            (λ s. record s {
              team_id = set_null (contains teams) s.team_id;
              folder_id = set_null (contains folders) s.folder_id;
            })
            (delete_where (λ s. s.org_id == id) db.services);
      dependencies =
          map {A = Dependency}
            (λ d. record d { dependency_id = set_null (contains services) d.dependency_id })
            (delete_where (λ d. d.org_id == id || contains services d.service_id) db.dependencies);
    }

unfoldable pub delete_org : String → Exec Error (Unit {0})
unfolding without_org with_folders_below
delete_org id = exec (without_org id)
