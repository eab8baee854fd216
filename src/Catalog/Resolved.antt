-- ===== src/Catalog/Resolved.antt =====
-- The services that dependencies are resolved to, over the requests for services and dependencies.
use uigraph_api.Prelude.{
  ℕ, String, Bool, ◌||◌, Option, none, some, List, [], ◌∷◌, ◌≡◌, ◌==◌, refl, All-map, Bool-cases,
  inl, inr,
}
use uigraph_api.Db.{Db, Service}
use uigraph_api.Exec.{World, exec, statement, now_of}
use uigraph_api.Exec.Rules.{
  Maintains, Maintains-exec, Maintains-statement, Maintains-pure, Maintains-bind, Maintains-now_of,
  maintains_rules,
}
use uigraph_api.Identity.Principal.{Principal}
use uigraph_api.Store.Tables.{update_where}
use uigraph_api.Store.Ordered.{Locale}
use uigraph_api.Store.Services as Store
use uigraph_api.Store.Services.{
  adopted, waits_for, is_active, with_team, create_service, update_service, soft_delete_service,
  get_service, count_services, updated_service, resolve_team_id,
}
use uigraph_api.Store.Dependencies.{
  DependencyInput, Sync, cleared, synced, sync_service_dependencies, list_service_dependencies,
}
use uigraph_api.Catalog.{
  PlanLimit, CreateRequest, UpdateRequest, create, get, update, delete, check_limit,
  ensure_service_in_org,
}
use uigraph_api.Catalog.Dependencies.{SyncRequest, sync_dependencies, list_dependencies}
use uigraph_api.Catalog.Targets.{
  IsResolved, IsFine, fine-update, upsert_all-IsFine, cleared-IsFine, rows_or-IsFine,
  adopted-IsFine,
}

resolve_team_id-IsResolved :
    (org_id name : String) → Maintains IsResolved (resolve_team_id org_id name)
unfolding resolve_team_id
resolve_team_id-IsResolved org_id name = Maintains-statement _ _ λ db _ _ h. h

ruleset resolve_rules = (resolve_team_id-IsResolved, Maintains-pure, Maintains-bind)

with_team-IsResolved : (name : String) (s : Service) → Maintains IsResolved (with_team name s)
unfolding with_team
with_team-IsResolved name s = elim (Bool-cases (Store.has_team_id s.team_id || name == "")) [
  | inl t ↦ rw t (Maintains-pure s)
  | inr f ↦ rw f (search resolve_rules)
]

create_service-IsResolved :
    (name : String) (s : Service) → Maintains IsResolved (create_service name s)
unfolding create_service
create_service-IsResolved name s =
    Maintains-bind _
      (λ row.
        Maintains-statement _ _
          λ db _ _ h. record { targets = adopted-IsFine row db.services db.dependencies h.targets })
      (with_team name s) (with_team-IsResolved name s)

-- A change of services that keeps their ids.
changed-IsResolved :
    (p : Service → Bool) (f : Service → Service)
    → ((s : Service) → (f s).id ≡ s.id)
    → (db : Db) → IsResolved db
    → IsResolved (record db { services = update_where p f db.services })
changed-IsResolved p f same db h = record {
  targets =
      All-map {Q = IsFine (update_where p f db.services)}
        (λ d k. fine-update p f db.services d.service_id d.dependency_id same k) db.dependencies
        h.targets;
}

update_row-IsResolved :
    (now : ℕ) (row : Service)
    → Maintains IsResolved (
        statement (Store.update_answer row) (λ db. record db {
          services = update_where (Store.is_live_row row.id) (updated_service now row) db.services;
        }))
update_row-IsResolved now row =
    Maintains-statement _ _ λ db _ _ h. changed-IsResolved _ _ (λ s. refl) db h

update_service-IsResolved :
    (name : String) (s : Service) → Maintains IsResolved (update_service name s)
unfolding update_service
update_service-IsResolved name s =
    search (with_team-IsResolved, update_row-IsResolved, Maintains-bind, Maintains-now_of)

delete_row-IsResolved :
    (now : ℕ) (id deleted_by : String)
    → Maintains IsResolved (
        exec (λ db. record db {
          services =
              update_where
                (Store.is_live_row id)
                (λ row. record row { deleted_at = some now; deleted_by = some deleted_by })
                db.services;
        }))
delete_row-IsResolved now id deleted_by =
    Maintains-exec _ λ db h. changed-IsResolved _ _ (λ s. refl) db h

soft_delete_service-IsResolved :
    (id deleted_by : String) → Maintains IsResolved (soft_delete_service id deleted_by)
unfolding soft_delete_service
soft_delete_service-IsResolved id deleted_by =
    search (delete_row-IsResolved, Maintains-bind, Maintains-now_of)

sync_service_dependencies-IsResolved :
    (s : Sync) (deps : List DependencyInput)
    → Maintains IsResolved (sync_service_dependencies s deps)
unfolding sync_service_dependencies
sync_service_dependencies-IsResolved s deps =
    Maintains-bind _
      (λ now. Maintains-statement _ _ λ db _ _ h. record {
        targets =
            rows_or-IsFine db.services db.dependencies (synced now s deps db) h.targets (λ rows e.
              upsert_all-IsFine now s db.services deps (cleared now s db.dependencies) rows e
                (cleared-IsFine now s db.services db.dependencies h.targets));
      })
      now_of Maintains-now_of

check_limit-IsResolved :
    {A : Type 0} (enterprise : Option (String → Option PlanLimit)) (org_id : String)
    → Maintains IsResolved (check_limit {A = A} enterprise org_id)
unfolding check_limit count_services
check_limit-IsResolved none org_id = search maintains_rules
check_limit-IsResolved (some ask) org_id = search maintains_rules

ensured-IsResolved :
    {A : Type 0} (org_id service_id : String)
    → Maintains IsResolved (ensure_service_in_org {A = A} org_id service_id)
unfolding ensure_service_in_org get_service
ensured-IsResolved org_id service_id = search maintains_rules

ruleset catalog_rules = (
  maintains_rules, check_limit-IsResolved, ensured-IsResolved, create_service-IsResolved,
  update_service-IsResolved, soft_delete_service-IsResolved, sync_service_dependencies-IsResolved,
)

-- A request for services or for their dependencies, with the ids and the answers of the other
-- service that it may need.
pub data CatalogCall : Type 0 where
  to_create :
      Option (String → Option PlanLimit)
      → String
      → String
      → Option Principal
      → Option CreateRequest
      → CatalogCall
  to_get : String → CatalogCall
  to_update : String → Option Principal → Option UpdateRequest → CatalogCall
  to_delete : String → Option Principal → CatalogCall
  to_sync :
      (String → String) → String → String → Option Principal → Option SyncRequest → CatalogCall
  to_list : String → String → String → String → CatalogCall

module _ (quote : String → String) (locale : Locale) where
  -- The world after a request.
  pub serve : World → CatalogCall → World
  serve w (to_create enterprise id org p body) = (create enterprise quote id org p body w).1
  serve w (to_get id) = (get id w).1
  serve w (to_update id p body) = (update quote id p body w).1
  serve w (to_delete id p) = (delete id p w).1
  serve w (to_sync new_id org id p body) = (sync_dependencies new_id org id p body w).1
  serve w (to_list org id direction criticality) =
      (list_dependencies locale org id direction criticality w).1

  pub serve_all : World → List CatalogCall → World
  serve_all w [] = w
  serve_all w (c ∷ cs) = serve_all (serve w c) cs

  serve-IsResolved : (w : World) (c : CatalogCall) → IsResolved w.db → IsResolved (serve w c).db
  unfolding serve create get update delete sync_dependencies list_dependencies get_service
      list_service_dependencies
  serve-IsResolved w (to_create enterprise id org p body) =
      let m : Maintains IsResolved (create enterprise quote id org p body) =
        search catalog_rules depth 40 in
      m.at w
  serve-IsResolved w (to_get id) =
      let m : Maintains IsResolved (get id) = search catalog_rules depth 20 in m.at w
  serve-IsResolved w (to_update id p body) =
      let m : Maintains IsResolved (update quote id p body) = search catalog_rules depth 30 in
      m.at w
  serve-IsResolved w (to_delete id p) =
      let m : Maintains IsResolved (delete id p) = search catalog_rules depth 20 in m.at w
  serve-IsResolved w (to_sync new_id org id p body) =
      let m : Maintains IsResolved (sync_dependencies new_id org id p body) =
        search catalog_rules depth 30 in
      m.at w
  serve-IsResolved w (to_list org id direction criticality) =
      let m : Maintains IsResolved (list_dependencies locale org id direction criticality) =
        search catalog_rules depth 30 in
      m.at w

  -- From a database in which every dependency that is resolved names a service of the catalog other
  -- than its own: over any sequence of requests for services and dependencies, valid or not, and
  -- whichever database calls fail, this stays so.
  pub catalog_calls-IsResolved :
      (w : World) (calls : List CatalogCall) → IsResolved w.db → IsResolved (serve_all w calls).db
  unfolding serve_all
  catalog_calls-IsResolved w [] h = h
  catalog_calls-IsResolved w (c ∷ cs) h =
      catalog_calls-IsResolved (serve w c) cs (serve-IsResolved w c h)
