-- ===== src/Samples/Graph.antt =====
-- The theorems on dependencies, applied to three services in a cycle.
use uigraph_api.Prelude.{
  String, Option, false, some, none, List, [], ◌∷◌, ◌≡◌, ◌≤◌, ◌↔◌, ◌⊎◌, In, refl,
}
use uigraph_api.Prelude.Int.{ℤ}
use uigraph_api.Http.{Reply, json}
use uigraph_api.Db.{Service, Dependency}
use uigraph_api.Exec.{World, ok, err}
use uigraph_api.Identity.Principal.{Principal, user}
use uigraph_api.Store.Dependencies.{DependencyInput, Edge, edges_where, selects}
use uigraph_api.Store.Graph.{Sides}
use uigraph_api.Store.Graph.Edges.{Joined}
use uigraph_api.Catalog.Dependencies.{SyncRequest, sync_of, depth_of, get_impact, sync_dependencies}
use uigraph_api.Catalog.Impact.{get_impact-Joined}
use uigraph_api.Catalog.Synced.{IsSynced, sync_dependencies-IsSynced}
use uigraph_api.Catalog.Targets.{IsResolved}
use uigraph_api.Catalog.Resolved.{
  CatalogCall, to_sync, to_delete, serve_all, catalog_calls-IsResolved,
}
use uigraph_api.Samples.{world}
use uigraph_api.Samples.SignIn.{locale}

abbrev service : String → String → Service
service id name = record {
  id = id;
  org_id = "o1";
  folder_id = none;
  team_id = none;
  name = name;
  description = "";
  status = "active";
  tier = "tier1";
  category = "";
  language = "go";
  git_repo_url = none;
  jira_project_url = none;
  slack_channel_url = none;
  last_commit_sha = none;
  labels = [];
  metadata = "{}";
  doc_links = [];
  created_by = "u1";
  updated_by = none;
  created_by_commit_hash = none;
  updated_by_commit_hash = none;
  created_at = 1;
  updated_at = 1;
  deleted_at = none;
  deleted_by = none;
}

abbrev link : String → String → String → String → Dependency
link id from to name = record {
  id = id;
  service_id = from;
  dependency_id = some to;
  dependency_name = name;
  direction = "downstream";
  org_id = "o1";
  name = name;
  type = "http";
  criticality = "hard";
  description = "";
  api_group_name = none;
  api_endpoint_names = [];
  database_name = none;
  created_by = "u1";
  updated_by = none;
  created_by_commit_hash = none;
  updated_by_commit_hash = none;
  created_at = 1;
  updated_at = 1;
  deleted_at = none;
  deleted_by = none;
}

abbrev catalog : World
catalog = record world {
  db = record world.db {
    services = service "s1" "shop" ∷ service "s2" "cart" ∷ service "s3" "stock" ∷ [];
    dependencies =
        link "d1" "s1" "s2" "cart" ∷ link "d2" "s2" "s3" "stock" ∷ link "d3" "s3" "s1" "shop" ∷ [];
  };
}

abbrev atoi : String → Option ℤ
atoi s = none

abbrev upstream : Sides
upstream = record { own = "downstream"; other = "upstream" }

get_impact-Joined_example :
    (edges : List Edge) × ((get_impact atoi locale "o1" "s1" "upstream" "" catalog).0
      ≡ ok (json 200 edges))
    × (◌≤◌ 1 10)
    × (◌≤◌ 10 100)
    × ((e : Edge)
        → In e edges ↔ (
            In e (edges_where locale (selects "o1" "" "all" "") catalog.db)
            × Joined catalog.db "o1" upstream 10 "s1" e))
unfolding depth_of
get_impact-Joined_example =
    get_impact-Joined atoi locale "o1" "s1" "upstream" "" (service "s1" "shop") upstream 10 catalog
      (record { found = refl; kept = refl; owned = refl }) refl refl (λ k. refl)

abbrev principal : Principal
principal = record {
  kind = user;
  user_id = "u1";
  org_id = "";
  is_server_admin = false;
  service_account_id = "";
  scopes = [];
  auth_provider = "password";
}

abbrev wanted : DependencyInput
wanted = record {
  name = "stock";
  dependency_name = "stock";
  direction = "downstream";
  type = "grpc";
  criticality = "soft";
  description = "";
  api_group_name = none;
  api_endpoint_names = [];
  database_name = none;
}

abbrev body : SyncRequest
body = record { dependencies = wanted ∷ []; commit_hash = none }

abbrev new_id : String → String
new_id name = "d4"

sync_dependencies-IsSynced_example :
    (((sync_dependencies new_id "o1" "s1" (some principal) (some body) catalog).0
        ≡ ok (json 200 (wanted ∷ [])))
      × IsSynced
          (sync_of new_id "o1" "s1" principal body)
          (wanted ∷ [])
          catalog.db.dependencies
          (sync_dependencies new_id "o1" "s1"
            (some principal)
            (some body)
            catalog).1.db.dependencies)
    ⊎ ((refused : Reply (List DependencyInput)) × ((sync_dependencies new_id "o1" "s1"
            (some principal)
            (some body)
            catalog).0
          ≡ err refused)
        × ((sync_dependencies new_id "o1" "s1" (some principal) (some body) catalog).1.db
            ≡ catalog.db))
sync_dependencies-IsSynced_example =
    sync_dependencies-IsSynced new_id "o1" "s1" principal body catalog

abbrev calls : List CatalogCall
calls = to_sync new_id "o1" "s1" (some principal) (some body) ∷ to_delete "s3" (some principal) ∷ []

catalog_calls-IsResolved_example : IsResolved (serve_all (λ s. s) locale catalog calls).db
catalog_calls-IsResolved_example =
    catalog_calls-IsResolved (λ s. s) locale catalog calls
      (record { targets = (refl, (refl, (refl, tt))) })
