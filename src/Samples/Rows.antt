-- ===== src/Samples/Rows.antt =====
-- Members and folders of the sample world.
use uigraph_api.Prelude.{
  ℕ, String, false, Option, none, some, List, [], ◌∷◌, ◌≡◌, ◌≢◌, refl, ◌==◌, find, arith,
}
use uigraph_api.Prelude.Int.{pos}
use uigraph_api.Http.{json}
use uigraph_api.Db.{User, Folder}
use uigraph_api.Exec.{ok, ◌>>=◌}
use uigraph_api.Identity.Principal.{Principal, user}
use uigraph_api.Store.Folders as FolderRows
use uigraph_api.Store.Users as Users
use uigraph_api.Store.Members as MemberRows
use uigraph_api.Store.Members.{MemberView}
use uigraph_api.Store.Teams.{remove_user_from_org_teams}
use uigraph_api.Folders as Folders
use uigraph_api.Folders.Lifecycle.{FolderRequest, to_create, to_update, deleted_for_good}
use uigraph_api.Folders.Lifecycle as FolderRequests
use uigraph_api.Folders.RoundTrips.{IsMerged, update-get}
use uigraph_api.Members.{SeatInfo, UpdateRequest, update, write_member}
use uigraph_api.Members.Email.{update_keeps_email}
use uigraph_api.Members.Isolation.{
  MemberRequest, to_add, to_remove, serve_all, elsewhere, members_isolated,
}
use uigraph_api.Members.Table.{IsWithin}
use uigraph_api.Members.Seats.{seats_kept}
use uigraph_api.Samples.{alice, folder, world}

abbrev principal : Principal
principal = record {
  kind = user;
  user_id = "u1";
  org_id = "";
  is_server_admin = false;
  service_account_id = "";
  scopes = [];
  auth_provider = "password";
}

abbrev new_body : Folders.CreateRequest
new_body = record { name = "Specs"; type = "doc"; parent_id = some "f1"; team_id = none; order = 2 }

abbrev renamed : Folders.UpdateRequest
renamed = record { name = some "Maps"; parent_id = none; team_id = none; order = none }

update-get_example :
    ((old : Folder) × (find (λ row. row.id == "f1") world.db.folders ≡ some old)
      × IsMerged renamed old (record folder { name = "Maps"; updated_at = 101 }))
    × (◌≡◌ {A = ℕ} 101 101)
    × ((Folders.get "f1" (Folders.update 101 "f1" (some renamed) world).1).0
        ≡ ok (json 200 (record folder { name = "Maps"; updated_at = 100 })))
unfolding Folders.update FolderRows.get_folder FolderRows.update_folder ◌>>=◌
update-get_example =
    update-get 101 "f1" renamed world (Folders.update 101 "f1" (some renamed) world).1
      (record folder { name = "Maps"; updated_at = 101 }) refl refl refl

abbrev folder_requests : List FolderRequest
folder_requests =
    to_update 101 "f1" (some renamed) ∷ to_create "f1" "o1" (some principal) (some new_body) ∷ []

deleted_for_good_example :
    (Folders.get "f1"
      (FolderRequests.serve_all (Folders.delete "f1" (some principal) world).1 folder_requests)).0
    ≢ ok (json 200 folder)
unfolding Folders.delete FolderRows.delete_folder ◌>>=◌
deleted_for_good_example =
    deleted_for_good "f1" (some principal) world folder folder folder_requests refl refl

abbrev bcrypt : String → Option String
bcrypt password = some password

abbrev info : SeatInfo
info = record { limit = pos 1; plan_id = "" }

abbrev seat_limit : String → Option SeatInfo
seat_limit org_id = some info

abbrev member_requests : List MemberRequest
member_requests =
    to_add "u2"
      (some (record { name = "Bob"; email = "bob@acme.io"; password = "pw"; role = "viewer" }))
    ∷ to_remove "u1"
    ∷ []

members_isolated_example :
    elsewhere "o1" (serve_all (some seat_limit) bcrypt "o1" world member_requests).db.members
    ≡ elsewhere "o1" world.db.members
members_isolated_example = members_isolated (some seat_limit) bcrypt "o1" world member_requests

seats_kept_example :
    IsWithin "o1" 1 (serve_all (some seat_limit) bcrypt "o1" world member_requests).db
seats_kept_example =
    seats_kept bcrypt seat_limit info "o1" 1 world member_requests refl refl
      (record { linked = (refl, tt); seated = omega arith })

abbrev moved : UpdateRequest
moved = record { name = "Alice"; email = "alice@new.io"; role = "admin"; team_id = "" }

abbrev shown : MemberView
shown = record {
  user_id = "u1";
  org_id = "o1";
  role = "admin";
  source = "manual";
  email = "alice@new.io";
  name = "Alice";
  team_id = none;
}

update_keeps_email_example :
    (new : User) × (find (λ u. u.id == "u1") (update "o1" "u1" (some moved) world).1.db.users
      ≡ some new)
    × (new.name ≡ "Alice")
    × (new.login ≡ "alice@new.io")
    × (new.email ≡ "alice@acme.io")
    × (shown.email ≡ "alice@new.io")
unfolding update write_member Users.get_user Users.get_user_by_email Users.update_user
    MemberRows.update_member_role remove_user_from_org_teams ◌>>=◌
update_keeps_email_example = update_keeps_email "o1" "u1" moved world shown alice refl refl
