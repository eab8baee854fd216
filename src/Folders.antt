-- ===== src/Folders.antt =====
-- internal/api/folder/folder.go: the handlers for folders. A body that cannot be decoded is `none`;
-- the id of a new folder is an argument, since it is random.
pub mod Lifecycle
pub mod RoundTrips
use uigraph_api.Prelude.{
  ℕ, String, Bool, ◌||◌, Option, none, some, List, ◌==◌, is_some, if◌then◌else◌,
}
use uigraph_api.Http.{
  Error, not_found, Reply, json, no_content, error_reply, bad_request, unauthorized_reply,
}
use uigraph_api.Db.{Folder}
use uigraph_api.Exec.{require, Exec, pure, stop_if, now_of, attempt, ◌>>=◌, ◌>>◌}
use uigraph_api.Identity.Principal.{Principal}
use uigraph_api.Store.Folders as Rows

pub record CreateRequest : Type 0 where
  pub name : String
  pub type : String
  pub parent_id : Option String
  pub team_id : Option String
  pub order : ℕ

-- A field that the body leaves out is `none`.
pub record UpdateRequest : Type 0 where
  pub name : Option String
  pub parent_id : Option String
  pub team_id : Option String
  pub order : Option ℕ

-- The query parameter "type": an empty one is none.
abbrev type_filter : String → Option String
type_filter raw = if raw == "" then none else some raw

unfoldable pub list : String → String → Exec (Reply (List Folder)) (Reply (List Folder))
list org_id raw = do
  folders ← attempt (Rows.list_folders org_id (type_filter raw))
  pure (json 200 folders)

abbrev pub new_folder : String → String → Principal → CreateRequest → ℕ → Folder
new_folder id org_id p body now = record {
  id = id;
  org_id = org_id;
  parent_id = body.parent_id;
  team_id = body.team_id;
  type = body.type;
  name = body.name;
  order = body.order;
  created_by = p.user_id;
  created_at = now;
  updated_at = now;
  deleted_at = none;
}

unfoldable pub create :
    String → String → Option Principal → Option CreateRequest → Exec (Reply Folder) (Reply Folder)
create new_id org_id principal decoded = do
  p ← require principal unauthorized_reply
  body ← require decoded (bad_request "invalid request body")
  stop_if (body.name == "" || body.type == "") (bad_request "name and type are required")
  now ← now_of
  let f = new_folder new_id org_id p body now
  attempt (Rows.create_folder f)
  pure (json 201 f)

-- A row, if it is there and not deleted.
abbrev pub not_deleted : Option Folder → Option Folder
not_deleted none = none
not_deleted (some f) = if is_some f.deleted_at then none else some f

unfoldable pub get : String → Exec (Reply Folder) (Reply Folder)
get folder_id = do
  found ← attempt (Rows.get_folder folder_id)
  f ← require (not_deleted found) (error_reply not_found)
  pure (json 200 f)

abbrev pub or_else {ℓ} : {A : Type ℓ} → Option A → A → A
or_else none a = a
or_else (some b) a = b

abbrev pub or_kept : Option String → Option String → Option String
or_kept none old = old
or_kept (some new) old = some new

abbrev pub merged : UpdateRequest → Folder → Folder
merged body f = record f {
  name = or_else body.name f.name;
  parent_id = or_kept body.parent_id f.parent_id;
  team_id = or_kept body.team_id f.team_id;
  order = or_else body.order f.order;
}

-- The clock is read twice: by the store for the row, and after it, as `replied_at`, for the reply.
unfoldable pub update : ℕ → String → Option UpdateRequest → Exec (Reply Folder) (Reply Folder)
update replied_at folder_id decoded = do
  found ← attempt (Rows.get_folder folder_id)
  existing ← require (not_deleted found) (error_reply not_found)
  body ← require decoded (bad_request "invalid request body")
  attempt (Rows.update_folder (merged body existing))
  pure (json 200 (record (merged body existing) { updated_at = replied_at }))

-- The store does not keep who deleted the folder.
unfoldable pub delete : String → Option Principal → Exec (Reply Folder) (Reply Folder)
delete folder_id principal = do
  p ← require principal unauthorized_reply
  attempt (Rows.delete_folder folder_id)
  pure no_content
