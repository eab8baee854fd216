-- ===== src/Store/Folders.antt =====
-- internal/store/postgres/folders.go and the table of migrations/0008_folders.sql. A reference to a
-- row of another table (the organisation, the team) that is missing is a call that fails.
use uigraph_api.Prelude.{
  ℕ, String, Bool, true, false, not, ◌&&◌, ◌||◌, Option, none, some, List, [], ◌∷◌, ◌==◌, any, find,
  filter, is_some, ltb, nat_beq, contains, if◌then◌else◌,
}
use uigraph_api.Http.{Error}
use uigraph_api.Db.{Db, Folder}
use uigraph_api.Exec.{Exec, query, insert_if, exec, now_of, ◌>>=◌}
use uigraph_api.Store.Tables.{update_where, insert}

-- `CHECK (type IN …)`
abbrev pub folder_types : List String
folder_types = "service" ∷ "diagram" ∷ "map" ∷ "doc" ∷ []

-- `parent_id REFERENCES folders(id)`
abbrev pub lacks_parent : List Folder → Option String → Bool
lacks_parent folders none = false
lacks_parent folders (some id) = not (any (λ f. f.id == id) folders)

-- A zero time is the time of the call.
abbrev or_now : ℕ → ℕ → ℕ
or_now now t = if nat_beq t 0 then now else t

abbrev pub created_row : ℕ → Folder → Folder
created_row now f = record f {
  created_at = or_now now f.created_at;
  updated_at = or_now now f.updated_at;
  deleted_at = none;
}

abbrev pub refused_row : Folder → Db → Bool
refused_row f db =
    any (λ row. row.id == f.id) db.folders
    || not (contains folder_types f.type)
    || lacks_parent db.folders f.parent_id

unfoldable pub create_folder : Folder → Exec Error (Unit {0})
create_folder f = do
  now ← now_of
  insert_if (refused_row f) (λ db. record db { folders = insert (created_row now f) db.folders })

unfoldable pub get_folder : String → Exec Error (Option Folder)
get_folder id = query (λ db. find (λ f. f.id == id) db.folders)

-- `ORDER BY ord ASC, created_at ASC`; the rows that are equal in both are in the table's order.
abbrev precedes : Folder → Folder → Bool
precedes a b = ltb a.order b.order || (nat_beq a.order b.order && ltb a.created_at b.created_at)

place : Folder → List Folder → List Folder
place f [] = f ∷ []
place f (g ∷ rest) = if precedes g f then g ∷ place f rest else f ∷ g ∷ rest

unfoldable pub in_order : List Folder → List Folder
unfolding place
in_order [] = []
in_order (f ∷ rest) = place f (in_order rest)

abbrev has_type : Option String → Folder → Bool
has_type none f = true
has_type (some t) f = f.type == t

unfoldable pub list_folders : String → Option String → Exec Error (List Folder)
unfolding in_order
list_folders org_id t = query (λ db.
    in_order
      (filter (λ f. f.org_id == org_id && not (is_some f.deleted_at) && has_type t f) db.folders))

-- `id = … AND deleted_at IS NULL`
abbrev pub is_live : String → Folder → Bool
is_live id f = f.id == id && not (is_some f.deleted_at)

abbrev pub updated_folder : Folder → ℕ → Folder → Folder
updated_folder f now row = record row {
  name = f.name;
  order = f.order;
  parent_id = f.parent_id;
  team_id = f.team_id;
  updated_at = now;
}

-- The reference to the parent is checked if the statement finds its row.
unfoldable pub update_folder : Folder → Exec Error (Unit {0})
update_folder f = do
  now ← now_of
  insert_if (λ db. any (is_live f.id) db.folders && lacks_parent db.folders f.parent_id)
      (λ db. record db { folders = update_where (is_live f.id) (updated_folder f now) db.folders })

unfoldable pub delete_folder : String → Exec Error (Unit {0})
delete_folder id = do
  now ← now_of
  exec (λ db. record db {
    folders = update_where (is_live id) (λ f. record f { deleted_at = some now }) db.folders;
  })
