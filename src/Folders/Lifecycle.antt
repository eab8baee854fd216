-- ===== src/Folders/Lifecycle.antt =====
-- Any sequence of requests to the handlers for folders.
use uigraph_api.Prelude.{
  ℕ, String, Bool, true, Option, none, some, List, [], ◌∷◌, ◌≡◌, ◌≢◌, refl, ◌==◌, arith, find,
  is_some, Bool-cases, inl, inr, ap, ◌∙◌,
}
use uigraph_api.Http.{json, no_content}
use uigraph_api.Db.{Db, Folder}
use uigraph_api.Exec.{World, ok, ◌>>=◌}
use uigraph_api.Exec.Rules.{
  Maintains, Maintains-bind, Maintains-now_of, Maintains-exec, Maintains-insert_if, maintains_rules,
}
use uigraph_api.Store.Tables.{update_where, insert, find-update_where, find-test}
use uigraph_api.Store.Folders as Rows
use uigraph_api.Store.Folders.{is_live, updated_folder}
use uigraph_api.Identity.Principal.{Principal}
use uigraph_api.Folders.{CreateRequest, UpdateRequest, list, create, get, update, delete}

-- A request, with the new id that a creation draws and the time at which an update replies.
pub data FolderRequest : Type 0 where
  to_list : String → String → FolderRequest
  to_create : String → String → Option Principal → Option CreateRequest → FolderRequest
  to_get : String → FolderRequest
  to_update : ℕ → String → Option UpdateRequest → FolderRequest
  to_delete : String → Option Principal → FolderRequest

-- The world after a request.
pub serve : World → FolderRequest → World
serve w (to_list org_id raw) = (list org_id raw w).1
serve w (to_create id org_id p body) = (create id org_id p body w).1
serve w (to_get id) = (get id w).1
serve w (to_update replied_at id body) = (update replied_at id body w).1
serve w (to_delete id p) = (delete id p w).1

pub serve_all : World → List FolderRequest → World
serve_all w [] = w
serve_all w (r ∷ rs) = serve_all (serve w r) rs

module _ (id : String) where
  -- The row of the id is there, and marked as deleted.
  record IsGone (db : Db) : Type 0 where
    row : Folder
    found : find (λ (f : Folder). f.id == id) db.folders ≡ some row
    dead : is_some row.deleted_at ≡ true

  IsGone-update :
      (other : String) (f : Folder → Folder) (db : Db)
      → ((x : Folder) → (f x).id ≡ x.id)
      → IsGone db
      → IsGone (record db { folders = update_where (is_live other) f db.folders })
  IsGone-update other f db same g = record {
    row = g.row;
    found =
        find-update_where (is_live other) (λ x. x.id == id) f db.folders (λ x. rw (same x) refl)
        ∙ ground (arith, g.found, g.dead);
    dead = g.dead;
  }

  find-insert :
      (q : Folder → Bool) (f row : Folder) (rows : List Folder)
      → find q rows ≡ some row
      → find q (insert f rows) ≡ some row
  find-insert q f row [] h = cc
  find-insert q f row (x ∷ rows) h = ground (arith, find-insert q f row rows)

  IsGone-insert :
      (f : Folder) (db : Db) → IsGone db → IsGone (record db { folders = insert f db.folders })
  IsGone-insert f db g = record {
    row = g.row;
    found = find-insert (λ x. x.id == id) f g.row db.folders g.found;
    dead = g.dead;
  }

  rows_create : (f : Folder) → Maintains IsGone (Rows.create_folder f)
  unfolding Rows.create_folder
  rows_create f = search (maintains_rules, Maintains-insert_if, IsGone-insert)

  rows_update : (f : Folder) → Maintains IsGone (Rows.update_folder f)
  unfolding Rows.update_folder
  rows_update f =
      Maintains-bind _
        (λ now.
          Maintains-insert_if _ _
            (λ db _ g. IsGone-update f.id (updated_folder f now) db (λ _. refl) g))
        _ Maintains-now_of

  rows_delete : (other : String) → Maintains IsGone (Rows.delete_folder other)
  unfolding Rows.delete_folder
  rows_delete other =
      Maintains-bind _
        (λ now.
          Maintains-exec _ (λ db g.
            IsGone-update other (λ f. record f { deleted_at = some now }) db (λ _. refl) g))
        _ Maintains-now_of

  list-IsGone : (org_id raw : String) → Maintains IsGone (list org_id raw)
  unfolding list Rows.list_folders
  list-IsGone org_id raw = search maintains_rules

  create-IsGone :
      (new_id org_id : String) (p : Option Principal) (body : Option CreateRequest)
      → Maintains IsGone (create new_id org_id p body)
  unfolding create
  create-IsGone new_id org_id p body = search (maintains_rules, rows_create) depth 20

  get-IsGone : (folder_id : String) → Maintains IsGone (get folder_id)
  unfolding get Rows.get_folder
  get-IsGone folder_id = search maintains_rules depth 12

  update-IsGone :
      (replied_at : ℕ) (folder_id : String) (body : Option UpdateRequest)
      → Maintains IsGone (update replied_at folder_id body)
  unfolding update Rows.get_folder
  update-IsGone replied_at folder_id body = search (maintains_rules, rows_update) depth 20

  delete-IsGone :
      (folder_id : String) (p : Option Principal) → Maintains IsGone (delete folder_id p)
  unfolding delete
  delete-IsGone folder_id p = search (maintains_rules, rows_delete) depth 12

  serve-IsGone : (w : World) (r : FolderRequest) → IsGone w.db → IsGone (serve w r).db
  unfolding serve
  serve-IsGone w (to_list org_id raw) = (list-IsGone org_id raw).at w
  serve-IsGone w (to_create new_id org_id p body) = (create-IsGone new_id org_id p body).at w
  serve-IsGone w (to_get folder_id) = (get-IsGone folder_id).at w
  serve-IsGone w (to_update t folder_id body) = (update-IsGone t folder_id body).at w
  serve-IsGone w (to_delete folder_id p) = (delete-IsGone folder_id p).at w

  all-IsGone : (w : World) (rs : List FolderRequest) → IsGone w.db → IsGone (serve_all w rs).db
  unfolding serve_all
  all-IsGone w [] g = g
  all-IsGone w (r ∷ rs) g = all-IsGone (serve w r) rs (serve-IsGone w r g)

  get_refused : (w : World) (f : Folder) → IsGone w.db → (get id w).0 ≢ ok (json 200 f)
  unfolding get Rows.get_folder ◌>>=◌
  get_refused w f g h = ground (arith, g.found, g.dead)

  abbrev set_deleted : ℕ → Folder → Folder
  set_deleted now f = record f { deleted_at = some now }

  delete_rows :
      (p : Option Principal) (w : World)
      → (delete id p w).0 ≡ ok no_content
      → (delete id p w).1.db.folders ≡ update_where (is_live id) (set_deleted w.now) w.db.folders
  unfolding delete Rows.delete_folder ◌>>=◌
  delete_rows (some p) w done = ground arith
  delete_rows none w done = absurd (ground arith)

  deleted_rows :
      (p : Option Principal) (w : World) (f : Folder)
      → find (λ (x : Folder). x.id == id) w.db.folders ≡ some f
      → (delete id p w).0 ≡ ok no_content
      → IsGone (delete id p w).1.db
  deleted_rows p w f listed done =
      let q : Folder → Bool = λ x. x.id == id in
      let named : (f.id == id) ≡ true = find-test q w.db.folders f listed in
      let now_found =
        ap (find q) (delete_rows p w done)
        ∙ find-update_where (is_live id) q (set_deleted w.now) w.db.folders (λ _. refl) in
      elim (Bool-cases (is_some f.deleted_at)) [
        | inl dead ↦ record {
          row = f;
          found = now_found ∙ ground (arith, listed, dead);
          dead = dead;
        }
        | inr live ↦ record {
          row = set_deleted w.now f;
          found = now_found ∙ ground (arith, listed, live, named);
          dead = refl;
        }
      ]

-- Once a folder of the table was deleted, no later sequence of requests brings it back: neither a
-- creation under its id nor an update makes Get show a folder of that id.
pub deleted_for_good :
    (id : String) (p : Option Principal) (w : World) (old f : Folder) (rs : List FolderRequest)
    → find (λ (x : Folder). x.id == id) w.db.folders ≡ some old
    → (delete id p w).0 ≡ ok no_content
    → (get id (serve_all (delete id p w).1 rs)).0 ≢ ok (json 200 f)
deleted_for_good id p w old f rs listed done =
    get_refused id (serve_all (delete id p w).1 rs) f
      (all-IsGone id (delete id p w).1 rs (deleted_rows id p w old listed done))
