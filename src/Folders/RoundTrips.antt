-- ===== src/Folders/RoundTrips.antt =====
-- What a handler for folders replied, and what a later Get shows.
use uigraph_api.Prelude.{
  ◌<◌, ◌+◌, ℕ, String, Bool, Bool-cases, false, Option, none, some, List, [], ◌∷◌, ◌≡◌, refl, ◌==◌,
  eq_refl, arith, any, find, Option-cases, inl, inr, sym, ap, subst, ◌∙◌,
}
use uigraph_api.Http.{json}
use uigraph_api.Db.{Db, Folder}
use uigraph_api.Exec.{World, ok, ◌>>=◌}
use uigraph_api.Store.Tables.{update_where, insert, find-update_where}
use uigraph_api.Store.Folders as Rows
use uigraph_api.Store.Folders.{is_live, updated_folder, refused_row, created_row}
use uigraph_api.Identity.Principal.{Principal}
use uigraph_api.Folders.{
  CreateRequest, UpdateRequest, create, get, update, new_folder, merged, or_else, or_kept,
}

find-insert :
    (f : Folder) (rows : List Folder)
    → any (λ row. row.id == f.id) rows ≡ false
    → find (λ row. row.id == f.id) (insert f rows) ≡ some f
find-insert f [] h = ground (arith, eq_refl f.id)
find-insert f (r ∷ rows) h = ground (arith, find-insert f rows)

get_found :
    (id : String) (w : World) (f : Folder)
    → find (λ row. row.id == id) w.db.folders ≡ some f
    → f.deleted_at ≡ none
    → w.fails w.calls ≡ false
    → (get id w).0 ≡ ok (json 200 f)
unfolding get Rows.get_folder ◌>>=◌
get_found id w f found live answers = ground arith

created :
    (id org_id : String) (p : Principal) (body : CreateRequest) (w : World) (f : Folder)
    → (create id org_id (some p) (some body) w).0 ≡ ok (json 201 f)
    → (f ≡ new_folder id org_id p body w.now)
      × ((Rows.create_folder (new_folder id org_id p body w.now) w).0 ≡ ok tt)
      × ((create id org_id (some p) (some body) w).1
          ≡ (Rows.create_folder (new_folder id org_id p body w.now) w).1)
unfolding create ◌>>=◌
created id org_id p body w f made = (ground arith, ground arith, ground arith)

created_row_of :
    (now : ℕ) (f : Folder)
    → 0 < f.created_at
    → 0 < f.updated_at
    → created_row now f ≡ record f { deleted_at = none }
created_row_of now f h k = ground arith

stored :
    (f : Folder) (w : World)
    → (Rows.create_folder f w).0 ≡ ok tt
    → (any (λ row. row.id == f.id) w.db.folders ≡ false)
      × ((Rows.create_folder f w).1.db.folders ≡ insert (created_row w.now f) w.db.folders)
unfolding Rows.create_folder ◌>>=◌
stored f w done = elim (Bool-cases (refused_row f w.db)) [
  | inl refused ↦ absurd (ground arith)
  | inr fine ↦ (ground (arith, fine), ground arith)
]

-- The folder that Create replied, at a time after the zero time, is what Get then shows, while the
-- database answers.
pub create-get :
    (id org_id : String) (p : Option Principal) (body : Option CreateRequest) (w w' : World)
    (f : Folder)
    → (create id org_id p body w).0 ≡ ok (json 201 f)
    → 0 < w.now
    → w'.db ≡ (create id org_id p body w).1.db
    → w'.fails w'.calls ≡ false
    → (get id w').0 ≡ ok (json 200 f)
create-get id org_id (some p) (some body) w w' f made later same answers =
    let new : Folder = new_folder id org_id p body w.now in
    let (is_new, done, world) = created id org_id p body w f made in
    let (fresh, rows) = stored new w done in
    let found : find (λ row. row.id == id) w'.db.folders ≡ some new =
      ap (λ (db : Db). find (λ row. row.id == id) db.folders) same
      ∙ ap (λ (v : World). find (λ row. row.id == id) v.db.folders) world
      ∙ ap (find (λ row. row.id == id)) rows
      ∙ ap (λ (f : Folder). find (λ row. row.id == id) (insert f w.db.folders))
          (created_row_of w.now new later later)
      ∙ find-insert new w.db.folders fresh in
    get_found id w' f (found ∙ ap some (sym is_new)) (ap (λ (g : Folder). g.deleted_at) is_new)
      answers
create-get id org_id none body w w' f made later same answers =
    absurd (unfold create ◌>>=◌ in ground arith)
create-get id org_id (some p) none w w' f made later same answers =
    absurd (unfold create ◌>>=◌ in ground arith)

-- A field after a body that may leave it out.
abbrev pub Becomes {ℓ} : {A : Type ℓ} → Option A → A → A → Type ℓ
Becomes none old new = new ≡ old
Becomes (some x) old new = new ≡ x

abbrev pub BecomesSome : Option String → Option String → Option String → Type 0
BecomesSome none old new = new ≡ old
BecomesSome (some x) old new = new ≡ some x

-- The folder after the body: what the body leaves out is as it was, and so is what it cannot set.
pub record IsMerged (body : UpdateRequest) (old new : Folder) : Type 0 where
  pub name : Becomes body.name old.name new.name
  pub parent_id : BecomesSome body.parent_id old.parent_id new.parent_id
  pub team_id : BecomesSome body.team_id old.team_id new.team_id
  pub order : Becomes body.order old.order new.order
  pub id : new.id ≡ old.id
  pub org_id : new.org_id ≡ old.org_id
  pub type : new.type ≡ old.type
  pub created_by : new.created_by ≡ old.created_by
  pub created_at : new.created_at ≡ old.created_at
  pub deleted_at : new.deleted_at ≡ old.deleted_at

becomes {ℓ} : {A : Type ℓ} (o : Option A) (old : A) → Becomes o old (or_else o old)
becomes none old = refl
becomes (some x) old = refl

becomes_some : (o old : Option String) → BecomesSome o old (or_kept o old)
becomes_some none old = refl
becomes_some (some x) old = refl

merged-IsMerged :
    (body : UpdateRequest) (old : Folder) (t : ℕ)
    → IsMerged body old (record (merged body old) { updated_at = t })
merged-IsMerged body old t = record {
  name = becomes body.name old.name;
  parent_id = becomes_some body.parent_id old.parent_id;
  team_id = becomes_some body.team_id old.team_id;
  order = becomes body.order old.order;
  id = refl;
  org_id = refl;
  type = refl;
  created_by = refl;
  created_at = refl;
  deleted_at = refl;
}

-- The store's answer to the update of a folder that Get would show.
updated :
    (replied_at : ℕ) (id : String) (body : UpdateRequest) (w : World) (f : Folder)
    → (update replied_at id (some body) w).0 ≡ ok (json 200 f)
    → (old : Folder) × (find (λ row. row.id == id) w.db.folders ≡ some old)
      × (old.deleted_at ≡ none)
      × (f ≡ record (merged body old) { updated_at = replied_at })
      × ((Rows.update_folder (merged body old) (record w { calls = w.calls + 1 })).0 ≡ ok tt)
      × ((update replied_at id (some body) w).1
          ≡ (Rows.update_folder (merged body old) (record w { calls = w.calls + 1 })).1)
unfolding update Rows.get_folder ◌>>=◌
updated replied_at id body w f done =
    elim (Option-cases (find (λ row. row.id == id) w.db.folders)) [
      | inl missing ↦ absurd (ground arith)
      | inr (old, found) ↦ (old, found, ground arith, ground arith, ground arith, ground arith)
    ]

written :
    (f : Folder) (w : World)
    → (Rows.update_folder f w).0 ≡ ok tt
    → (Rows.update_folder f w).1.db.folders
      ≡ update_where (is_live f.id) (updated_folder f w.now) w.db.folders
unfolding Rows.update_folder ◌>>=◌
written f w done = ground arith

-- The folder that Update replied for a body is that of the row before it, with the fields that the
-- body gives, and all others as they were but `updated_at`, which is the time of the reply. It is
-- what Get then shows, but for `updated_at`, which is the time of the write, while the database
-- answers.
pub update-get :
    (replied_at : ℕ) (id : String) (body : UpdateRequest) (w w' : World) (f : Folder)
    → (update replied_at id (some body) w).0 ≡ ok (json 200 f)
    → w'.db ≡ (update replied_at id (some body) w).1.db
    → w'.fails w'.calls ≡ false
    → ((old : Folder) × (find (λ row. row.id == id) w.db.folders ≡ some old) × IsMerged body old f)
      × (f.updated_at ≡ replied_at)
      × ((get id w').0 ≡ ok (json 200 (record f { updated_at = w.now })))
update-get replied_at id body w w' f done same answers =
    let (old, found, live, is_f, wrote, world) = updated replied_at id body w f done in
    let rows = written (merged body old) (record w { calls = w.calls + 1 }) wrote in
    let shown : Folder = record (merged body old) { updated_at = w.now } in
    let q : Folder → Bool = λ row. row.id == id in
    let f' : Folder → Folder = updated_folder (merged body old) w.now in
    let now_found : find q w'.db.folders ≡ find q (update_where (is_live old.id) f' w.db.folders) =
      ap (λ (db : Db). find q db.folders) same
      ∙ ap (λ (v : World). find q v.db.folders) world
      ∙ ap (find q) rows in
    let changed = find-update_where (is_live old.id) q f' w.db.folders (λ _. refl) in
    (
      (old, found, subst (IsMerged body old) (sym is_f) (merged-IsMerged body old replied_at)),
      ap (λ (g : Folder). g.updated_at) is_f,
      get_found id w' shown (now_found ∙ changed ∙ ground (arith, found, live, eq_refl old.id)) live
            answers
          ∙ ap (λ (g : Folder). ok (json 200 (record g { updated_at = w.now }))) (sym is_f),
    )
