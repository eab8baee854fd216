-- ===== src/Accounts/Invariant.antt =====
-- What every sequence of requests keeps of the table of service accounts.
use uigraph_api.Prelude.{
  ℕ, String, Bool, false, ◌&&◌, ◌||◌, Option, some, List, [], ◌∷◌, ◌≡◌, refl, ◌==◌, arith, any,
  find, All-map, ◌∙◌,
}
use uigraph_api.Db.{Db, ServiceAccount}
use uigraph_api.Exec.Rules.{Maintains, maintains_rules}
use uigraph_api.Exec.Checks.{
  Ensures-read, Ensures-stop_if, Ensures-require, Ensures-insert_if, Ensures-timed,
  Ensures-timed_if, Ensures-bind, Maintains-of_Ensures,
}
use uigraph_api.Store.Tables.{update_where, insert, All-insert, All-update_where}
use uigraph_api.Store.Accounts as Rows
use uigraph_api.Store.Accounts.{is_live, updated_account}
use uigraph_api.Accounts.{
  CreateRequest, UpdateRequest, new_account, account_update, create, update, delete,
}
use uigraph_api.Accounts.Table.{
  HasValidScopes, IsSound, known_scopes-IsValid, UniqueIds-update_where, internal-update_where,
  mark_of_id, UniqueIds-insert, internal-insert,
}

module _ (builtin : List ServiceAccount) where
  -- The change of the table in UpdateServiceAccount, after the checks of the handler.
  update_rows :
      (id : String) (db : Db) (existing new : ServiceAccount) (now : ℕ)
      → find (is_live id) db.accounts ≡ some existing
      → existing.is_internal ≡ false
      → HasValidScopes new
      → IsSound builtin db
      → IsSound builtin
          (record db { accounts = update_where (is_live id) (updated_account new now) db.accounts })
  update_rows id db existing new now e plain valid s =
      let p : ServiceAccount → Bool = is_live id in
      let f : ServiceAccount → ServiceAccount = updated_account new now in
      record {
        unique = UniqueIds-update_where p f (λ _. refl) db.accounts s.unique;
        scoped = All-update_where HasValidScopes p f db.accounts (λ _ _ _. valid) s.scoped;
        kept =
            internal-update_where p f (λ _. refl) (λ _. refl) db.accounts
              (All-map (λ x mark live. mark (ground arith) ∙ plain) db.accounts
                (mark_of_id id db.accounts existing s.unique e))
            ∙ s.kept;
      }

  delete_rows :
      (id : String) (db : Db) (existing : ServiceAccount) (now : ℕ)
      → find (is_live id) db.accounts ≡ some existing
      → existing.is_internal ≡ false
      → IsSound builtin db
      → IsSound builtin (record db {
        accounts =
            update_where
              (λ sa. sa.id == id)
              (λ sa. record sa { deleted_at = some now })
              db.accounts;
      })
  delete_rows id db existing now e plain s =
      let p : ServiceAccount → Bool = λ sa. sa.id == id in
      let f : ServiceAccount → ServiceAccount = λ sa. record sa { deleted_at = some now } in
      record {
        unique = UniqueIds-update_where p f (λ _. refl) db.accounts s.unique;
        scoped = All-update_where HasValidScopes p f db.accounts (λ _ _ v. v) s.scoped;
        kept =
            internal-update_where p f (λ _. refl) (λ _. refl) db.accounts
              (All-map (λ x mark named. mark named ∙ plain) db.accounts
                (mark_of_id id db.accounts existing s.unique e))
            ∙ s.kept;
      }

  insert_rows :
      (db : Db) (sa : ServiceAccount)
      → any (λ row. row.id == sa.id) db.accounts ≡ false
      → sa.is_internal ≡ false
      → HasValidScopes sa
      → IsSound builtin db
      → IsSound builtin (record db { accounts = insert sa db.accounts })
  insert_rows db sa fresh plain valid s = record {
    unique = UniqueIds-insert sa db.accounts fresh s.unique;
    scoped = All-insert HasValidScopes sa db.accounts valid s.scoped;
    kept = internal-insert sa db.accounts plain ∙ s.kept;
  }

  pub update-IsSound :
      (sa_id : String) (body : Option UpdateRequest)
      → Maintains (IsSound builtin) (update sa_id body)
  unfolding update Rows.get_service_account Rows.update_service_account
  update-IsSound sa_id body = Maintains-of_Ensures _ (
      Ensures-read (λ db s. s) _ _
        λ found.
          Ensures-require (λ db s. s.0) found _ _
            λ existing e.
              Ensures-stop_if (λ db s. s.0) existing.is_internal _ _
                λ plain.
                  Ensures-require (λ db s. s.0) body _ _
                    λ req _.
                      Ensures-stop_if (λ db s. s.0) (req.name == "") _ _
                        λ _.
                          Ensures-bind _ _
                            (Ensures-timed_if (λ db s. s.0) _ _
                              λ now db s.
                                update_rows sa_id db existing (account_update sa_id req) now
                                  (s.1 ∙ e) plain (known_scopes-IsValid req.scopes) s.0)
                            λ _. search maintains_rules)

  pub delete-IsSound : (sa_id : String) → Maintains (IsSound builtin) (delete sa_id)
  unfolding delete Rows.get_service_account Rows.delete_service_account
  delete-IsSound sa_id = Maintains-of_Ensures _ (
      Ensures-read (λ db s. s) _ _
        λ found.
          Ensures-require (λ db s. s.0) found _ _
            λ existing e.
              Ensures-stop_if (λ db s. s.0) existing.is_internal _ _
                λ plain.
                  Ensures-bind _ _
                    (Ensures-timed (λ db s. s.0) _
                      λ now db s. delete_rows sa_id db existing now (s.1 ∙ e) plain s.0)
                    λ _. search maintains_rules)

  clash_of_id :
      (sa : ServiceAccount) (rows : List ServiceAccount)
      → any (λ row. row.id == sa.id || (row.org_id == sa.org_id && row.name == sa.name)) rows
        ≡ false
      → any (λ row. row.id == sa.id) rows ≡ false
  clash_of_id sa [] h = refl
  clash_of_id sa (a ∷ rows) h = ground (arith, clash_of_id sa rows)

  pub create-IsSound :
      (new_id org_id : String) (body : Option CreateRequest)
      → Maintains (IsSound builtin) (create new_id org_id body)
  unfolding create Rows.create_service_account
  create-IsSound new_id org_id body = Maintains-of_Ensures _ (
      Ensures-require (λ db s. s) body _ _
        λ req _.
          Ensures-stop_if (λ db s. s) (req.name == "") _ _
            λ _.
              Ensures-bind _ _
                (Ensures-insert_if (λ db s. s) _ _
                  λ db fresh s.
                    insert_rows db (new_account new_id org_id req)
                      (clash_of_id (new_account new_id org_id req) db.accounts fresh) refl
                      (known_scopes-IsValid req.scopes) s)
                λ _. search maintains_rules)
