-- ===== src/Store/Accounts.antt =====
-- internal/store/postgres/serviceaccount_store.go
use uigraph_api.Prelude.{
  ℕ, String, Bool, true, not, ◌&&◌, ◌||◌, Option, some, List, ◌==◌, any, find, filter, is_some,
}
use uigraph_api.Http.{Error}
use uigraph_api.Db.{ServiceAccount, Token}
use uigraph_api.Exec.{Exec, query, exec, insert_if, now_of, ◌>>=◌}
use uigraph_api.Store.Tables.{update_where, insert}

-- `UNIQUE (org_id, name)` counts the deleted rows too.
abbrev clashes : ServiceAccount → ServiceAccount → Bool
clashes sa row = row.id == sa.id || (row.org_id == sa.org_id && row.name == sa.name)

-- `id = $1 AND deleted_at IS NULL`
abbrev pub is_live : String → ServiceAccount → Bool
is_live id sa = sa.id == id && not (is_some sa.deleted_at)

unfoldable pub create_service_account : ServiceAccount → Exec Error (Unit {0})
create_service_account sa =
    insert_if (λ db. any (clashes sa) db.accounts)
      (λ db. record db { accounts = insert sa db.accounts })

unfoldable pub get_service_account : String → Exec Error (Option ServiceAccount)
get_service_account id = query (λ db. find (is_live id) db.accounts)

-- The listings here leave out the order, which is by `created_at`.
unfoldable pub list_service_accounts : String → Exec Error (List ServiceAccount)
list_service_accounts org_id =
    query (λ db. filter (λ sa. sa.org_id == org_id && not (is_some sa.deleted_at)) db.accounts)

abbrev pub updated_account : ServiceAccount → ℕ → ServiceAccount → ServiceAccount
updated_account sa now row = record row {
  name = sa.name;
  description = sa.description;
  scopes = sa.scopes;
  disabled = sa.disabled;
  updated_at = now;
}

-- The new name of a row that the statement finds is that of another row of the organisation.
abbrev takes_name : ServiceAccount → List ServiceAccount → ServiceAccount → Bool
takes_name sa rows row =
    is_live sa.id row
    && any (λ x. x.org_id == row.org_id && x.name == sa.name && not (x.id == row.id)) rows

unfoldable pub update_service_account : ServiceAccount → Exec Error (Unit {0})
update_service_account sa = do
  now ← now_of
  insert_if (λ db. any (takes_name sa db.accounts) db.accounts)
      (λ db. record db {
        accounts = update_where (is_live sa.id) (updated_account sa now) db.accounts;
      })

unfoldable pub delete_service_account : String → Exec Error (Unit {0})
delete_service_account id = do
  now ← now_of
  exec (λ db. record db {
    accounts =
        update_where (λ sa. sa.id == id) (λ sa. record sa { deleted_at = some now }) db.accounts;
  })

-- `UNIQUE (prefix)`; an account may have two tokens of one name.
abbrev pub token_clashes : Token → Token → Bool
token_clashes t row = row.id == t.id || row.prefix == t.prefix

-- `service_account_id REFERENCES service_accounts (id)`: a deleted account still has its row.
abbrev lacks_account : List ServiceAccount → String → Bool
lacks_account accounts id = not (any (λ sa. sa.id == id) accounts)

unfoldable pub create_token : Token → Exec Error (Unit {0})
create_token t =
    insert_if
      (λ db. any (token_clashes t) db.tokens || lacks_account db.accounts t.service_account_id)
      (λ db. record db { tokens = insert t db.tokens })

unfoldable pub get_token_by_prefix : String → Exec Error (Option Token)
get_token_by_prefix prefix = query (λ db. find (λ t. t.prefix == prefix) db.tokens)

unfoldable pub list_tokens : String → Exec Error (List Token)
list_tokens account_id = query (λ db. filter (λ t. t.service_account_id == account_id) db.tokens)

unfoldable pub revoke_token : String → Exec Error (Unit {0})
revoke_token id = exec (λ db. record db {
  tokens = update_where (λ t. t.id == id) (λ t. record t { revoked = true }) db.tokens;
})

unfoldable pub touch_token : String → Exec Error (Unit {0})
touch_token id = do
  now ← now_of
  exec (λ db. record db {
    tokens = update_where (λ t. t.id == id) (λ t. record t { last_used_at = some now }) db.tokens;
  })
