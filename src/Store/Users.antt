-- ===== src/Store/Users.antt =====
-- internal/store/postgres/user_store.go
use uigraph_api.Prelude.{String, Bool, true, not, ◌&&◌, ◌||◌, Option, List, ◌==◌, any, find}
use uigraph_api.Http.{Error}
use uigraph_api.Db.{User}
use uigraph_api.Exec.{Exec, query, exec, insert_if}
use uigraph_api.Store.Ordered.{Locale, order_by}
use uigraph_api.Store.Tables.{update_where, insert}

-- id, email and login are unique columns.
abbrev clashes : User → User → Bool
clashes u v = v.id == u.id || v.email == u.email || v.login == u.login

unfoldable pub create_user : User → Exec Error (Unit {0})
create_user u =
    insert_if (λ db. any (clashes u) db.users) (λ db. record db { users = insert u db.users })

unfoldable pub get_user : String → Exec Error (Option User)
get_user id = query (λ db. find (λ u. u.id == id) db.users)

unfoldable pub get_user_by_email : String → Exec Error (Option User)
get_user_by_email email = query (λ db. find (λ u. u.email == email) db.users)

-- The statement sets neither the id nor the e-mail address.
abbrev pub updated_user : User → User → User
updated_user u row = record row {
  name = u.name;
  login = u.login;
  password_hash = u.password_hash;
  must_change_password = u.must_change_password;
  disabled = u.disabled;
  role = u.role;
}

-- The login of another user, which the unique column refuses.
abbrev pub login_taken : User → List User → Bool
login_taken u users =
    any (λ v. v.id == u.id) users && any (λ v. not (v.id == u.id) && v.login == u.login) users

unfoldable pub update_user : User → Exec Error (Unit {0})
update_user u =
    insert_if (λ db. login_taken u db.users)
      (λ db. record db { users = update_where (λ v. v.id == u.id) (updated_user u) db.users })

unfoldable pub disable_user : String → Exec Error (Unit {0})
disable_user id = exec (λ db. record db {
  users = update_where (λ v. v.id == id) (λ v. record v { disabled = true }) db.users;
})

module _ (locale : Locale) where
  unfoldable pub list_all_users : Exec Error (List User)
  list_all_users = query (λ db. order_by (λ u v. locale.before u.name v.name) db.users)
