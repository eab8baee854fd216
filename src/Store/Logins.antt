-- ===== src/Store/Logins.antt =====
-- internal/store/postgres/login_store.go and the login states of provider_store.go.
use uigraph_api.Prelude.{
  ℕ, String, Bool, not, ◌&&◌, ◌||◌, Option, none, some, List, ◌==◌, any, find, filter, length, ltb,
  if◌then◌else◌,
}
use uigraph_api.Http.{Error}
use uigraph_api.Db.{LoginState, AuthIdentity}
use uigraph_api.Exec.{Exec, ok, pure, query, exec, insert_if, statement, now_of, ◌>>=◌}
use uigraph_api.Store.Members.{has_user}
use uigraph_api.Store.Tables.{update_where, delete_where, insert}

-- The column created_at is the time of the call.
unfoldable pub create_login_state : LoginState → Exec Error (Unit {0})
create_login_state s = do
  now ← now_of
  insert_if
      (λ db.
        any (λ row. row.id == s.id || row.state == s.state) db.login_states
        || not (any (λ o. o.id == s.org_id) db.orgs)
        || not (any (λ p. p.id == s.provider_id) db.providers))
      (λ db. record db { login_states = insert (record s { created_at = now }) db.login_states })

-- A state that has expired is deleted too, and is answered as a missing one.
abbrev pub if_fresh : ℕ → Option LoginState → Option LoginState
if_fresh now none = none
if_fresh now (some s) = if ltb s.expires_at now then none else some s

unfoldable pub take_login_state : String → Exec Error (Option LoginState)
take_login_state state =
    statement (λ db. ok (find (λ s. s.state == state) db.login_states))
      (λ db. record db { login_states = delete_where (λ s. s.state == state) db.login_states })

unfoldable pub consume_login_state : String → Exec Error (Option LoginState)
consume_login_state state = do row ← take_login_state state; now ← now_of; pure (if_fresh now row)

unfoldable pub purge_expired_login_state : Exec Error (Unit {0})
purge_expired_login_state = do
  now ← now_of
  exec (λ db. record db { login_states = delete_where (λ s. ltb s.expires_at now) db.login_states })

-- `ON CONFLICT (provider, provider_sub)`
abbrev pub same_sub : AuthIdentity → AuthIdentity → Bool
same_sub a row = row.provider_id == a.provider_id && row.sub == a.sub

unfoldable pub upserted : AuthIdentity → List AuthIdentity → List AuthIdentity
upserted a rows =
    if any (same_sub a) rows
    then update_where (same_sub a) (λ row. record row { user_id = a.user_id }) rows
    else insert a rows

unfoldable pub upsert_auth_identity : AuthIdentity → Exec Error (Unit {0})
upsert_auth_identity a =
    insert_if (λ db. not (has_user db.users a.user_id))
      (λ db. record db { identities = upserted a db.identities })

unfoldable pub record_login_attempt : String → String → Exec Error (Unit {0})
record_login_attempt username ip = do
  now ← now_of
  exec (λ db. record db {
    attempts = insert (record { username = username; ip = ip; created_at = now }) db.attempts;
  })

unfoldable pub count_login_attempts : String → ℕ → Exec Error ℕ
count_login_attempts username since =
    query
      (λ db. length (filter (λ a. a.username == username && ltb since a.created_at) db.attempts))
