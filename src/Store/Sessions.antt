-- ===== src/Store/Sessions.antt =====
-- internal/store/postgres/session_store.go
use uigraph_api.Prelude.{
  ℕ, String, Bool, true, false, not, ◌&&◌, ◌||◌, Option, ◌==◌, any, find, ltb, nat_beq,
  if◌then◌else◌,
}
use uigraph_api.Http.{Error}
use uigraph_api.Db.{Session}
use uigraph_api.Exec.{Exec, query, exec, insert_if, now_of, ◌>>=◌}
use uigraph_api.Store.Tables.{update_where, delete_where, insert}

abbrev or_now : ℕ → ℕ → ℕ
or_now now t = if nat_beq t 0 then now else t

-- The values that CreateSession fills in for zero times and an empty provider.
unfoldable pub stored : ℕ → Session → Session
stored now s = record s {
  created_at = or_now now s.created_at;
  rotated_at = or_now now s.rotated_at;
  last_active_at = or_now now s.last_active_at;
  auth_provider = if s.auth_provider == "" then "password" else s.auth_provider;
}

unfoldable pub create_session : Session → Exec Error (Unit {0})
create_session s = do
  now ← now_of
  insert_if
      (λ db.
        any (λ row. row.id == s.id || row.token_hash == s.token_hash) db.sessions
        || not (any (λ u. u.id == s.user_id) db.users))
      (λ db. record db { sessions = insert (stored now s) db.sessions })

-- The row condition of GetSessionByToken. An empty previous hash is stored as NULL, which equals
-- no text.
unfoldable pub accepts : ℕ → String → Session → Bool
accepts now hash s =
    (s.token_hash == hash
      || (not (s.prev_token_hash == "") && s.prev_token_hash == hash && not s.auth_token_seen))
    && ltb now s.expires_at

unfoldable pub get_session_by_token : String → Exec Error (Option Session)
get_session_by_token hash = do now ← now_of; query (λ db. find (accepts now hash) db.sessions)

unfoldable pub rotate_session : String → String → String → Exec Error (Unit {0})
rotate_session id new_hash prev_hash = do
  now ← now_of
  exec (λ db. record db {
    sessions =
        update_where (λ s. s.id == id)
          (λ s. record s {
            token_hash = new_hash;
            prev_token_hash = prev_hash;
            auth_token_seen = false;
            rotated_at = now;
            last_active_at = now;
          })
          db.sessions;
  })

unfoldable pub mark_token_seen : String → Exec Error (Unit {0})
mark_token_seen id = exec (λ db. record db {
  sessions = update_where (λ s. s.id == id) (λ s. record s { auth_token_seen = true }) db.sessions;
})

unfoldable pub delete_session : String → Exec Error (Unit {0})
delete_session id = exec (λ db. record db { sessions = delete_where (λ s. s.id == id) db.sessions })

unfoldable pub delete_user_sessions : String → Exec Error (Unit {0})
delete_user_sessions user_id =
    exec (λ db. record db { sessions = delete_where (λ s. s.user_id == user_id) db.sessions })
