-- ===== src/Accounts/Requests.antt =====
-- Any sequence of requests to the handlers for service accounts and tokens.
use uigraph_api.Prelude.{ℕ, String, Option, List, [], ◌∷◌}
use uigraph_api.Db.{Db, ServiceAccount, Token}
use uigraph_api.Exec.{World}
use uigraph_api.Exec.Rules.{Maintains, Maintains-exec, Maintains-insert_if, maintains_rules}
use uigraph_api.Store.Accounts as Rows
use uigraph_api.Accounts.{
  CreateRequest, UpdateRequest, CreateTokenRequest, list, create, get, update, delete, list_tokens,
  create_token, revoke_token,
}
use uigraph_api.Accounts.Table.{IsSound}
use uigraph_api.Accounts.Invariant.{create-IsSound, update-IsSound, delete-IsSound}

-- A request, with what is random of it: fresh ids and the random part of a token.
pub data AccountRequest : Type 0 where
  to_list : String → AccountRequest
  to_create : String → String → Option CreateRequest → AccountRequest
  to_get : String → AccountRequest
  to_update : String → Option UpdateRequest → AccountRequest
  to_delete : String → AccountRequest
  to_list_tokens : String → AccountRequest
  to_create_token : String → Option String → String → Option CreateTokenRequest → AccountRequest
  to_revoke_token : String → AccountRequest

module _ {builtin : List ServiceAccount} where
  create_token_rows :
      (db : Db) (tokens : List Token)
      → IsSound builtin db
      → IsSound builtin (record db { tokens = tokens })
  create_token_rows db tokens s = record { unique = s.unique; scoped = s.scoped; kept = s.kept }

  token_insert : (t : Token) → Maintains (IsSound builtin) (Rows.create_token t)
  unfolding Rows.create_token
  token_insert t = Maintains-insert_if _ _ (λ db _ s. create_token_rows db _ s)

  token_revoke : (id : String) → Maintains (IsSound builtin) (Rows.revoke_token id)
  unfolding Rows.revoke_token
  token_revoke id = Maintains-exec _ (λ db s. create_token_rows db _ s)

  create_token-IsSound :
      (hash : String → String) (parse_time : String → Option ℕ) (new_id : String)
      (random : Option String) (sa_id : String) (body : Option CreateTokenRequest)
      → Maintains (IsSound builtin) (create_token hash parse_time new_id random sa_id body)
  unfolding create_token
  create_token-IsSound hash parse_time new_id random sa_id body =
      search (maintains_rules, token_insert) depth 30

  revoke_token-IsSound : (id : String) → Maintains (IsSound builtin) (revoke_token id)
  unfolding revoke_token
  revoke_token-IsSound id = search (maintains_rules, token_revoke)

  list-IsSound : (org_id : String) → Maintains (IsSound builtin) (list org_id)
  unfolding list Rows.list_service_accounts
  list-IsSound org_id = search maintains_rules

  get-IsSound : (id : String) → Maintains (IsSound builtin) (get id)
  unfolding get Rows.get_service_account
  get-IsSound id = search maintains_rules depth 9

  list_tokens-IsSound : (id : String) → Maintains (IsSound builtin) (list_tokens id)
  unfolding list_tokens Rows.list_tokens
  list_tokens-IsSound id = search maintains_rules

module _ (hash : String → String) (parse_time : String → Option ℕ) where
  -- The world after a request.
  pub serve : World → AccountRequest → World
  serve w (to_list org_id) = (list org_id w).1
  serve w (to_create id org_id body) = (create id org_id body w).1
  serve w (to_get id) = (get id w).1
  serve w (to_update id body) = (update id body w).1
  serve w (to_delete id) = (delete id w).1
  serve w (to_list_tokens id) = (list_tokens id w).1
  serve w (to_create_token id random sa_id body) =
      (create_token hash parse_time id random sa_id body w).1
  serve w (to_revoke_token id) = (revoke_token id w).1

  pub serve_all : World → List AccountRequest → World
  serve_all w [] = w
  serve_all w (r ∷ rs) = serve_all (serve w r) rs

  serve-IsSound :
      (builtin : List ServiceAccount) (w : World) (r : AccountRequest)
      → IsSound builtin w.db
      → IsSound builtin (serve w r).db
  unfolding serve
  serve-IsSound builtin w (to_list org_id) = (list-IsSound org_id).at w
  serve-IsSound builtin w (to_create id org_id body) = (create-IsSound builtin id org_id body).at w
  serve-IsSound builtin w (to_get id) = (get-IsSound id).at w
  serve-IsSound builtin w (to_update id body) = (update-IsSound builtin id body).at w
  serve-IsSound builtin w (to_delete id) = (delete-IsSound builtin id).at w
  serve-IsSound builtin w (to_list_tokens id) = (list_tokens-IsSound id).at w
  serve-IsSound builtin w (to_create_token id random sa_id body) =
      (create_token-IsSound hash parse_time id random sa_id body).at w
  serve-IsSound builtin w (to_revoke_token id) = (revoke_token-IsSound id).at w

  -- From a database in which the ids are unique, every account keeps to valid scopes and the
  -- built-in accounts are given: over any sequence of requests to the handlers for service
  -- accounts and tokens, valid or not, and whichever database calls fail, the built-in accounts
  -- stay as they are, the ids stay unique, and every account keeps to valid scopes.
  pub serve_all-IsSound :
      (builtin : List ServiceAccount) (w : World) (rs : List AccountRequest)
      → IsSound builtin w.db
      → IsSound builtin (serve_all w rs).db
  unfolding serve_all
  serve_all-IsSound builtin w [] s = s
  serve_all-IsSound builtin w (r ∷ rs) s =
      serve_all-IsSound builtin (serve w r) rs (serve-IsSound builtin w r s)
