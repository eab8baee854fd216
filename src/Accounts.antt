-- ===== src/Accounts.antt =====
-- internal/api/auth/serviceaccount.go: the handlers for service accounts and their tokens. A body
-- that cannot be decoded is `none`; fresh ids and tokens are arguments, since they are random.
pub mod Lifecycle
pub mod Invariant
pub mod Table
pub mod Requests
use uigraph_api.Prelude.{
  ℕ, ◌+◌, String, Bool, true, false, not, Option, none, some, List, [], ◌∷◌, ◌==◌, filter,
  if◌then◌else◌,
}
use Prim.Native.String
use uigraph_api.Http.{
  Error, database, not_found, Reply, json, no_content, error_reply, bad_request, forbidden_reply,
}
use uigraph_api.Db.{ServiceAccount, Token}
use uigraph_api.Exec.{
  require, Exec, Result, ok, err, pure, stop, stop_if, lift, attempt, cache_del, ◌>>=◌, ◌>>◌,
}
use uigraph_api.Authz.Scope.{valid_scope}
use uigraph_api.Identity.Token.{prefix}
use uigraph_api.Store.Accounts as Rows

pub record CreateRequest : Type 0 where
  pub name : String
  pub description : String
  pub scopes : List String

pub record UpdateRequest : Type 0 where
  pub name : String
  pub description : String
  pub scopes : List String
  pub disabled : Bool

pub record CreateTokenRequest : Type 0 where
  pub name : String
  pub expires_at : Option String

-- The response that shows the plaintext.
pub record CreatedToken : Type 0 where
  pub id : String
  pub name : String
  pub token : String

unfoldable pub known_scopes : List String → List String
known_scopes scopes = filter valid_scope scopes

abbrev pub new_account : String → String → CreateRequest → ServiceAccount
new_account new_id org_id req = record {
  id = new_id;
  org_id = org_id;
  name = req.name;
  description = req.description;
  scopes = known_scopes req.scopes;
  disabled = false;
  is_internal = false;
  updated_at = 0;
  deleted_at = none;
}

-- The fields that the literal of the handler leaves out have zero values; the store reads none.
abbrev pub account_update : String → UpdateRequest → ServiceAccount
account_update sa_id req = record {
  id = sa_id;
  org_id = "";
  name = req.name;
  description = req.description;
  scopes = known_scopes req.scopes;
  disabled = req.disabled;
  is_internal = false;
  updated_at = 0;
  deleted_at = none;
}

unfoldable pub list : String → Exec (Reply (List ServiceAccount)) (Reply (List ServiceAccount))
list org_id = do accounts ← attempt (Rows.list_service_accounts org_id); pure (json 200 accounts)

unfoldable pub create :
    String → String → Option CreateRequest → Exec (Reply ServiceAccount) (Reply ServiceAccount)
create new_id org_id body = do
  req ← require body (bad_request "invalid JSON")
  stop_if (req.name == "") (bad_request "name is required")
  let sa = new_account new_id org_id req
  attempt (Rows.create_service_account sa)
  pure (json 201 sa)

unfoldable pub get : String → Exec (Reply ServiceAccount) (Reply ServiceAccount)
get sa_id = do
  found ← attempt (Rows.get_service_account sa_id)
  sa ← require found (error_reply not_found)
  pure (json 200 sa)

-- `cache.ActorKey`
abbrev actor_key : String → String
actor_key id = String.◌++◌ "actor:" id

unfoldable pub update :
    String → Option UpdateRequest → Exec (Reply ServiceAccount) (Reply ServiceAccount)
update sa_id body = do
  found ← attempt (Rows.get_service_account sa_id)
  existing ← require found (error_reply not_found)
  stop_if existing.is_internal forbidden_reply
  req ← require body (bad_request "invalid JSON")
  stop_if (req.name == "") (bad_request "name is required")
  attempt (Rows.update_service_account (account_update sa_id req))
  cache_del (actor_key sa_id)
  pure no_content

unfoldable pub delete : String → Exec (Reply ServiceAccount) (Reply ServiceAccount)
delete sa_id = do
  found ← attempt (Rows.get_service_account sa_id)
  existing ← require found (error_reply not_found)
  stop_if existing.is_internal forbidden_reply
  attempt (Rows.delete_service_account sa_id)
  cache_del (actor_key sa_id)
  pure no_content

unfoldable pub list_tokens : String → Exec (Reply (List Token)) (Reply (List Token))
list_tokens sa_id = do tokens ← attempt (Rows.list_tokens sa_id); pure (json 200 tokens)

-- `identity.Generate` for the random bytes in hexadecimal, or none if the source of randomness
-- fails: the plaintext.
abbrev pub generated : Option String → Result Error String
generated none = err database
generated (some random) = ok (String.◌++◌ "uig_" random)

-- An absent or empty date means no expiry; another one must be readable.
abbrev pub expiry : (String → Option ℕ) → Option String → Option (Option ℕ)
expiry parse_time none = some none
expiry parse_time (some date) =
    if date == ""
    then some none
    else elim (parse_time date) [ none ↦ none | some t ↦ some (some t) ]

module _ (hash : String → String) (parse_time : String → Option ℕ) where
  unfoldable pub create_token :
      String
      → Option String
      → String
      → Option CreateTokenRequest
      → Exec (Reply CreatedToken) (Reply CreatedToken)
  create_token new_id random sa_id body = do
    req ← require body (bad_request "invalid JSON")
    stop_if (req.name == "") (bad_request "name is required")
    plaintext ← attempt (lift (generated random))
    expires_at ←
        require (expiry parse_time req.expires_at)
          (bad_request "expiresAt must be an RFC3339 timestamp")
    attempt (
        Rows.create_token (record {
          id = new_id;
          service_account_id = sa_id;
          name = req.name;
          prefix = prefix plaintext;
          hash = hash plaintext;
          expires_at = expires_at;
          last_used_at = none;
          revoked = false;
        }))
    pure (json 201 (record { id = new_id; name = req.name; token = plaintext }))

unfoldable pub revoke_token : String → Exec (Reply Token) (Reply Token)
revoke_token token_id = do attempt (Rows.revoke_token token_id); pure no_content
