-- ===== src/Http.antt =====
-- internal/httputil/respond.go and the errors of internal/store/store.go: the errors that the
-- layers below a handler return, and the replies that a handler writes. A body is the value that
-- the source encodes as JSON.
use uigraph_api.Prelude.{ℕ, String}

-- `database` stands for an error of the driver or of the network, which no test by `errors.Is`
-- matches. `membership_not_found` and `forbidden` are `authz.ErrNotFound` and `authz.ErrForbidden`.
pub data Error : Type 0 where
  not_found conflict invalid_dependency team_not_found service_name_exists : Error
  membership_not_found forbidden : Error
  database : Error

pub data Reply (A : Type 0) : Type 0 where
  json : ℕ → A → Reply A
  no_content : Reply A
  api_error : ℕ → String → String → Reply A
  redirect : String → Reply A
  -- the bodies {"error": …, "code": …} of the middleware and the guards
  refused : ℕ → String → Reply A

module _ {A : Type 0} where
  -- `httputil.Error`
  unfoldable pub error_reply : Error → Reply A
  error_reply not_found = api_error 404 "not_found" "not found"
  error_reply conflict = api_error 409 "conflict" "conflict"
  error_reply _ = api_error 500 "internal_error" "an unexpected error occurred"

  abbrev pub bad_request : String → Reply A
  bad_request msg = api_error 400 "bad_request" msg

  abbrev pub forbidden_reply : Reply A
  forbidden_reply = api_error 403 "forbidden" "insufficient permissions"

  abbrev pub unauthorized_reply : Reply A
  unauthorized_reply = api_error 401 "unauthenticated" "authentication required"

  abbrev pub too_many_requests : String → Reply A
  too_many_requests msg = api_error 429 "too_many_requests" msg
