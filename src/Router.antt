-- ===== src/Router.antt =====
-- internal/api/router.go: the guards that stand before every handler.
pub mod Guarded
pub mod Administered
use uigraph_api.Prelude.{
  String, Bool, true, false, not, ◌||◌, Option, none, some, List, [], ◌==◌, if◌then◌else◌,
}
use uigraph_api.Http.{Error, Reply, refused}
use uigraph_api.Exec.{World, Exec, Result, ok, err}
use uigraph_api.Identity.Principal.{Principal, PrincipalKind, user, service_account}
use uigraph_api.Authz.Scope.{Scope, has}
use uigraph_api.Authz.Authorizer.{is_user_server_admin, scopes_for_user}
use uigraph_api.Middleware.{Middleware, Request, Handler, authenticated}

-- `nil, false` after an error
abbrev resolved : Result Error (List Scope) → Option (List String)
resolved (ok scopes) = some scopes
resolved (err e) = none

-- `none` is the answer `nil, false`
abbrev scopes_of_kind : PrincipalKind → Principal → String → World → Option (List String) × World
scopes_of_kind service_account p org_id w =
    (if p.org_id == "" || not (p.org_id == org_id) then none else some p.scopes, w)
scopes_of_kind user p org_id w =
    let answer = scopes_for_user p.user_id org_id w in (resolved answer.0, answer.1)

unfoldable pub principal_scopes : Principal → String → World → Option (List String) × World
principal_scopes p org_id w = scopes_of_kind p.kind p org_id w

module _ {A : Type 0} where
  abbrev pass_scopes :
      Scope → Handler A → Request → Principal → Option (List String) × World → Reply A × World
  pass_scopes scope h r p (none, w) = (refused 403 "forbidden", w)
  pass_scopes scope h r p (some scopes, w) =
      if has scopes scope then h r (some p) w else (refused 403 "forbidden", w)

  -- The body of `requireScope`
  unfoldable pub scope_guard : Scope → Handler A → Handler A
  scope_guard scope h r none w = (refused 401 "unauthenticated", w)
  scope_guard scope h r (some p) w = pass_scopes scope h r p (principal_scopes p r.org_id w)

  abbrev pass_admin : Handler A → Request → Principal → Result Error Bool × World → Reply A × World
  pass_admin h r p (err e, w) = (refused 403 "forbidden", w)
  pass_admin h r p (ok admin, w) = if admin then h r (some p) w else (refused 403 "forbidden", w)

  -- The body of `serverAdmin`
  unfoldable pub server_admin_guard : Handler A → Handler A
  server_admin_guard h r none w = (refused 401 "unauthenticated", w)
  server_admin_guard h r (some p) w = pass_admin h r p (is_user_server_admin p.user_id w)

  -- The three ways to register a route: what a request of that route runs.
  unfoldable pub protected_route : Middleware → Handler A → Request → World → Reply A × World
  protected_route mw h = authenticated mw h

  unfoldable pub require_scope : Middleware → Scope → Handler A → Request → World → Reply A × World
  require_scope mw scope h = authenticated mw (scope_guard scope h)

  unfoldable pub server_admin : Middleware → Handler A → Request → World → Reply A × World
  server_admin mw h = authenticated mw (server_admin_guard h)
