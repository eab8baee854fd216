-- ===== src/Samples/Access.antt =====
-- Requests and principals of the sample world.
use uigraph_api.Prelude.{
  ◌==◌, String, true, false, some, [], ◌∷◌, ◌≡◌, ◌⊎◌, ◌↔◌, inl, refl, find, ◌<◌, Any,
}
use uigraph_api.Http.{Error, no_content, refused}
use uigraph_api.Db.{Session, User}
use uigraph_api.Exec.{ok, err, ◌>>=◌}
use uigraph_api.Identity.Principal.{Principal, user}
use uigraph_api.Identity.Token.{prefix, difference, verify}
use uigraph_api.Identity.Token.Verified.{verify_iff}
use uigraph_api.Authz.Scope.{has, grants}
use uigraph_api.Authz.Scope.Grants.{IsWildcardFor, has_iff}
use uigraph_api.Authz.Authorizer.{is_user_server_admin, is_server_admin}
use uigraph_api.Store.Users.{get_user}
use uigraph_api.Store.Accounts.{get_token_by_prefix, touch_token, get_service_account}
use uigraph_api.Store.Sessions.{accepts, get_session_by_token}
use uigraph_api.Prelude.Text.{cut}
use uigraph_api.Middleware.{
  Handler, account_principal, extract_bearer, check_token, verify_api_key, session_principal,
  verify_bearer, authenticate,
}
use uigraph_api.Middleware.Authenticated.{IsKeyOf, verify_api_key_sound, verify_bearer_sound}
use uigraph_api.Router.{principal_scopes, require_scope, server_admin}
use uigraph_api.Router.Administered.{server_admin_sound}
use uigraph_api.Router.Guarded.{Ran, require_scope_sound, require_scope_complete}
use uigraph_api.Samples.{hash, robot, key, world, middleware, with_key}

abbrev done : Handler String
done r p w = (no_content, w)

require_scope_sound_example :
    Ran middleware "services:read" done with_key world
    ⊎ ((e : Error) × ((authenticate middleware with_key world).0 ≡ err e)
        × (require_scope middleware "services:read" done with_key world
            ≡ (refused 401 "unauthenticated", (authenticate middleware with_key world).1)))
    ⊎ ((p : Principal) × ((authenticate middleware with_key world).0 ≡ ok p)
        × (require_scope middleware "services:read" done with_key world ≡ (
          refused 403 "forbidden",
          (principal_scopes p "o1" (authenticate middleware with_key world).1).1,
        )))
require_scope_sound_example = require_scope_sound middleware "services:read" done with_key world

server_admin_sound_example :
    ((p : Principal) × ((authenticate middleware with_key world).0 ≡ ok p)
      × ((u : User) × (find
              (λ u. u.id == p.user_id)
              (authenticate middleware with_key world).1.db.users
            ≡ some u)
          × (u.disabled ≡ false)
          × (u.role ≡ "server_admin"))
      × (server_admin middleware done with_key world
          ≡ done with_key
              (some p)
              (is_user_server_admin p.user_id (authenticate middleware with_key world).1).1))
    ⊎ ((e : Error) × ((authenticate middleware with_key world).0 ≡ err e)
        × (server_admin middleware done with_key world
            ≡ (refused 401 "unauthenticated", (authenticate middleware with_key world).1)))
    ⊎ ((p : Principal) × ((authenticate middleware with_key world).0 ≡ ok p)
        × (server_admin middleware done with_key world ≡ (
          refused 403 "forbidden",
          (is_user_server_admin p.user_id (authenticate middleware with_key world).1).1,
        )))
server_admin_sound_example = server_admin_sound middleware done with_key world

require_scope_complete_example :
    require_scope middleware "services:read" done with_key world
    ≡ done with_key
        (some (account_principal robot))
        (principal_scopes
          (account_principal robot)
          "o1"
          (authenticate middleware with_key world).1).1
unfolding authenticate extract_bearer verify_api_key check_token get_token_by_prefix touch_token
    get_service_account verify difference prefix has grants cut ◌>>=◌
require_scope_complete_example =
    require_scope_complete middleware "services:read" done with_key world (account_principal robot)
      refl (inl (refl, refl, refl)) (λ e. cc) (λ n. refl)

verify_api_key_sound_example : IsKeyOf hash key world (account_principal robot)
unfolding verify_api_key check_token get_token_by_prefix touch_token get_service_account verify
    difference prefix ◌>>=◌
verify_api_key_sound_example = verify_api_key_sound hash key world (account_principal robot) refl

abbrev alice_principal : Principal
alice_principal = record {
  kind = user;
  user_id = "u1";
  org_id = "";
  is_server_admin = false;
  service_account_id = "";
  scopes = [];
  auth_provider = "password";
}

verify_bearer_sound_example :
    (s : Session) × (find (accepts 100 "h:cookie") world.db.sessions ≡ some s)
    × (("h:cookie" ≡ s.token_hash)
        ⊎ (("h:cookie" ≡ s.prev_token_hash) × (s.auth_token_seen ≡ false)))
    × (100 < s.expires_at)
    × (alice_principal.kind ≡ user)
    × (alice_principal.user_id ≡ s.user_id)
unfolding verify_bearer get_session_by_token accepts session_principal get_user is_server_admin
    ◌>>=◌
verify_bearer_sound_example = verify_bearer_sound hash "cookie" world alice_principal refl

verify_iff_example :
    (verify hash key "h:uig_00112233445566" ≡ true) ↔ (hash key ≡ "h:uig_00112233445566")
verify_iff_example = verify_iff hash key "h:uig_00112233445566"

has_iff_example :
    (has ("services:*" ∷ []) "services:read" ≡ true)
    ↔ Any (λ s. (s ≡ "services:read") ⊎ IsWildcardFor "services:read" s) ("services:*" ∷ [])
has_iff_example = has_iff ("services:*" ∷ []) "services:read"
