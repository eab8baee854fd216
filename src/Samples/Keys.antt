-- ===== src/Samples/Keys.antt =====
-- Service accounts and keys of the sample world.
use uigraph_api.Prelude.{ℕ, String, false, Option, none, some, List, [], ◌∷◌, ◌≡◌, ◌≢◌, refl, arith}
use uigraph_api.Exec.{World, ok, ◌>>=◌}
use uigraph_api.Identity.Token.{prefix}
use uigraph_api.Middleware.{account_principal, verify_api_key}
use uigraph_api.Authz.Scope.{valid_scope}
use uigraph_api.Store.Accounts as Rows
use uigraph_api.Accounts.{CreateTokenRequest, CreatedToken, create_token, revoke_token, delete}
use uigraph_api.Accounts.Table.{IsSound}
use uigraph_api.Accounts.Requests.{
  AccountRequest, to_create, to_update, to_delete, serve_all, serve_all-IsSound,
}
use uigraph_api.Accounts.Lifecycle.{revoked_is_refused, deleted_is_refused, created_is_accepted}
use uigraph_api.Prelude.Text.{cut}
use uigraph_api.Samples.{hash, robot, key, token, db, world}

-- No date can be read.
abbrev parse_time : String → Option ℕ
parse_time s = none

abbrev requests : List AccountRequest
requests =
    to_create "sa2" "o1"
      (some (record { name = "bot"; description = ""; scopes = "maps:read" ∷ "no:scope" ∷ [] }))
    ∷ to_update "sa2" none
    ∷ to_delete "sa1"
    ∷ []

serve_all-IsSound_example : IsSound [] (serve_all hash parse_time world requests).db
unfolding valid_scope cut
serve_all-IsSound_example =
    serve_all-IsSound hash parse_time [] world requests
      (record { unique = (tt, tt); scoped = (refl, tt); kept = refl })

revoked_is_refused_example :
    (verify_api_key hash key (revoke_token "t1" world).1).0 ≢ ok (account_principal robot)
unfolding prefix revoke_token Rows.revoke_token ◌>>=◌
revoked_is_refused_example =
    revoked_is_refused hash key world token (account_principal robot) refl refl

deleted_is_refused_example :
    (verify_api_key hash key (delete "sa1" world).1).0 ≢ ok (account_principal robot)
unfolding prefix delete Rows.get_service_account Rows.delete_service_account ◌>>=◌
deleted_is_refused_example =
    deleted_is_refused hash key world token (account_principal robot) refl refl

abbrev wanted : CreateTokenRequest
wanted = record { name = "second"; expires_at = none }

abbrev made : CreatedToken
made = record { id = "t2"; name = "second"; token = "uig_ffeeddccbbaa9988" }

abbrev after : World
after = record world {
  db = record db {
    tokens =
        token
        ∷ record {
          id = "t2";
          service_account_id = "sa1";
          name = "second";
          prefix = "uig_ffeeddcc";
          hash = "h:uig_ffeeddccbbaa9988";
          expires_at = none;
          last_used_at = none;
          revoked = false;
        }
        ∷ [];
  };
}

created_is_accepted_example :
    (verify_api_key hash made.token after).0 ≡ ok (account_principal robot)
unfolding prefix create_token Rows.create_token ◌>>=◌
created_is_accepted_example =
    created_is_accepted hash parse_time "t2" "sa1" (some "ffeeddccbbaa9988") (some wanted) world
      after made robot refl refl (λ n. refl) (λ req date given read. absurd (ground arith)) refl
      refl
