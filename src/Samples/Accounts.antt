-- ===== src/Samples/Accounts.antt =====
-- The theorems on users, organisations and provisioned accounts, applied to the sample world.
use uigraph_api.Prelude.{
  ◌≢◌, ◌+◌, String, Option, true, false, some, none, [], ◌≡◌, ◌==◌, eq_iff, find, refl, arith,
  if◌then◌else◌,
}
use uigraph_api.Http.{not_found, json, error_reply}
use uigraph_api.Db.{Org}
use uigraph_api.Exec.{World, ok, err, ◌>>=◌}
use uigraph_api.Authz.Scope.{role_admin, scopes_for_role}
use uigraph_api.Authz.Authorizer.{is_server_admin, scopes_for_user}
use uigraph_api.Store.Tables.{update_where}
use uigraph_api.Identity.Principal.{Principal, user}
use uigraph_api.Middleware.{verify_bearer}
use uigraph_api.Store.Users as UserRows
use uigraph_api.Store.Orgs as OrgRows
use uigraph_api.Store.Members.{add_member, is_member}
use uigraph_api.Store.Accounts.{create_service_account}
use uigraph_api.Store.Sessions.{create_session}
use uigraph_api.Sessions.{set_session, session_lifetime}
use uigraph_api.Sessions.Password.{login, start_session}
use uigraph_api.Users.{reset_password}
use uigraph_api.Users.Passwords.{reset_password-login}
use uigraph_api.Orgs as Orgs
use uigraph_api.Orgs.{admin_member, write_org}
use uigraph_api.Orgs.Deleted.{create-scopes, delete-scopes}
use uigraph_api.Signup.{
  Ids, AccountRequest, AccountResponse, insert_account, open_account, provision_account,
}
use uigraph_api.Signup.Provisioned.{provision_account-verify_bearer}
use uigraph_api.Samples.{alice, world}
use uigraph_api.Samples.SignIn.{backend, client, fresh}

-- In place of bcrypt: the password itself, which must not be empty.
abbrev bcrypt : String → Option String
bcrypt p = if p == "" then none else some p

bcrypt-matches : (p hash : String) → bcrypt p ≡ some hash → (hash == p) ≡ true
bcrypt-matches p hash e = ground (arith, eq_iff hash p, eq_iff p "")

bcrypt-given : (p hash : String) → bcrypt p ≡ some hash → (hash == "") ≡ false
bcrypt-given p hash e = ground (arith, eq_iff hash p, eq_iff p "", eq_iff hash "")

abbrev after_reset : World
after_reset = record world { db = (reset_password bcrypt (some "temp") "u1" world).1.db }

reset_password-login_example :
    (login backend fresh client
      (some (record { email = "alice@acme.io"; password = "temp" }))
      after_reset).0
    ≡ ok (
      json 200 (record { token = "abc"; must_change_password = true }),
      set_session "abc" (world.now + session_lifetime),
    )
unfolding reset_password UserRows.get_user UserRows.update_user update_where ◌>>=◌
reset_password-login_example =
    reset_password-login backend bcrypt (some "temp") "u1" "temp" "abc" alice fresh client world
      after_reset bcrypt-matches bcrypt-given refl refl refl refl refl refl (λ n. refl) refl refl

abbrev principal : Principal
principal = record {
  kind = user;
  user_id = "u1";
  org_id = "";
  is_server_admin = false;
  service_account_id = "";
  scopes = [];
  auth_provider = "password";
}

abbrev acme : Org
acme = record {
  id = "o2";
  name = "Acme";
  disabled = false;
  auto_join = false;
  onboarding_done = false;
}

abbrev after_create : World
after_create = record world {
  db =
      (Orgs.create "o2" "sa2" (some principal) (some (record { name = "Acme"; auto_join = false }))
        world).1.db;
}

create-scopes_example : (scopes_for_user "u1" "o2" after_create).0 ≡ ok (scopes_for_role role_admin)
unfolding Orgs.create write_org OrgRows.create_org add_member create_service_account ◌>>=◌
create-scopes_example =
    create-scopes "o2" "sa2" principal (record { name = "Acme"; auto_join = false }) acme world
      after_create refl refl refl (λ n. refl)

abbrev after_delete : World
after_delete = record world { db = (Orgs.delete "o1" world).1.db }

delete-scopes_example :
    ((Orgs.get "o1" after_delete).0 ≡ err (error_reply not_found))
    × ((scopes_for_user "u1" "o1" after_delete).0 ≡ ok [])
unfolding Orgs.delete OrgRows.delete_org is_server_admin ◌>>=◌
delete-scopes_example = delete-scopes "o1" "u1" world after_delete refl refl (λ n. refl) refl

abbrev ids : Ids
ids = record { user = "u2"; org = "o2"; account = "sa2" }

abbrev bob : AccountRequest
bob = record { email = "bob@acme.io"; password = "secret12"; name = "Bob"; org_name = "Bobs" }

abbrev answer : AccountResponse
answer = record {
  session_token = "abc";
  expires_at = world.now + session_lifetime;
  user_id = "u2";
  org_id = "o2";
}

abbrev after_signup : World
after_signup = record world {
  db =
      (provision_account backend bcrypt "internal" ids fresh client "internal" (some bob)
        world).1.db;
}

provision_account-verify_bearer_example :
    (◌≡◌ {A = String} "internal" "internal")
    × (◌≢◌ {A = String} "internal" "")
    × (find (is_member "u2" "o2") after_signup.db.members ≡ some (admin_member "u2" "o2"))
    × (p : Principal) × ((verify_bearer backend.hash "abc" after_signup).0 ≡ ok p)
    × (p.kind ≡ user)
    × (p.user_id ≡ "u2")
unfolding provision_account open_account insert_account UserRows.get_user_by_email
    UserRows.create_user OrgRows.create_org add_member create_service_account start_session
    create_session ◌>>=◌
provision_account-verify_bearer_example =
    provision_account-verify_bearer backend bcrypt "internal" ids fresh client "internal" (some bob)
      world after_signup answer refl refl refl (omega arith) (λ n. refl)
