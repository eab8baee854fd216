-- ===== src/Samples/Providers.antt =====
-- The theorems on identity providers, applied to a database with one provider.
use uigraph_api.Prelude.{◌+◌, String, true, false, none, some, List, [], ◌∷◌, ◌≡◌, refl, arith}
use uigraph_api.Prelude.Int.{pos}
use uigraph_api.Prelude.Text.{
  trim_space, trim_left, trim_right, is_space, split, all_chars, byte_len,
}
use uigraph_api.Http.{bad_request, redirect}
use uigraph_api.Authz.Scope.{Role, role_viewer, role_editor}
use uigraph_api.Db.{Org, AuthProvider, Rule, LoginState}
use uigraph_api.Exec.{World, ok, err, ◌>>=◌}
use uigraph_api.Exec.Rules.{Maintains}
use uigraph_api.Identity.Provider.{slug_pattern, validate_slug, validate, email_allowed}
use uigraph_api.Rolemap.{
  Compile, validate_rule, valid_operator, valid_operators, takes_value, known_role, resolve,
  resolve_with, first_match, by_priority, insert_rule, match_rule, apply_operator,
}
use uigraph_api.Rolemap.Values.{
  Attribute, Attributes, empty, entry, text, lookup, get, is_present, string_values,
}
use uigraph_api.Store.Ordered.{order_by, place}
use uigraph_api.Store.Providers.{get_auth_provider_by_slug, list_role_mappings}
use uigraph_api.Store.Logins.{take_login_state, consume_login_state, upsert_auth_identity}
use uigraph_api.Store.Users.{get_user_by_email}
use uigraph_api.Store.Members.{get_member, upsert_member, upserted}
use uigraph_api.Store.Sessions.{create_session}
use uigraph_api.Providers.{Backend}
use uigraph_api.Providers.Handlers.{blank}
use uigraph_api.Providers.Valid.{IsSound}
use uigraph_api.Providers.Requests.{to_create, to_delete, serve_all, provider_calls-IsSound}
use uigraph_api.Providers.Roles.{resolve-stored}
use uigraph_api.Providers.Single as Single
use uigraph_api.Providers.Single.{IsSingle, serve_all-IsSingle}
use uigraph_api.Sessions.{Answer, set_session, session_lifetime, frontend_base}
use uigraph_api.Sessions.Password.{start_session}
use uigraph_api.Sessions.Complete.{
  CompletedAuth, valid_email, check_email, find_user, enroll, finish_login, complete_login,
}
use uigraph_api.Sessions.Joined.{IsCompleted, complete_login-HasRole}
use uigraph_api.Sessions.SignOn.{
  load_provider, check_provider, find_provider, consume_state, initiate_login,
}
use uigraph_api.Sessions.States.{IsConsumed, consume_state-once}
use uigraph_api.Sessions.Redirects.{AreLocal, initiate_login-AreLocal}
use uigraph_api.Samples as Samples
use uigraph_api.Samples.SignIn.{locale, backend, client, fresh}

abbrev compile : Compile
compile s = none

abbrev show : Attribute → String
show v = ""

abbrev pub okta : AuthProvider
okta = record (blank "p1" "o1" "acme") {
  kind = "oidc";
  type = "generic";
  display_name = "Acme";
  enabled = true;
  default_role = role_viewer;
  client_id = "c1";
  client_secret = "sealed";
  auth_url = "https://a";
  token_url = "https://t";
  userinfo_url = "https://u";
}

abbrev acme : Org
acme = record {
  id = "o1";
  name = "Acme";
  disabled = false;
  auto_join = false;
  onboarding_done = true;
}

abbrev editors : Rule
editors = record {
  id = "r1";
  provider_id = "p1";
  priority = pos 1;
  attribute_key = "email";
  operator = "exists";
  attribute_value = "";
  role = role_editor;
}

abbrev pending : LoginState
pending = record {
  id = "l1";
  state = "st";
  org_id = "o1";
  provider_id = "p1";
  nonce = "n";
  saml_request_id = "";
  redirect_to = "/home";
  created_at = 90;
  expires_at = 190;
}

abbrev pub world : World
world = record Samples.world {
  db = record Samples.db {
    orgs = acme ∷ [];
    providers = okta ∷ [];
    rules = editors ∷ [];
    login_states = pending ∷ [];
  };
}

abbrev pub settings : Backend
settings = record {
  cipher = none;
  public_url = "https://ui.acme.io";
  locale = locale;
  assets = none;
  presign = λ key. ok key;
  parse_metadata = λ url xml. err "no network";
  generate_keypair = λ name. err "no random";
  metadata_document = λ p acs url. ok "";
  quote = λ s. s;
  provider_message = λ e p. "";
  rule_message = λ e r. "";
}

sound : IsSound compile world.db
unfolding validate validate_slug slug_pattern split all_chars byte_len validate_rule valid_operator
    valid_operators takes_value trim_space trim_left trim_right is_space
sound = record { providers = (refl, tt); rules = (refl, tt) }

provider_calls-IsSound_example :
    IsSound compile
      (serve_all settings compile world (to_create "p2" "o1" none ∷ to_delete "o1" "acme" ∷ [])).db
provider_calls-IsSound_example =
    provider_calls-IsSound settings compile world
      (to_create "p2" "o1" none ∷ to_delete "o1" "acme" ∷ []) sound

abbrev attributes : Attributes
attributes = entry "email" (text "alice@acme.io") empty

resolve-stored_example :
    (rules : List Rule) × (role : Role) × ((list_role_mappings "p1" world).0 ≡ ok rules)
    × (resolve compile show rules attributes role_viewer ≡ ok role)
    × (known_role role ≡ true)
resolve-stored_example =
    resolve-stored compile show world "o1" "acme" okta attributes sound refl refl

serve_all-IsSingle_example :
    IsSingle
      (Single.serve_all locale
        (λ c. c)
        world
        (Single.to_create "d1" "o1" (some "acme.io")
          ∷ Single.to_create "d2" "o1" (some "b.io")
          ∷ [])).db
serve_all-IsSingle_example =
    serve_all-IsSingle locale (λ c. c) world
      (Single.to_create "d1" "o1" (some "acme.io") ∷ Single.to_create "d2" "o1" (some "b.io") ∷ [])
      (record { single = λ org. ground arith })

consume_state-once_example :
    IsConsumed world "o1" "acme" "st" "oidc" okta pending
    × ((consume_state "o1" "acme" "st" "saml"
          (record world { db = (consume_state "o1" "acme" "st" "oidc" world).1.db })).0
        ≡ err (bad_request "login state is unknown or expired"))
unfolding consume_state find_provider check_provider load_provider get_auth_provider_by_slug
    consume_login_state take_login_state ◌>>=◌
consume_state-once_example =
    consume_state-once "o1" "acme" "st" "oidc" world okta pending "o1" "acme" "saml"
      (record world { db = (consume_state "o1" "acme" "st" "oidc" world).1.db }) refl refl refl

initiate_login-AreLocal_example :
    Maintains AreLocal (
      initiate_login backend
        (record { id = "l2"; state = some "s"; nonce = some "n" })
        "o1"
        "acme"
        "//evil.io")
    × Maintains AreLocal (consume_state "o1" "acme" "st" "oidc")
initiate_login-AreLocal_example =
    initiate_login-AreLocal backend (record { id = "l2"; state = some "s"; nonce = some "n" }) "o1"
      "acme" "//evil.io" "st" "oidc"

abbrev signed_in : CompletedAuth
signed_in = record { sub = "42"; email = "alice@acme.io"; name = "Alice"; attributes = attributes }

abbrev arrival : Answer String
arrival = (redirect "https://ui.acme.io/home", set_session "abc" (world.now + session_lifetime))

arrives : (complete_login backend "u9" fresh client okta pending signed_in world).0 ≡ ok arrival
unfolding complete_login check_email valid_email email_allowed find_user get_user_by_email enroll
    list_role_mappings order_by place resolve resolve_with first_match by_priority insert_rule
    match_rule apply_operator lookup get is_present string_values get_member upsert_member upserted
    finish_login upsert_auth_identity start_session create_session frontend_base trim_space
    trim_left trim_right is_space ◌>>=◌
arrives = refl

complete_login-HasRole_example :
    IsCompleted backend "u9" okta signed_in world
      (complete_login backend "u9" fresh client okta pending signed_in world).1
      arrival
complete_login-HasRole_example =
    complete_login-HasRole backend "u9" fresh client okta pending signed_in world arrival arrives
