-- ===== src/Orgs.antt =====
-- internal/api/auth/org.go: the handlers for organisations. The address of the logo is left out.
pub mod Deleted
use Prim.Native.String
use uigraph_api.Prelude.{
  String, Bool, true, false, not, ◌&&◌, Option, none, some, List, [], ◌∷◌, ◌==◌, is_some, map,
  Option-cases, if◌then◌else◌,
}
use uigraph_api.Http.{
  not_found, Reply, json, no_content, error_reply, bad_request, forbidden_reply, unauthorized_reply,
}
use uigraph_api.Db.{Org, Member, ServiceAccount}
use uigraph_api.Exec.{Exec, pure, stop_if, require, attempt, ◌>>=◌, ◌>>◌}
use uigraph_api.Authz.Scope.{all_scopes}
use uigraph_api.Identity.Principal.{Principal, user, service_account}
use uigraph_api.Store.Ordered.{Locale}
use uigraph_api.Store.Orgs as Store
use uigraph_api.Store.Members.{add_member, get_member}
use uigraph_api.Store.Accounts.{create_service_account}
use uigraph_api.Store.Domains.{list_orgs_for_user}

pub record CreateRequest : Type 0 where
  pub name : String
  pub auto_join : Bool

pub record UpdateRequest : Type 0 where
  pub name : Option String
  pub disabled : Option Bool
  pub auto_join : Option Bool

-- identity.NewSystemServiceAccount
abbrev pub system_account : String → String → List String → ServiceAccount
system_account id org_id scopes = record {
  id = id;
  org_id = org_id;
  name = "System Service";
  description =
      "Built-in account used for internal service-level tasks (e.g. screenshot rendering).";
  scopes = scopes;
  disabled = false;
  is_internal = true;
  updated_at = 0;
  deleted_at = none;
}

unfoldable pub list : Locale → Exec (Reply (List Org)) (Reply (List Org))
list locale = do orgs ← attempt (Store.list_orgs locale); pure (json 200 orgs)

abbrev option_list : Option Org → List Org
option_list none = []
option_list (some o) = o ∷ []

abbrev list_of_account : Principal → Exec (Reply (List Org)) (Reply (List Org))
list_of_account p = do found ← attempt (Store.get_org p.org_id); pure (json 200 (option_list found))

abbrev list_of_user : Locale → Principal → Exec (Reply (List Org)) (Reply (List Org))
list_of_user locale p = if p.is_server_admin then list locale else do
  views ← attempt (list_orgs_for_user locale p.user_id)
  pure (json 200 (map (λ v. v.0) views))

unfoldable pub list_mine : Locale → Option Principal → Exec (Reply (List Org)) (Reply (List Org))
unfolding list
list_mine locale principal = do
  p ← require principal unauthorized_reply
  elim p.kind [ service_account ↦ list_of_account p | user ↦ list_of_user locale p ]

abbrev pub new_org : String → CreateRequest → Org
new_org id req = record {
  id = id;
  name = req.name;
  disabled = false;
  auto_join = req.auto_join;
  onboarding_done = false;
}

abbrev pub admin_member : String → String → Member
admin_member user_id org_id = record {
  user_id = user_id;
  org_id = org_id;
  role = "admin";
  source = "manual";
}

-- The user who creates an organisation is its first admin.
abbrev pub join_creator : Principal → String → Exec (Reply Org) (Unit {0})
join_creator p org_id = elim p.kind [
  | user ↦ attempt (add_member (admin_member p.user_id org_id))
  | service_account ↦ pure tt
]

-- The writes of Create, after its checks.
unfoldable pub write_org :
    String → String → Principal → CreateRequest → Exec (Reply Org) (Reply Org)
write_org org_id account_id p req = do
  attempt (Store.create_org (new_org org_id req))
  join_creator p org_id
  attempt (create_service_account (system_account account_id org_id all_scopes))
  pure (json 201 (new_org org_id req))

unfoldable pub create :
    String → String → Option Principal → Option CreateRequest → Exec (Reply Org) (Reply Org)
create org_id account_id principal body = do
  p ← require principal unauthorized_reply
  req ← require body (bad_request "invalid JSON")
  stop_if (req.name == "") (bad_request "name is required")
  write_org org_id account_id p req

unfoldable pub get : String → Exec (Reply Org) (Reply Org)
get org_id = do
  found ← attempt (Store.get_org org_id)
  o ← require found (error_reply not_found)
  pure (json 200 o)

-- The check that the caller belongs to the organisation.
abbrev check_member : Principal → String → Exec (Reply Org) (Unit {0})
check_member p org_id = elim p.kind [
  | service_account ↦ stop_if (not (p.org_id == org_id)) forbidden_reply
  | user ↦
      if p.is_server_admin
      then pure tt
      else attempt (get_member p.user_id org_id) >>= λ member.
          stop_if (not (is_some member)) (error_reply not_found)
]

unfoldable pub get_mine : String → Option Principal → Exec (Reply Org) (Reply Org)
unfolding get
get_mine org_id principal = do
  p ← require principal unauthorized_reply
  check_member p org_id
  get org_id

abbrev kept {ℓ} : {A : Type ℓ} → A → Option A → A
kept old none = old
kept old (some new) = new

abbrev pub changed : UpdateRequest → Org → Org
changed req o = record o {
  name = kept o.name req.name;
  disabled = kept o.disabled req.disabled;
  auto_join = kept o.auto_join req.auto_join;
}

abbrev is_empty : Option String → Bool
is_empty none = false
is_empty (some name) = name == ""

unfoldable pub update : String → Option UpdateRequest → Exec (Reply Org) (Reply Org)
update org_id body = do
  req ← require body (bad_request "invalid JSON")
  stop_if (is_empty req.name) (bad_request "name is required")
  found ← attempt (Store.get_org org_id)
  o ← require found (error_reply not_found)
  attempt (Store.update_org (changed req o))
  pure (json 200 (changed req o))

unfoldable pub delete : String → Exec (Reply Org) (Reply Org)
delete org_id = do attempt (Store.delete_org org_id); pure no_content

unfoldable pub complete_onboarding : String → Exec (Reply Org) (Reply Org)
complete_onboarding org_id = do
  found ← attempt (Store.get_org org_id)
  o ← require found (error_reply not_found)
  attempt (Store.set_onboarding_done org_id)
  pure no_content
