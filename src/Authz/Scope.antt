-- ===== src/Authz/Scope.antt =====
-- internal/authz/scope.go and role.go: the scope catalog, the scopes of each role and the match
-- of granted scopes against a required one. `Scope` and `Role` are texts, as in the source.
pub mod Grants
use uigraph_api.Prelude.{
  String, Bool, true, false, ◌&&◌, ◌||◌, List, [], ◌∷◌, ◌==◌, any, contains, if◌then◌else◌,
}
use uigraph_api.Prelude.Text.{cut}

abbrev pub Scope : Type 0
Scope = String

abbrev pub Role : Type 0
Role = String

abbrev pub role_admin : Role
role_admin = "admin"

abbrev pub role_editor : Role
role_editor = "editor"

abbrev pub role_viewer : Role
role_viewer = "viewer"

unfoldable pub all_scopes : List Scope
all_scopes =
    "diagrams:read" ∷ "diagrams:write" ∷ "docs:read" ∷ "docs:write" ∷ "maps:read" ∷ "maps:write"
    ∷ "services:read" ∷ "services:write" ∷ "chat:read" ∷ "chat:write" ∷ "folders:read"
    ∷ "folders:write" ∷ "members:read" ∷ "members:add" ∷ "members:remove" ∷ "members:update-role"
    ∷ "teams:read" ∷ "teams:create" ∷ "teams:edit" ∷ "teams:delete" ∷ "teams:add-member"
    ∷ "teams:remove-member" ∷ "serviceaccounts:read" ∷ "serviceaccounts:create"
    ∷ "serviceaccounts:edit" ∷ "serviceaccounts:delete" ∷ "serviceaccounts:create-token"
    ∷ "serviceaccounts:revoke-token" ∷ "mlstudio:read" ∷ "mlstudio:write" ∷ "billing:read"
    ∷ "billing:write" ∷ "agents:read" ∷ "agents:write" ∷ "timeline:read" ∷ "timeline:write"
    ∷ "org:update" ∷ "org:delete" ∷ "authproviders:read" ∷ "authproviders:write"
    ∷ "integrations:read" ∷ "integrations:write" ∷ []

viewer_scopes : List Scope
viewer_scopes =
    "diagrams:read" ∷ "docs:read" ∷ "maps:read" ∷ "services:read" ∷ "chat:read" ∷ "folders:read"
    ∷ "members:read" ∷ "teams:read" ∷ "serviceaccounts:read" ∷ "mlstudio:read" ∷ "billing:read"
    ∷ "agents:read" ∷ "timeline:read" ∷ "integrations:read" ∷ []

editor_scopes : List Scope
editor_scopes =
    "diagrams:read" ∷ "docs:read" ∷ "maps:read" ∷ "services:read" ∷ "chat:read" ∷ "folders:read"
    ∷ "members:read" ∷ "teams:read" ∷ "serviceaccounts:read" ∷ "mlstudio:read" ∷ "billing:read"
    ∷ "agents:read" ∷ "timeline:read" ∷ "integrations:read" ∷ "diagrams:write" ∷ "docs:write"
    ∷ "maps:write" ∷ "services:write" ∷ "chat:write" ∷ "folders:write" ∷ "mlstudio:write"
    ∷ "billing:write" ∷ "agents:write" ∷ "timeline:write" ∷ []

admin_scopes : List Scope
admin_scopes =
    "diagrams:*" ∷ "docs:*" ∷ "maps:*" ∷ "services:*" ∷ "chat:*" ∷ "folders:*" ∷ "members:*"
    ∷ "teams:*" ∷ "serviceaccounts:*" ∷ "mlstudio:*" ∷ "billing:*" ∷ "agents:*" ∷ "timeline:*"
    ∷ "org:*" ∷ "authproviders:*" ∷ "integrations:*" ∷ []

-- A role that is no key of the map has the nil slice.
unfoldable pub scopes_for_role : Role → List Scope
unfolding viewer_scopes editor_scopes admin_scopes
scopes_for_role role =
    if role == role_viewer
    then viewer_scopes
    else if role == role_editor
    then editor_scopes
    else if role == role_admin
    then admin_scopes
    else []

-- The maps `knownResources` and `validScopes` are sets that are built from `AllScopes`.
unfoldable pub known_resource : String → Bool
unfolding all_scopes
known_resource res = any (λ s. (cut b':' s).found && (cut b':' s).before == res) all_scopes

unfoldable pub valid_scope : String → Bool
unfolding known_resource
valid_scope s =
    if (cut b':' s).found && (cut b':' s).after == "*"
    then known_resource (cut b':' s).before
    else contains all_scopes s

-- One round of the loop of `Has`: an exact match, or a wildcard of the wanted resource.
unfoldable pub grants : Scope → String → Bool
grants want s =
    s == want
    || ((cut b':' s).found
        && (cut b':' s).after == "*"
        && (cut b':' s).before == (cut b':' want).before)

unfoldable pub has : List String → Scope → Bool
unfolding grants
has scopes want = any (grants want) scopes
