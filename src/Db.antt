-- ===== src/Db.antt =====
-- The rows of the database, as the store of internal/store/postgres reads and writes them.
-- A time is a count of nanoseconds from the zero time of Go, a NULL of a nullable column is `none`.
use uigraph_api.Prelude.{ℕ, String, Bool, Option, List}
use uigraph_api.Prelude.Int.{ℤ}
use uigraph_api.Authz.Scope.{Role}

-- org.User
pub record User : Type 0 where
  pub id : String
  pub email : String
  pub name : String
  pub login : String
  pub password_hash : String
  pub must_change_password : Bool
  pub disabled : Bool
  pub role : String

-- The columns of org_members; the e-mail, name and team of org.OrgMember are read from other tables.
pub record Member : Type 0 where
  pub user_id : String
  pub org_id : String
  pub role : String
  pub source : String

-- org.Team without its times; MemberCount is counted by the statements that read a team
pub record Team : Type 0 where
  pub id : String
  pub org_id : String
  pub name : String
  pub email : String
  pub external_id : String

-- org.TeamMember
pub record TeamMember : Type 0 where
  pub team_id : String
  pub user_id : String
  pub org_id : String
  pub permission : String

-- identity.Session
pub record Session : Type 0 where
  pub id : String
  pub user_id : String
  pub token_hash : String
  pub prev_token_hash : String
  pub auth_token_seen : Bool
  pub user_agent : String
  pub client_ip : String
  pub rotated_at : ℕ
  pub created_at : ℕ
  pub expires_at : ℕ
  pub last_active_at : ℕ
  pub auth_provider : String

-- identity.ServiceAccount, with the column deleted_at
pub record ServiceAccount : Type 0 where
  pub id : String
  pub org_id : String
  pub name : String
  pub description : String
  pub scopes : List String
  pub disabled : Bool
  pub is_internal : Bool
  pub updated_at : ℕ
  pub deleted_at : Option ℕ

-- identity.Token
pub record Token : Type 0 where
  pub id : String
  pub service_account_id : String
  pub name : String
  pub prefix : String
  pub hash : String
  pub expires_at : Option ℕ
  pub last_used_at : Option ℕ
  pub revoked : Bool

-- folder.Folder; the order is a number that the code only copies
pub record Folder : Type 0 where
  pub id : String
  pub org_id : String
  pub parent_id : Option String
  pub team_id : Option String
  pub type : String
  pub name : String
  pub order : ℕ
  pub created_by : String
  pub created_at : ℕ
  pub updated_at : ℕ
  pub deleted_at : Option ℕ

-- org.Org without its times and its logo
pub record Org : Type 0 where
  pub id : String
  pub name : String
  pub disabled : Bool
  pub auto_join : Bool
  pub onboarding_done : Bool

-- identity.AuthProvider without its times and the two fields that only a response has, `IconURL`
-- and `SPEntityID`
pub record AuthProvider : Type 0 where
  pub id : String
  pub slug : String
  pub org_id : String
  pub kind : String
  pub type : String
  pub display_name : String
  pub icon_asset_id : String
  pub enabled : Bool
  pub allow_sign_up : Bool
  pub allowed_domains : String
  pub default_role : Role
  pub client_id : String
  pub client_secret : String
  pub auth_url : String
  pub token_url : String
  pub userinfo_url : String
  pub api_url : String
  pub scopes : String
  pub email_claim : String
  pub name_claim : String
  pub sub_claim : String
  pub groups_claim : String
  pub idp_metadata_url : String
  pub idp_metadata_xml : String
  pub idp_entity_id : String
  pub idp_sso_url : String
  pub idp_cert : String
  pub sp_cert : String
  pub sp_key : String
  pub sign_requests : Bool
  pub name_id_format : String
  pub email_attribute : String
  pub name_attribute : String
  pub groups_attribute : String

-- rolemap.Rule
pub record Rule : Type 0 where
  pub id : String
  pub provider_id : String
  pub priority : ℤ
  pub attribute_key : String
  pub operator : String
  pub attribute_value : String
  pub role : Role

-- identity.OrgDomain
pub record OrgDomain : Type 0 where
  pub id : String
  pub org_id : String
  pub domain : String

-- identity.LoginState
pub record LoginState : Type 0 where
  pub id : String
  pub state : String
  pub org_id : String
  pub provider_id : String
  pub nonce : String
  pub saml_request_id : String
  pub redirect_to : String
  pub created_at : ℕ
  pub expires_at : ℕ

-- identity.AuthIdentity
pub record AuthIdentity : Type 0 where
  pub user_id : String
  pub provider_id : String
  pub sub : String

-- A row of login_attempts.
pub record LoginAttempt : Type 0 where
  pub username : String
  pub ip : String
  pub created_at : ℕ

pub record DocLink : Type 0 where
  pub id : String
  pub label : String
  pub url : String

-- catalog.Service without the name of a team that only a request has; metadata is its JSON text
pub record Service : Type 0 where
  pub id : String
  pub org_id : String
  pub folder_id : Option String
  pub team_id : Option String
  pub name : String
  pub description : String
  pub status : String
  pub tier : String
  pub category : String
  pub language : String
  pub git_repo_url : Option String
  pub jira_project_url : Option String
  pub slack_channel_url : Option String
  pub last_commit_sha : Option String
  pub labels : List String
  pub metadata : String
  pub doc_links : List DocLink
  pub created_by : String
  pub updated_by : Option String
  pub created_by_commit_hash : Option String
  pub updated_by_commit_hash : Option String
  pub created_at : ℕ
  pub updated_at : ℕ
  pub deleted_at : Option ℕ
  pub deleted_by : Option String

-- catalog.ServiceDependency; the empty type is the NULL of its column
pub record Dependency : Type 0 where
  pub id : String
  pub service_id : String
  pub dependency_id : Option String
  pub dependency_name : String
  pub direction : String
  pub org_id : String
  pub name : String
  pub type : String
  pub criticality : String
  pub description : String
  pub api_group_name : Option String
  pub api_endpoint_names : List String
  pub database_name : Option String
  pub created_by : String
  pub updated_by : Option String
  pub created_by_commit_hash : Option String
  pub updated_by_commit_hash : Option String
  pub created_at : ℕ
  pub updated_at : ℕ
  pub deleted_at : Option ℕ
  pub deleted_by : Option String

pub record Db : Type 0 where
  pub users : List User
  pub members : List Member
  pub teams : List Team
  pub team_members : List TeamMember
  pub sessions : List Session
  pub accounts : List ServiceAccount
  pub tokens : List Token
  pub folders : List Folder
  pub orgs : List Org
  pub providers : List AuthProvider
  pub rules : List Rule
  pub domains : List OrgDomain
  pub login_states : List LoginState
  pub identities : List AuthIdentity
  pub attempts : List LoginAttempt
  pub services : List Service
  pub dependencies : List Dependency
