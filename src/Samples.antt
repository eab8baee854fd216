-- ===== src/Samples.antt =====
-- A small database and its world, on which the theorems are applied.
mod Access
mod Keys
mod Rules
mod Rows
mod Queries
mod SignIn
mod Providers
mod Secrets
mod Graph
mod Accounts
use Prim.Native.String
use uigraph_api.Prelude.{ℕ, String, Bool, true, false, Option, none, some, List, [], ◌∷◌}
use uigraph_api.Db.{User, Member, TeamMember, Session, ServiceAccount, Token, Folder, Db}
use uigraph_api.Exec.{World}
use uigraph_api.Identity.Token.{prefix}
use uigraph_api.Middleware.{Middleware, Request, verify_api_key, verify_bearer}

-- In place of the digest and of the printed form of a value.
abbrev pub hash : String → String
hash s = String.◌++◌ "h:" s

abbrev pub alice : User
alice = record {
  id = "u1";
  email = "alice@acme.io";
  name = "Alice";
  login = "alice@acme.io";
  password_hash = "x";
  must_change_password = false;
  disabled = false;
  role = "user";
}

abbrev pub membership : Member
membership = record { user_id = "u1"; org_id = "o1"; role = "editor"; source = "manual" }

abbrev pub session : Session
session = record {
  id = "s1";
  user_id = "u1";
  token_hash = "h:cookie";
  prev_token_hash = "";
  auth_token_seen = true;
  user_agent = "";
  client_ip = "";
  rotated_at = 50;
  created_at = 50;
  expires_at = 500;
  last_active_at = 50;
  auth_provider = "password";
}

abbrev pub robot : ServiceAccount
robot = record {
  id = "sa1";
  org_id = "o1";
  name = "robot";
  description = "";
  scopes = "services:*" ∷ [];
  disabled = false;
  is_internal = false;
  updated_at = 0;
  deleted_at = none;
}

abbrev pub key : String
key = "uig_00112233445566"

abbrev pub token : Token
token = record {
  id = "t1";
  service_account_id = "sa1";
  name = "ci";
  prefix = "uig_00112233";
  hash = "h:uig_00112233445566";
  expires_at = some 400;
  last_used_at = none;
  revoked = false;
}

abbrev pub folder : Folder
folder = record {
  id = "f1";
  org_id = "o1";
  parent_id = none;
  team_id = none;
  type = "map";
  name = "Journeys";
  order = 1;
  created_by = "u1";
  created_at = 20;
  updated_at = 20;
  deleted_at = none;
}

abbrev pub db : Db
db = record {
  users = alice ∷ [];
  members = membership ∷ [];
  teams = [];
  team_members = [];
  sessions = session ∷ [];
  accounts = robot ∷ [];
  tokens = token ∷ [];
  folders = folder ∷ [];
  orgs = [];
  providers = [];
  rules = [];
  domains = [];
  login_states = [];
  identities = [];
  attempts = [];
  services = [];
  dependencies = [];
}

abbrev pub world : World
world = record { db = db; cache = none; now = 100; calls = 0; fails = λ n. false }

abbrev pub middleware : Middleware
middleware = record { bearer = some (verify_bearer hash); api_keys = some (verify_api_key hash) }

abbrev pub with_key : Request
with_key = record { authorization = ""; cookie = none; api_key = key; org_id = "o1" }
