-- ===== src/Lib.antt =====
-- The permission core of the UIGraph API server: who a request is made by, what it may do, and the
-- handlers that sign users in and out and change accounts, keys, users, organisations, members, teams,
-- folders, roles and identity providers; and the graph of dependencies in the service catalog.
--
-- A request passes the middleware (internal/middleware), which authenticates it by a bearer token,
-- a session cookie or an API key, then the guard of its route (internal/api/router.go), which asks
-- the authorizer (internal/authz) for the scopes of the principal in the organisation of the path,
-- and then reaches a handler, which calls the store (internal/store/postgres).
--
-- The files, and the code that they model:
--   Prelude      tests, lists and texts; Prelude/Text is what the code uses of Go's package strings
--   Http         internal/httputil/respond.go and the errors of internal/store/store.go
--   Db           the rows: internal/org, internal/identity, internal/folder, internal/rolemap
--   Exec         handlers and store calls as actions on a world: the database, the clock, the cache,
--                and a schedule that says which calls fail; Exec/Rules and Exec/Checks are the rules
--                by which invariants of actions are shown, Exec/Steps what is known of one that
--                has returned
--   Store        internal/store/postgres, one action per SQL statement: user_store.go (Users),
--                member_store.go (Members), team_store.go (Teams), serviceaccount_store.go
--                (Accounts), session_store.go (Sessions), folders.go (Folders), provider_store.go
--                (Providers, Domains), login_store.go (Logins), org_store.go (Orgs), catalog.go
--                (Services), service_dependencies.go (Dependencies; the walks in Graph)
--   Authz        internal/authz: scope.go and role.go (Scope), authorizer.go (Authorizer)
--   Identity     internal/identity: token.go (Token), principal.go (Principal), provider.go (Provider)
--   Middleware   internal/middleware: middleware.go, session_verifier.go
--   Router       the guards of internal/api/router.go: principalScopes, protected, requireScope,
--                serverAdmin
--   Accounts     internal/api/auth/serviceaccount.go: List, Create, Get, Update, Delete, ListTokens,
--                CreateToken, RevokeToken
--   Members      internal/api/auth/member.go: List, Add, UpdateMember, Remove, seatLimitReached
--   Folders      internal/api/folder/folder.go: List, Create, Get, Update, Delete
--   Rolemap      internal/rolemap/rolemap.go: ValidateRule, Resolve, Match, Lookup, stringValues
--   Providers    internal/api/auth/authprovider.go: what a request makes of a provider (Apply), the
--                handlers for providers (Handlers), role mappings (Mappings) and domains (Domains)
--   Teams        internal/api/auth/team.go: List, Create, Get, Update, Delete, ListMembers, AddMember,
--                RemoveMember (Teams/References is about the references of their rows)
--   Users        internal/api/auth/user.go: List, Create, Get, Update, ResetPassword, Disable
--   Orgs         internal/api/auth/org.go: List, ListMine, Create, Get, GetMine, Update, Delete,
--                CompleteOnboarding
--   Signup       internal/api/auth/signup.go: ProvisionAccount, LookupAccountByEmail,
--                SetAccountPassword
--   Catalog      internal/api/catalog/service.go: Create, Get, Update, Delete;
--                service_dependencies.go: SyncDependencies, ListDependencies, GetDependencyGraph,
--                GetServiceDependencyGraph, GetImpact (Dependencies)
--   Sessions     internal/api/auth/session.go: Login, Logout, SessionToken (Password), DiscoverOrgs,
--                OrgProviders (Discovery), InitiateLogin, OIDCCallback, SAMLACS (SignOn), completeLogin
--                (Complete), Me, MyOrgs, SAMLMetadata (Reads)
--   Billing      internal/billing/match.go: MatchTags, FilterMatched
--   Listing      internal/httputil/list.go: ListLimit, ListOffset, Exact
--   Samples      a small world on which the theorems are applied
--
-- State and errors. A handler is an action on the world: it returns a reply or stops with one, and
-- what it wrote before it stopped stays written. Each call of the database asks the schedule `fails`
-- whether it fails; a call that fails changes nothing. A theorem that does not mention the schedule
-- holds for every one. A table is the list of its rows in the order of insertion; a statement that a
-- unique index, a check or a foreign key among these tables refuses is an error; a reference to a
-- table that is left out, or to an organisation from a table before them, is a call that may fail. A
-- handler runs without another one in between: interleavings of two requests are sequences of whole
-- requests.
--
-- Parameters. The SHA-256 digest, the password hash, the reading of a date, compiled regular
-- expressions, the printed form of a value, random ids and tokens, the answer of the other service on
-- seats, the cipher of secrets, the calls of OAuth and SAML, the parser of e-mail addresses, the table
-- of lower-case letters, and the collation and LOWER of the database are arguments of the definitions
-- that use them. Nothing is assumed of them but what a theorem names.
--
-- Bounds and fuel. Numbers that the code compares are unbounded here: priorities and limits are
-- integers, times count nanoseconds from Go's zero time, and a request reads one
-- time, but for the update of a folder, whose reply reads the clock again. The lookup by a dotted key
-- runs on the length of the key as fuel, which is enough since each nested call has a shorter key. The
-- deletion of an organisation looks for the folders below its own as many times as there are folders,
-- which is enough since a chain of them is no longer than the table. The recursive query of a
-- dependency graph runs for as many rounds as its maximal depth, since a row of that depth is joined
-- to no further one.
--
-- Not modelled: the addresses of avatars and logos, the configurations of LDAP and SCIM, the
-- listing of services and what else the catalog holds, the billing summary and sync, the timeline,
-- the parsers and the rest of the CRUD handlers; the order in which service accounts and their tokens
-- are listed; HTTP, JSON and SQL themselves; the clients of other services.
pub mod Prelude
pub mod Http
pub mod Db
pub mod Exec
pub mod Store
pub mod Authz
pub mod Identity
pub mod Middleware
pub mod Router
pub mod Accounts
pub mod Rolemap
pub mod Folders
pub mod Members
pub mod Providers
pub mod Sessions
pub mod Teams
pub mod Catalog
pub mod Users
pub mod Orgs
pub mod Signup
pub mod Billing
pub mod Listing
pub mod Samples
