-- ===== src/Store.antt =====
-- internal/store/postgres: the operations of the store, read off their SQL statements.
pub mod Tables
pub mod Folders
pub mod Users
pub mod Members
pub mod Teams
pub mod Accounts
pub mod Sessions
pub mod Ordered
pub mod Providers
pub mod Domains
pub mod Logins
pub mod Orgs
pub mod Services
pub mod Dependencies
pub mod Graph
