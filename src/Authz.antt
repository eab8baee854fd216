-- ===== src/Authz.antt =====
-- internal/authz: scopes, roles and the authorizer.
pub mod Scope
pub mod Authorizer
