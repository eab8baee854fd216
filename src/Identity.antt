-- ===== src/Identity.antt =====
-- internal/identity: API tokens, principals and identity providers.
pub mod Provider
pub mod Token
pub mod Principal
