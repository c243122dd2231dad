-- ===== src/Vault.antt =====
-- oragami-backend/src/vault: what the backend tells of the vault.
pub mod Queries
pub mod QueriesLaws
pub mod State
