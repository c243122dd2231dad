-- ===== src/Program.antt =====
-- The parts of the on-chain program oragami-vault/programs/oragami-vault/src/lib.rs that the
-- backend's answers turn on.
pub mod Credential
pub mod CredentialLaws
pub mod Market
pub mod MarketLaws
pub mod Yield
pub mod YieldLaws
pub mod Admin
pub mod Backing
pub mod Vault
pub mod VaultLaws
