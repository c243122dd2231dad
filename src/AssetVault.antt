-- ===== src/AssetVault.antt =====
-- The on-chain program of the asset vaults, oragami-vault/programs/multi-asset-vault/src: one vault
-- for each asset under a common factory, in which shares stand for tokens of the asset.
pub mod Attempt
pub mod State
pub mod Factory
pub mod Gate
pub mod Funds
pub mod Registry
pub mod FactoryLaws
pub mod FundsLaws
pub mod Solvency
pub mod Refusals
pub mod Forecast
pub mod Transfers
pub mod Setup
pub mod SetupLaws
pub mod SetupTwice
pub mod Redeploy
