-- ===== src/Client.antt =====
-- The vault operations of the web client, oragami-frontend: the risk check of a wallet, the
-- transactions of oragami-frontend/services/vault-operations.ts, and the panel that calls them.
pub mod Tasks
pub mod Risk
pub mod Vault
pub mod Market
pub mod Wallet
pub mod Panel
pub mod PanelLaws
pub mod Modal
pub mod ModalLaws
pub mod Transfer
pub mod TransferLaws
pub mod Debounce
pub mod DebounceLaws
