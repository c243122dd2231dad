-- ===== src/MultiAsset.antt =====
-- oragami-backend/src/multi-asset-vault/multi-asset-vault.service.ts
pub mod Service
pub mod Laws
