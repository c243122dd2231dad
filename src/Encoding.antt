-- ===== src/Encoding.antt =====
-- oragami-backend/src/common/encoding.ts, and the same helpers of multi-asset-vault.service.ts.
pub mod Bytes
pub mod Laws
pub mod Codes
