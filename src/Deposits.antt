-- ===== src/Deposits.antt =====
-- oragami-backend/src/deposits/deposits.service.ts
pub mod Preflight
pub mod Index
pub mod PreflightLaws
pub mod IndexLaws
