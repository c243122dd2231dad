-- ===== src/Health.antt =====
-- oragami-backend/src/health
pub mod CrankState
pub mod Service
