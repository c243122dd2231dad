-- ===== src/Six.antt =====
-- oragami-backend/src/data/six.service.ts
pub mod Service
pub mod Laws
