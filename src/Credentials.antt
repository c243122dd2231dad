-- ===== src/Credentials.antt =====
-- oragami-backend/src/credentials/credentials.service.ts
pub mod Service
pub mod Agreement
pub mod Lifecycle
pub mod Verification
