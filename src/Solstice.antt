-- ===== src/Solstice.antt =====
-- oragami-backend/src/solana/solstice.service.ts
pub mod Nav
pub mod NavLaws
pub mod Api
pub mod Yield
pub mod YieldLaws
