-- ===== src/Anchor.antt =====
-- The connection of the backend to the chain, oragami-backend/src/solana/anchor.service.ts.
pub mod Service
pub mod Laws
