-- ===== src/Hook.antt =====
-- The transfer hook of the tradeable tokens, programs/cvault-transfer-hook.
pub mod Program
pub mod Accounts
pub mod Laws
