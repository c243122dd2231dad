-- ===== src/Onboard.antt =====
-- The onboarding pages of the web client, oragami-frontend/app/onboard.
pub mod Pending
pub mod PendingLaws
pub mod Connect
pub mod ConnectLaws
pub mod Register
pub mod RegisterLaws
