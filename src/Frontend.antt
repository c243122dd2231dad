-- ===== src/Frontend.antt =====
-- The state of the web client that is its own: the toasts.
pub mod Toasts
pub mod ToastLaws
