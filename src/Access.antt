-- ===== src/Access.antt =====
-- Who gets at what: the admin key, the routes of the backend and the calls that the web client makes
-- of them, and the gate in front of the pages.
pub mod Guard
pub mod Routes
pub mod Calls
pub mod CallsLaws
pub mod Gate
pub mod GateLaws
