-- ===== src/Tests.antt =====
-- Tests: concrete runs of the procedures, and the theorems at concrete inputs.
pub mod Subscriptions
pub mod Notifications
pub mod Documents
pub mod Http
