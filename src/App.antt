-- ===== src/App.antt =====
-- src/app: errors, webhook events and their handler, the registry of active reviews, and the script
-- scheduler.
pub mod Error
pub mod ActiveReviews
pub mod ScriptScheduler
pub mod Webhook
pub mod Server
