-- ===== src/Bridge.antt =====
-- The local bridge (src/bridge).
pub mod Health
pub mod Recovery
pub mod Spool
pub mod Injector
pub mod Backoff
pub mod FailureBudget
