-- ===== src/ControlPlane.antt =====
-- The reference control plane (src/control-plane).
pub mod Schema
pub mod Outcome
pub mod Events
pub mod Endpoints
pub mod Offers
pub mod CommSessions
pub mod Messages
pub mod Evolution
pub mod History
