-- ===== src/Security.antt =====
-- What a peer may reach on this machine (src/security).
pub mod Paths
pub mod Presets
pub mod RelationshipPolicy
pub mod ToolPolicies
