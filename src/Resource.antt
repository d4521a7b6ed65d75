-- ===== src/Resource.antt =====
-- internal/resource: claims on shared state, and the registry that grants them.
pub mod Key
pub mod Claim
pub mod Registry
pub mod Rescan
pub mod Exclusion
pub mod Run
pub mod Hold
pub mod Leak
pub mod Resolve
pub mod HoldResource
pub mod Tests
