-- ===== src/Fingerprint.antt =====
-- internal/fingerprint: the identities of what a Task reads.
pub mod Value
pub mod Collisions
pub mod Tests
