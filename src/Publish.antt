-- ===== src/Publish.antt =====
-- internal/publish: settling a destination after an interrupted tree commit.
pub mod Decide
pub mod Apply
pub mod Safety
pub mod Settled
pub mod Commit
pub mod Disk
pub mod Swap
pub mod RollBack
pub mod Crash
pub mod Removal
pub mod Inspect
pub mod Resumed
pub mod Tests
