-- ===== src/Core.antt =====
-- internal/core: the data model of a run, and the pure functions that derive one value from another.
pub mod State
pub mod Snapshot
pub mod Tally
pub mod Partition
pub mod Shares
pub mod ChildTally
pub mod Counting
pub mod Conclusion
pub mod Verdict
pub mod Tests
