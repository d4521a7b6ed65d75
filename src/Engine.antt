-- ===== src/Engine.antt =====
-- internal/engine: what the scheduler reads of a Group or a Sequence.
pub mod CollectionTally
pub mod Readings
pub mod Declared
pub mod Wakeups
pub mod Accounted
pub mod Eligibility
pub mod Verdicts
pub mod Kept
pub mod Depth
pub mod Ungated
pub mod Cycle
pub mod Waiting
pub mod Ranked
pub mod Rounds
pub mod Walked
pub mod Schedule
pub mod Chains
pub mod Operations
pub mod Blockers
pub mod Unresolved
pub mod Awaited
pub mod Watched
pub mod Framed
pub mod Routed
pub mod Placed
pub mod Retallied
pub mod Rested
pub mod Claimed
pub mod Effects
pub mod Drained
pub mod Unmissed
pub mod Returned
pub mod Completed
pub mod Taken
pub mod Scheduled
pub mod Recalled
pub mod Ordered
pub mod Begun
pub mod Reordered
pub mod Started
pub mod Rule
pub mod Counted
pub mod Opened
pub mod Woken
pub mod Attended
pub mod Scenarios
pub mod Tests
