-- ===== src/Patch.antt =====
-- internal/patch: unified diffs read into per-file edits, and edits applied to a file's bytes.
pub mod Errors
pub mod Hunk
pub mod Lines
pub mod Edits
pub mod Reverse
pub mod Target
pub mod HunkParser
pub mod Header
pub mod Judge
pub mod Parser
pub mod Counts
pub mod Sections
pub mod Judged
pub mod Whole
pub mod Tests
