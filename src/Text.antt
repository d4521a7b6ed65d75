-- ===== src/Text.antt =====
-- internal/text: texts for a terminal.
pub mod Sanitize
pub mod Shown
pub mod Width
pub mod Truncated
pub mod Tests
