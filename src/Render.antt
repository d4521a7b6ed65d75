-- ===== src/Render.antt =====
-- internal/render: what human output shows of a run.
pub mod ZeroInformation
pub mod Silent
pub mod Hidden
pub mod Tests
