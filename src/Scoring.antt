-- ===== src/Scoring.antt =====
-- internal/scoring: the counter of consecutive audit passes.
pub mod Passes
mod Tests
