-- ===== src/Repair.antt =====
-- internal/repair: the repair queue.
pub mod Queue
pub mod Departure
pub mod Assignment
mod Tests
