-- ===== src/Erasure.antt =====
-- internal/erasure: Reed-Solomon coding of a segment.
pub mod Field
pub mod Row
pub mod Matrix
pub mod Polynomial
pub mod Coder
mod Tests
