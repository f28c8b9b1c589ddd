-- ===== src/Audit.antt =====
-- internal/audit: the cluster secret, the challenges signed with it, and their answers.
pub mod Secret
pub mod Signing
pub mod Receipts
mod Tests
