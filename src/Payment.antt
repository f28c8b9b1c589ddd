-- ===== src/Payment.antt =====
-- internal/payment: the escrow ledger, the monthly charges and the monthly release.
pub mod Ledger
pub mod Charge
pub mod Release
pub mod Calendar
mod Tests
