-- ===== src/Payment/Charge/Distribution/Retry.antt =====
-- A charge run that was interrupted and is repeated (charge.go) charges and credits exactly once.
use vyomanaut_v.Payment.Charge.Distribution.{Ledger}
