-- ===== src/Payment/Ledger.antt =====
-- internal/payment/ledger.go: the two append-only escrow tables, with the constraints of
-- migrations/001_initial_schema.sql (amount_paise > 0, a unique idempotency_key). An identifier and a
-- key are numbers. Whether a statement reaches the database is an argument.
pub mod Keys
pub mod Totals
use vyomanaut_v.Base.{
  ℕ, ◌+◌, Bool, true, false, ◌||◌, not, List, [], ◌∷◌, Option, none, some, ltb, leb, ◌==◌,
  if◌then◌else◌,
}
use vyomanaut_v.Base.Int64.{half, sub_i64, add_i64}
use vyomanaut_v.Base.Result.{Result, ok, err}

-- `EscrowEventType` and `OwnerEscrowEventType` in one type; DEPOSIT is in both.
pub data EventType : Type 0 where
  deposit release seizure reversal : EventType
  charge withdrawal refund : EventType

pub record Event : Type 0 where
  pub subject : ℕ
  pub event_type : EventType
  pub amount_paise : ℕ
  pub reference : Option ℕ
  pub idempotency_key : ℕ

-- What the database reports.
pub data DatabaseError : Type 0 where
  unique_violation check_violation unavailable : DatabaseError

pub data LedgerError : Type 0 where
  duplicate_idempotency_key : LedgerError
  insert_failed : DatabaseError → LedgerError

-- `amount <= 0` on an int64.
abbrev pub not_positive : ℕ → Bool
not_positive amount = amount == 0 || leb half amount

unfoldable pub has_key : ℕ → List Event → Bool
has_key key [] = false
has_key key (e ∷ events) = e.idempotency_key == key || has_key key events

-- The INSERT statement on a table with the two constraints.
unfoldable pub exec_insert : Bool → Event → List Event → Result DatabaseError (List Event)
exec_insert reachable e events =
    if not reachable
    then err unavailable
    else if not_positive e.amount_paise
    then err check_violation
    else if has_key e.idempotency_key events
    then err unique_violation
    else ok (e ∷ events)

abbrev pub is_unique_violation : DatabaseError → Bool
is_unique_violation unique_violation = true
is_unique_violation check_violation = false
is_unique_violation unavailable = false

abbrev pub insert_error : DatabaseError → LedgerError
insert_error e = if is_unique_violation e then duplicate_idempotency_key else insert_failed e

-- Also `InsertOwnerEscrowEvent`, which differs in the table only.
unfoldable pub insert_escrow_event : Bool → Event → List Event → Result LedgerError (List Event)
insert_escrow_event reachable e events = elim (exec_insert reachable e events) [
  | ok next ↦ ok next
  | err f ↦ err (insert_error f)
]
