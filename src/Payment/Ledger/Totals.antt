-- ===== src/Payment/Ledger/Totals.antt =====
-- What the rows of an escrow table add up to for a subject, by the kind of the event.
use vyomanaut_v.Base.{ℕ, ◌+◌, ◌&&◌, List, [], ◌∷◌, ◌==◌, if◌then◌else◌}
use vyomanaut_v.Payment.Ledger.{
  EventType, deposit, release, seizure, reversal, charge, withdrawal, refund, Event,
}

-- The kinds apart from each other.
abbrev pub kind_code : EventType → ℕ
kind_code deposit = 0
kind_code release = 1
kind_code seizure = 2
kind_code reversal = 3
kind_code charge = 4
kind_code withdrawal = 5
kind_code refund = 6

-- The amounts of a subject's events of one kind, added up.
unfoldable pub total_of : EventType → ℕ → List Event → ℕ
total_of kind subject [] = 0
total_of kind subject (e ∷ events) =
    (if (e.subject == subject) && (kind_code e.event_type == kind_code kind)
      then e.amount_paise
      else 0)
    + total_of kind subject events

-- What came into a subject's escrow, and what left it.
abbrev pub paid_in : ℕ → List Event → ℕ
paid_in subject events = total_of deposit subject events + total_of reversal subject events

abbrev pub paid_out : ℕ → List Event → ℕ
paid_out subject events = total_of release subject events + total_of seizure subject events
