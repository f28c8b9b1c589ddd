-- ===== src/Payment/Ledger/Keys.antt =====
-- The outcomes of an insert into an escrow table (ledger.go).
use vyomanaut_v.Base.{◌≡◌, refl, Bool, true, false, List, ◌∷◌, Bool-cases, inl, inr}
use vyomanaut_v.Base.Result.{Result, ok, err}
use vyomanaut_v.Payment.Ledger.{
  Event, LedgerError, duplicate_idempotency_key, insert_failed, unavailable, check_violation,
  has_key, exec_insert, insert_escrow_event, not_positive,
}

-- The four outcomes of an insert.
pub data Insert (reachable : Bool) (e : Event) (events : List Event)
    : Result LedgerError (List Event) → Type 0 where
  lost : reachable ≡ false → Insert reachable e events (err (insert_failed unavailable))
  refused :
      not_positive e.amount_paise ≡ true
      → Insert reachable e events (err (insert_failed check_violation))
  present :
      has_key e.idempotency_key events ≡ true
      → Insert reachable e events (err duplicate_idempotency_key)
  added :
      reachable ≡ true
      → not_positive e.amount_paise ≡ false
      → has_key e.idempotency_key events ≡ false
      → Insert reachable e events (ok (e ∷ events))

pub insert_escrow_event-Insert :
    (reachable : Bool) (e : Event) (events : List Event)
    → Insert reachable e events (insert_escrow_event reachable e events)
unfolding insert_escrow_event exec_insert
insert_escrow_event-Insert false e events = lost refl
insert_escrow_event-Insert true e events = elim (Bool-cases (not_positive e.amount_paise)) [
  | inl h ↦ rw (insert_escrow_event, exec_insert, h) (refused h)
  | inr h ↦ elim (Bool-cases (has_key e.idempotency_key events)) [
    | inl k ↦ rw (insert_escrow_event, exec_insert, h, k) (present k)
    | inr k ↦ rw (insert_escrow_event, exec_insert, h, k) (added refl h k)
  ]
]
