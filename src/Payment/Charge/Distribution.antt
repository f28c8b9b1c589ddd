-- ===== src/Payment/Charge/Distribution.antt =====
-- `computeChargeForFile` and `ComputeMonthlyCharges` (charge.go) on the two ledger tables.
-- The hash of the idempotency keys, the order in which Go visits the map of shares and the statements
-- that reach the database are parameters.
pub mod Progress
pub mod Complete
pub mod Retry
use vyomanaut_v.Base.{
  ℕ, ◌+◌, Bool, true, false, List, [], ◌∷◌, ◌++◌, Option, none, some, if◌then◌else◌, ◌==◌,
}
use vyomanaut_v.Base.Result.{Result, ok, err}
use vyomanaut_v.Payment.Ledger.{
  Event, LedgerError, EventType, deposit, charge, duplicate_idempotency_key, insert_failed,
  not_positive, insert_escrow_event,
}
use vyomanaut_v.Payment.Charge.{Entries, file_monthly_cost_paise, split_by_largest_remainder}

pub record Ledger : Type 0 where
  pub owner_events : List Event
  pub provider_events : List Event

pub record ChargeableFile : Type 0 where
  pub file_id : ℕ
  pub owner_id : ℕ
  pub original_size_bytes : ℕ

pub data ChargeError : Type 0 where
  shard_holders : ChargeError
  charge_owner : LedgerError → ChargeError
  credit_provider : ℕ → LedgerError → ChargeError

-- The loop variables `errs` and the table.
abbrev pub Credited : Type 0
Credited = List Event × List ChargeError

-- What the code does with the result of an insert: a duplicate is skipped, another error is kept.
abbrev pub credit_outcome : ℕ → List Event → Result LedgerError (List Event) → Credited
credit_outcome provider events (ok next) = (next, [])
credit_outcome provider events (err duplicate_idempotency_key) = (events, [])
credit_outcome provider events (err (insert_failed f)) =
    (events, credit_provider provider (insert_failed f) ∷ [])

module _ (charge_key : ℕ → ℕ → ℕ → ℕ) (deposit_key : ℕ → ℕ → ℕ → ℕ) (visit : Entries → Entries)
    (rate : ℕ) where
  abbrev pub deposit_event : ℕ → ℕ → ℕ → ℕ → Event
  deposit_event file_id billing_period provider amount = record {
    subject = provider;
    event_type = deposit;
    amount_paise = amount;
    reference = none;
    idempotency_key = deposit_key provider file_id billing_period;
  }

  abbrev pub charge_event : ChargeableFile → ℕ → ℕ → Event
  charge_event f billing_period cost = record {
    subject = f.owner_id;
    event_type = charge;
    amount_paise = cost;
    reference = some f.file_id;
    idempotency_key = charge_key f.owner_id f.file_id billing_period;
  }

  -- The loop over the shares; `reachable` says of each key whether its statement reaches the database.
  unfoldable pub distribute : (ℕ → Bool) → ℕ → ℕ → Entries → List Event → Credited
  distribute reachable file_id billing_period [] events = (events, [])
  distribute reachable file_id billing_period ((provider, amount) ∷ shares) events =
      let e = deposit_event file_id billing_period provider amount in
      let (next, errs) =
        if not_positive amount
        then (events, [])
        else credit_outcome provider events
            (insert_escrow_event (reachable e.idempotency_key) e events) in
      let (last, more) = distribute reachable file_id billing_period shares next in
      (last, errs ++ more)

  -- `none` is a panic.
  unfoldable pub distribute_shares :
      (ℕ → Bool) → ChargeableFile → ℕ → Option Entries → Ledger → Option (Ledger × List ChargeError)
  distribute_shares reachable f billing_period none ledger = none
  distribute_shares reachable f billing_period (some shares) ledger =
      let (events, errs) =
        distribute reachable f.file_id billing_period (visit shares) ledger.provider_events in
      some (record { owner_events = ledger.owner_events; provider_events = events }, errs)

  -- From the result of the owner's charge on; a duplicate falls through to the distribution.
  unfoldable pub after_charge :
      (ℕ → Bool)
      → ChargeableFile
      → ℕ
      → Option Entries
      → Ledger
      → Result LedgerError (List Event)
      → Option (Ledger × List ChargeError)
  after_charge reachable f billing_period shares ledger (ok next) =
      distribute_shares reachable f billing_period shares
        (record { owner_events = next; provider_events = ledger.provider_events })
  after_charge reachable f billing_period shares ledger (err duplicate_idempotency_key) =
      distribute_shares reachable f billing_period shares ledger
  after_charge reachable f billing_period shares ledger (err (insert_failed x)) =
      some (ledger, charge_owner (insert_failed x) ∷ [])

  -- The counts of the file's shard holders; `none` when that query fails.
  unfoldable pub compute_charge_for_file :
      (ℕ → Bool) → Option Entries → ChargeableFile → ℕ → Ledger → Option (Ledger × List ChargeError)
  compute_charge_for_file reachable none f billing_period ledger = some (ledger, shard_holders ∷ [])
  compute_charge_for_file reachable (some []) f billing_period ledger = some (ledger, [])
  compute_charge_for_file reachable (some (c ∷ counts)) f billing_period ledger =
      let cost = file_monthly_cost_paise f.original_size_bytes rate in
      if not_positive cost
      then some (ledger, [])
      else let e = charge_event f billing_period cost in
        let shares = split_by_largest_remainder cost (c ∷ counts) in
        after_charge reachable f billing_period shares ledger
          (insert_escrow_event (reachable e.idempotency_key) e ledger.owner_events)

  unfoldable pub compute_monthly_charges :
      (ℕ → Bool)
      → (ℕ → Option Entries)
      → List ChargeableFile
      → ℕ
      → Ledger
      → Option (Ledger × List ChargeError)
  compute_monthly_charges reachable counts [] billing_period ledger = some (ledger, [])
  compute_monthly_charges reachable counts (f ∷ files) billing_period ledger =
      elim (compute_charge_for_file reachable (counts f.file_id) f billing_period ledger) [
        | none ↦ none
        | some r ↦ elim (compute_monthly_charges reachable counts files billing_period r.0) [
          | none ↦ none
          | some s ↦ some (s.0, r.1 ++ s.1)
        ]
      ]
