-- ===== src/Payment/Charge/Distribution/Complete.antt =====
-- A charge run that was interrupted and is repeated (charge.go) charges and credits once.
use vyomanaut_v.Base.{
  ℕ, ◌+◌, ◌<◌, ◌≡◌, ◌≢◌, refl, sym, ap, ap₂, ◌∙◌, Bool, true, false, List, [], ◌∷◌, Option, some,
  if◌then◌else◌, arith, All, ==_refl,
}
use vyomanaut_v.Base.Int64.{half}
use vyomanaut_v.Base.Result.{Result}
use vyomanaut_v.Payment.Ledger.{
  Event, LedgerError, insert_failed, unavailable, has_key, not_positive, insert_escrow_event,
}
use vyomanaut_v.Payment.Ledger.Keys.{
  Insert, lost, refused, present, added, insert_escrow_event-Insert,
}
use vyomanaut_v.Payment.Charge.{Entries, file_monthly_cost_paise, split_by_largest_remainder}
use vyomanaut_v.Payment.Charge.Sums.{sum, IsMap}
use vyomanaut_v.Payment.Charge.Distribution.{
  Ledger, ChargeableFile, ChargeError, charge_owner, Credited, charge_event, distribute_shares,
  after_charge, compute_charge_for_file,
}
use vyomanaut_v.Payment.Charge.Distribution.Progress.{
  total, pending, missing, run, run-balance, run_complete,
}

-- The orders in which a loop can visit a map.
pub data Reorder : Entries → Entries → Type 0 where
  same : Reorder [] []
  keep : (e : ℕ × ℕ) {m v : Entries} → Reorder m v → Reorder (e ∷ m) (e ∷ v)
  swap : (d e : ℕ × ℕ) (m : Entries) → Reorder (d ∷ e ∷ m) (e ∷ d ∷ m)
  both : {m v w : Entries} → Reorder m v → Reorder v w → Reorder m w

All-Reorder : (P : ℕ × ℕ → Type 0) {m v : Entries} → Reorder m v → All P m → All P v
All-Reorder P same h = tt
All-Reorder P (keep e r) h = (h.0, All-Reorder P r h.1)
All-Reorder P (swap d e m) h = (h.1.0, (h.0, h.1.1))
All-Reorder P (both r s) h = All-Reorder P s (All-Reorder P r h)

pub IsMap-Reorder : {m v : Entries} → Reorder m v → IsMap m → IsMap v
IsMap-Reorder same h = tt
IsMap-Reorder (keep e r) h = (All-Reorder (λ d. e.0 ≢ d.0) r h.0, IsMap-Reorder r h.1)
IsMap-Reorder (swap d e m) h = (((λ x. h.0.0 (sym x)), h.1.0), (h.0.1, h.1.1))
IsMap-Reorder (both r s) h = IsMap-Reorder s (IsMap-Reorder r h)

pub sum-Reorder : {m v : Entries} → Reorder m v → sum v ≡ sum m
sum-Reorder same = refl
sum-Reorder (keep e r) = ap (λ (t : ℕ). e.1 + t) (sum-Reorder r)
sum-Reorder (swap d e m) = omega arith
sum-Reorder (both r s) = sum-Reorder s ∙ sum-Reorder r

-- The idempotency keys of a file's credits and of its charge for a period, and the two runs.
module _ (charge_key : ℕ → ℕ → ℕ → ℕ) (deposit_key : ℕ → ℕ → ℕ → ℕ) (visit : Entries → Entries)
    (rate billing_period : ℕ) (f : ChargeableFile) where
  abbrev pub cost : ℕ
  cost = file_monthly_cost_paise f.original_size_bytes rate

  abbrev pub own_key : ℕ
  own_key = charge_key f.owner_id f.file_id billing_period

  abbrev pub pass : (ℕ → Bool) → Entries → List Event → Credited
  pass reachable shares events =
      run charge_key deposit_key visit rate f.file_id billing_period reachable shares events

  abbrev pub lacks : Entries → List Event → ℕ
  lacks shares events =
      pending charge_key deposit_key visit rate f.file_id billing_period shares events

  -- What the owner still owes.
  abbrev pub owes : List Event → ℕ
  owes events = if has_key own_key events then 0 else cost

  -- The outcomes of one run for one file.
  pub data FileRun (reachable : ℕ → Bool) (shares : Entries) (ledger : Ledger)
      : Option (Ledger × List ChargeError) → Type 0 where
    stopped :
        reachable own_key ≡ false
        → FileRun reachable shares ledger
            (some (ledger, charge_owner (insert_failed unavailable) ∷ []))
    passed :
        (owners : List Event)
        → has_key own_key owners ≡ true
        → total owners ≡ total ledger.owner_events + owes ledger.owner_events
        → FileRun reachable shares ledger (
            some (
              record {
                owner_events = owners;
                provider_events = (pass reachable (visit shares) ledger.provider_events).0;
              },
              (pass reachable (visit shares) ledger.provider_events).1,
            ))

  abbrev own_event : Event
  own_event = charge_event charge_key deposit_key visit rate f billing_period cost

  run_outcome :
      (reachable : ℕ → Bool) (shares : Entries) (ledger : Ledger)
      → not_positive cost ≡ false
      → (r : Result LedgerError (List Event))
      → Insert (reachable own_key) own_event ledger.owner_events r
      → FileRun reachable shares ledger (
          after_charge charge_key deposit_key visit rate reachable f billing_period
            (some shares)
            ledger
            r)
  unfolding after_charge distribute_shares has_key
  run_outcome reachable shares ledger pos _ (lost h) = stopped h
  run_outcome reachable shares ledger pos _ (refused h) = cc
  run_outcome reachable shares ledger pos _ (present h) =
      passed ledger.owner_events h (rw (h) (omega arith))
  run_outcome reachable shares ledger pos _ (added h pos2 fresh) =
      passed (own_event ∷ ledger.owner_events) (rw (==_refl own_key) refl)
        (rw (fresh) (omega arith))

  pub run_lem :
      (reachable : ℕ → Bool) (c : ℕ × ℕ) (counts shares : Entries) (ledger : Ledger)
      → not_positive cost ≡ false
      → split_by_largest_remainder cost (c ∷ counts) ≡ some shares
      → FileRun reachable shares ledger (
          compute_charge_for_file charge_key deposit_key visit rate reachable
            (some (c ∷ counts))
            f
            billing_period
            ledger)
  unfolding compute_charge_for_file
  run_lem reachable c counts shares ledger pos e =
      rw (pos, e)
        (run_outcome reachable shares ledger pos
          (insert_escrow_event (reachable own_key) own_event ledger.owner_events)
          (insert_escrow_event-Insert (reachable own_key) own_event ledger.owner_events))

  -- What a run keeps: the amounts in the two tables and the amounts still due.
  pub record IsBalanced (shares : Entries) (before after : Ledger) : Type 0 where
    pub owner_side :
        total after.owner_events + owes after.owner_events
        ≡ total before.owner_events + owes before.owner_events
    pub provider_side :
        total after.provider_events + lacks shares after.provider_events
        ≡ total before.provider_events + lacks shares before.provider_events

  module _ (shares : Entries) (visited : IsMap (visit shares))
      (apart : (p q : ℕ)
        → deposit_key p f.file_id billing_period ≡ deposit_key q f.file_id billing_period
        → p ≡ q) where
    abbrev passed_ledger : (ℕ → Bool) → Ledger → List Event → Ledger
    passed_ledger reachable ledger owners = record {
      owner_events = owners;
      provider_events = (pass reachable (visit shares) ledger.provider_events).0;
    }

    passed-IsBalanced :
        (reachable : ℕ → Bool) (ledger : Ledger) (owners : List Event)
        → has_key own_key owners ≡ true
        → total owners ≡ total ledger.owner_events + owes ledger.owner_events
        → IsBalanced (visit shares) ledger (passed_ledger reachable ledger owners)
    passed-IsBalanced reachable ledger owners stored paid = record {
      owner_side =
          ap (λ (b : Bool). total owners + (if b then 0 else cost)) stored ∙ omega (arith, paid);
      provider_side =
          run-balance charge_key deposit_key visit rate f.file_id billing_period reachable
            (visit shares) ledger.provider_events apart visited;
    }

    pub run-IsBalanced :
        (reachable : ℕ → Bool) (ledger : Ledger) (r : Option (Ledger × List ChargeError))
        → FileRun reachable shares ledger r
        → (next : Ledger) × (errs : List ChargeError) × (r ≡ some (next, errs))
          × IsBalanced (visit shares) ledger next
    run-IsBalanced reachable ledger _ (stopped h) = (
      ledger,
      charge_owner (insert_failed unavailable) ∷ [],
      refl,
      record { owner_side = refl; provider_side = refl },
    )
    run-IsBalanced reachable ledger _ (passed owners stored paid) = (
      passed_ledger reachable ledger owners,
      (pass reachable (visit shares) ledger.provider_events).1,
      refl,
      passed-IsBalanced reachable ledger owners stored paid,
    )

    pub run_settled :
        (ledger : Ledger) (r : Option (Ledger × List ChargeError))
        → FileRun (λ k. true) shares ledger r
        → (next : Ledger) × (r ≡ some (next, []))
          × (owes next.owner_events ≡ 0)
          × (lacks (visit shares) next.provider_events ≡ 0)
          × IsBalanced (visit shares) ledger next
    run_settled ledger _ (stopped h) = cc
    run_settled ledger _ (passed owners stored paid) =
        let (settled, clean) =
          run_complete charge_key deposit_key visit rate f.file_id billing_period (visit shares)
            ledger.provider_events apart visited in
        (
          passed_ledger (λ k. true) ledger owners,
          ap (λ (errors : List ChargeError). some (passed_ledger (λ k. true) ledger owners, errors))
              clean,
          ap (λ (t : Bool). if t then 0 else cost) stored,
          settled,
          passed-IsBalanced (λ k. true) ledger owners stored paid,
        )

  pub lacks_fresh :
      (shares : Entries) (events : List Event)
      → sum shares < half
      → ((p : ℕ) → has_key (deposit_key p f.file_id billing_period) events ≡ false)
      → lacks shares events ≡ sum shares
  lacks_fresh [] events small fresh = refl
  lacks_fresh ((p, a) ∷ shares) events small fresh =
      ap₂ (λ (x y : ℕ). x + y) (missing_fresh p a (omega arith))
        (lacks_fresh shares events (omega arith) fresh)
    where
      missing_fresh :
          (p a : ℕ)
          → a < half
          → missing charge_key deposit_key visit rate f.file_id billing_period p a events ≡ a
      missing_fresh p a small = ground (arith, fresh p)
