-- ===== src/Payment/Release/Repeat.antt =====
-- A release that failed part of the way and is repeated (release.go) pays exactly once.
use vyomanaut_v.Base.{
  ℕ, ◌+◌, ◌≡◌, refl, ap, ◌∙◌, Bool, true, false, List, ◌∷◌, Option, none, some, if◌then◌else◌,
  arith, ==_refl,
}
use vyomanaut_v.Base.Int64.{mul_i64, div_i64}
use vyomanaut_v.Base.Result.{Result}
use vyomanaut_v.Payment.Ledger.{Event, LedgerError, has_key, not_positive}
use vyomanaut_v.Payment.Ledger.Keys.{
  Insert, lost, refused, present, added, insert_escrow_event-Insert,
}
use vyomanaut_v.Payment.Charge.Distribution.Progress.{total}
use vyomanaut_v.Payment.Release.{
  Score, score_multiplier, is_score_stale, BalanceRow, provider_balance, PendingRelease, Releases,
  ReleaseError, compute_release_for_provider, release_score, release_balance, mark_step,
  release_escrow, release_event, release_result, basis_points_divisor,
}

module _ (release_key : ℕ → ℕ → ℕ) (p : PendingRelease) (amount : ℕ)
    (positive : not_positive amount ≡ false) where
  abbrev own_key : ℕ
  own_key = release_key p.provider_id p.audit_period_id

  -- What is still to be paid.
  abbrev due : List Event → ℕ
  due events = if has_key own_key events then 0 else amount

  abbrev step : (ℕ → Bool) → Bool → Releases → Releases × Option ReleaseError
  step reachable markable r =
      mark_step release_key markable p r.computed
        (release_escrow release_key reachable p amount r.provider_events) r

  insert_balanced :
      (reachable markable : Bool) (r : Releases) (x : Result LedgerError (List Event))
      → Insert reachable (release_event release_key p amount) r.provider_events x
      → let next =
          mark_step release_key markable p r.computed (release_result r.provider_events x) r in
        let after = next.0.provider_events in
        total after + due after ≡ total r.provider_events + due r.provider_events
  unfolding mark_step has_key
  insert_balanced reachable markable r _ (lost h) = refl
  insert_balanced reachable markable r _ (refused h) = cc
  insert_balanced reachable true r _ (present h) = refl
  insert_balanced reachable false r _ (present h) = refl
  insert_balanced reachable true r _ (added h pos fresh) = rw (fresh, ==_refl own_key) (omega arith)
  insert_balanced reachable false r _ (added h pos fresh) =
      rw (fresh, ==_refl own_key) (omega arith)

  insert_settled :
      (r : Releases) (x : Result LedgerError (List Event))
      → Insert true (release_event release_key p amount) r.provider_events x
      → let run = mark_step release_key true p r.computed (release_result r.provider_events x) r in
        (due run.0.provider_events ≡ 0)
        × (run.0.computed ≡ p.audit_period_id ∷ r.computed)
        × (run.1 ≡ none)
  unfolding mark_step has_key
  insert_settled r _ (lost h) = cc
  insert_settled r _ (refused h) = cc
  insert_settled r _ (present h) = (rw (h) refl, refl, refl)
  insert_settled r _ (added h pos fresh) = (rw (==_refl own_key) refl, refl, refl)

  pub step_balanced :
      (reachable : ℕ → Bool) (markable : Bool) (r : Releases)
      → let after = (step reachable markable r).0.provider_events in
        total after + due after ≡ total r.provider_events + due r.provider_events
  unfolding release_escrow
  step_balanced reachable markable r = insert_balanced (reachable own_key) markable r _ (
      insert_escrow_event-Insert (reachable own_key) (release_event release_key p amount)
        r.provider_events)

  pub step_settled :
      (r : Releases)
      → (due (step (λ k. true) true r).0.provider_events ≡ 0)
        × ((step (λ k. true) true r).0.computed ≡ p.audit_period_id ∷ r.computed)
        × ((step (λ k. true) true r).1 ≡ none)
  unfolding release_escrow
  step_settled r =
      insert_settled r _
        (insert_escrow_event-Insert true (release_event release_key p amount) r.provider_events)

step_lem :
    (release_key : ℕ → ℕ → ℕ) (reachable markable : ℕ → Bool) (scores : ℕ → Option Score)
    (view : ℕ → BalanceRow) (p : PendingRelease) (r : Releases) (score : Score) (balance : ℕ)
    (positive : not_positive
        (div_i64 (mul_i64 balance (score_multiplier score)) basis_points_divisor)
      ≡ false)
    → scores p.provider_id ≡ some score
    → is_score_stale score ≡ false
    → provider_balance (view p.provider_id) ≡ some balance
    → compute_release_for_provider release_key reachable markable scores view p r
      ≡ mark_step release_key
          (markable p.audit_period_id)
          p
          r.computed
          (release_escrow release_key reachable p
            (div_i64 (mul_i64 balance (score_multiplier score)) basis_points_divisor)
            r.provider_events)
          r
unfolding compute_release_for_provider release_score release_balance
step_lem release_key reachable markable scores view p r score balance positive found fresh row =
    rw (found, row, fresh, positive) refl

-- A pending period with a fresh score, a balance and a positive amount, whose key is not in the ledger:
-- whatever statements failed in a first run, a second run in which all succeed, and which reads the same
-- score and the same row of the view, reports no error, marks the period, and the two together add exactly
-- the amount to the ledger.
pub release_retry :
    (release_key : ℕ → ℕ → ℕ) (reachable markable : ℕ → Bool) (scores : ℕ → Option Score)
    (view : ℕ → BalanceRow) (p : PendingRelease) (before : Releases) (score : Score) (balance : ℕ)
    → not_positive (div_i64 (mul_i64 balance (score_multiplier score)) basis_points_divisor) ≡ false
    → scores p.provider_id ≡ some score
    → is_score_stale score ≡ false
    → provider_balance (view p.provider_id) ≡ some balance
    → has_key (release_key p.provider_id p.audit_period_id) before.provider_events ≡ false
    → let first =
        (compute_release_for_provider release_key reachable markable scores view p before).0 in
      let second =
        compute_release_for_provider release_key (λ k. true) (λ k. true) scores view p first in
      (second.1 ≡ none)
      × (second.0.computed ≡ p.audit_period_id ∷ first.computed)
      × (total second.0.provider_events
          ≡ total before.provider_events
            + div_i64 (mul_i64 balance (score_multiplier score)) basis_points_divisor)
release_retry release_key reachable markable scores view p before score balance positive found fresh
      row unpaid =
    let amount : ℕ = div_i64 (mul_i64 balance (score_multiplier score)) basis_points_divisor in
    let first : Releases =
      (compute_release_for_provider release_key reachable markable scores view p before).0 in
    let e1 =
      step_lem release_key reachable markable scores view p before score balance positive found
        fresh row in
    let e2 =
      step_lem release_key (λ k. true) (λ k. true) scores view p first score balance positive found
        fresh row in
    let (settled, marked, clean) = step_settled release_key p amount positive first in
    (
      ap (λ (t : Releases × Option ReleaseError). t.1) e2 ∙ clean,
      ap (λ (t : Releases × Option ReleaseError). t.0.computed) e2 ∙ marked,
      omega (
        arith,
        ap (λ (t : Releases × Option ReleaseError). total t.0.provider_events) e1,
        ap
            (λ (t : Releases × Option ReleaseError).
              due release_key p amount positive t.0.provider_events)
            e1,
        ap (λ (t : Releases × Option ReleaseError). total t.0.provider_events) e2,
        settled,
        step_balanced release_key p amount positive (λ k. true) true first,
        step_balanced release_key p amount positive reachable (markable p.audit_period_id) before,
        ap (λ (b : Bool). if b then 0 else amount) unpaid,
      ),
    )
