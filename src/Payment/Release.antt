-- ===== src/Payment/Release.antt =====
-- internal/payment/release.go: the monthly release and its preview, with the release of the mock
-- provider (mock.go) and the balance of ledger.go. An int64 is its bit pattern. The scores, the rows of
-- the materialized view and the statements that reach the database are parameters: the view is
-- refreshed by another loop, so it does not change during a run.
pub mod Preview
pub mod Paid
pub mod Repeat
use vyomanaut_v.Base.{
  ℕ, ◌+◌, ◌*◌, Bool, true, false, not, List, [], ◌∷◌, ◌++◌, Option, none, some, ltb, leb, ◌==◌,
  if◌then◌else◌,
}
use vyomanaut_v.Base.Int64.{half, mul_i64, sub_i64, div_i64, lt_i64}
use vyomanaut_v.Base.Result.{Result, ok, err}
use vyomanaut_v.Payment.Ledger.{
  Event, LedgerError, release, duplicate_idempotency_key, insert_failed, insert_escrow_event,
  not_positive,
}

abbrev pub basis_points_divisor : ℕ
basis_points_divisor = 10000

-- Nanoseconds in 60 minutes.
abbrev pub score_staleness_limit : ℕ
score_staleness_limit = 3600000000000

unfoldable pub release_multiplier_basis_points : ℕ → ℕ
release_multiplier_basis_points score_bp =
    if not (lt_i64 score_bp 9500)
    then 10000
    else if not (lt_i64 score_bp 8000)
    then 7500
    else if not (lt_i64 score_bp 6500)
    then 5000
    else 0

-- The fields of `scoring.ProviderScore` that the code reads, with the time since `ScoresAsOf`.
pub record Score : Type 0 where
  pub score_30d_basis_points : ℕ
  pub score_7d_basis_points : ℕ
  pub dual_window_flag : Bool
  pub since_scores_as_of : ℕ

unfoldable pub is_score_stale : Score → Bool
is_score_stale s = lt_i64 score_staleness_limit s.since_scores_as_of

unfoldable pub score_multiplier : Score → ℕ
score_multiplier s =
    let m = release_multiplier_basis_points s.score_30d_basis_points in
    let m7 = release_multiplier_basis_points s.score_7d_basis_points in
    if s.dual_window_flag then (if lt_i64 m7 m then m7 else m) else m

-- The result of the query: an error, no row, or a balance.
pub data BalanceRow : Type 0 where
  query_failed no_rows : BalanceRow
  row : ℕ → BalanceRow

unfoldable pub provider_balance : BalanceRow → Option ℕ
provider_balance query_failed = none
provider_balance no_rows = some 0
provider_balance (row balance) = some (if lt_i64 balance 0 then 0 else balance)

pub record PendingRelease : Type 0 where
  pub audit_period_id : ℕ
  pub provider_id : ℕ

pub data ReleaseError : Type 0 where
  get_score get_balance mark_release_computed : ReleaseError
  release_escrow_failed : LedgerError → ReleaseError

-- The ledger table and the periods marked `release_computed`.
pub record Releases : Type 0 where
  pub provider_events : List Event
  pub computed : List ℕ

-- `MockProvider.ReleaseEscrow` on the result of its insert: a duplicate is no error.
abbrev pub release_result :
    List Event → Result LedgerError (List Event) → Result LedgerError (List Event)
release_result events (ok next) = ok next
release_result events (err duplicate_idempotency_key) = ok events
release_result events (err (insert_failed x)) = err (insert_failed x)

module _ (release_key : ℕ → ℕ → ℕ) where
  abbrev pub release_event : PendingRelease → ℕ → Event
  release_event p amount = record {
    subject = p.provider_id;
    event_type = release;
    amount_paise = amount;
    reference = some p.audit_period_id;
    idempotency_key = release_key p.provider_id p.audit_period_id;
  }

  unfoldable pub release_escrow :
      (ℕ → Bool) → PendingRelease → ℕ → List Event → Result LedgerError (List Event)
  release_escrow reachable p amount events =
      let e = release_event p amount in
      release_result events (insert_escrow_event (reachable e.idempotency_key) e events)

  -- The last step, once the escrow is released or there is nothing to release.
  unfoldable pub mark_step :
      Bool
      → PendingRelease
      → List ℕ
      → Result LedgerError (List Event)
      → Releases
      → Releases × Option ReleaseError
  mark_step markable p computed (err e) before = (before, some (release_escrow_failed e))
  mark_step markable p computed (ok events) before =
      if markable
      then (record { provider_events = events; computed = p.audit_period_id ∷ computed }, none)
      else (record { provider_events = events; computed = computed }, some mark_release_computed)

  -- From the balance on, for a score that is fresh.
  unfoldable pub release_balance :
      (ℕ → Bool)
      → (ℕ → Bool)
      → PendingRelease
      → Releases
      → Score
      → Option ℕ
      → Releases × Option ReleaseError
  release_balance reachable markable p r score none = (r, some get_balance)
  release_balance reachable markable p r score (some balance) =
      let amount = div_i64 (mul_i64 balance (score_multiplier score)) basis_points_divisor in
      mark_step (markable p.audit_period_id) p r.computed
        (if not_positive amount
          then ok r.provider_events
          else release_escrow reachable p amount r.provider_events)
        r

  -- From the score on; a stale one is left for a later run.
  unfoldable pub release_score :
      (ℕ → Bool)
      → (ℕ → Bool)
      → PendingRelease
      → Releases
      → Option Score
      → Option ℕ
      → Releases × Option ReleaseError
  release_score reachable markable p r none balance = (r, some get_score)
  release_score reachable markable p r (some score) balance =
      if is_score_stale score
      then (r, none)
      else release_balance reachable markable p r score balance

  unfoldable pub compute_release_for_provider :
      (ℕ → Bool)
      → (ℕ → Bool)
      → (ℕ → Option Score)
      → (ℕ → BalanceRow)
      → PendingRelease
      → Releases
      → Releases × Option ReleaseError
  compute_release_for_provider reachable markable scores view p r =
      release_score reachable markable p r (scores p.provider_id)
        (provider_balance (view p.provider_id))

  -- The loop over the candidates; an error does not stop it.
  unfoldable pub compute_monthly_release :
      (ℕ → Bool)
      → (ℕ → Bool)
      → (ℕ → Option Score)
      → (ℕ → BalanceRow)
      → List PendingRelease
      → Releases
      → Releases × List ReleaseError
  compute_monthly_release reachable markable scores view [] r = (r, [])
  compute_monthly_release reachable markable scores view (p ∷ candidates) r =
      let (next, e) = compute_release_for_provider reachable markable scores view p r in
      let (last, errs) = compute_monthly_release reachable markable scores view candidates next in
      (last, elim e [ none ↦ errs | some x ↦ x ∷ errs ])

pub record ProviderReleasePreview : Type 0 where
  pub provider_id : ℕ
  pub balance_paise : ℕ
  pub multiplier_bp : ℕ
  pub release_paise : ℕ
  pub remainder_bp : ℕ
  pub score_stale : Bool

-- The body of the loop of `PreviewMonthlyRelease` for one candidate, on what its two queries gave.
unfoldable pub preview_row :
    PendingRelease → Option Score → Option ℕ → Result ReleaseError ProviderReleasePreview
preview_row p none balance = err get_score
preview_row p (some score) none = err get_balance
preview_row p (some score) (some balance) =
    let numerator = mul_i64 balance (score_multiplier score) in
    let release_paise = div_i64 numerator basis_points_divisor in
    ok (record {
      provider_id = p.provider_id;
      balance_paise = balance;
      multiplier_bp = score_multiplier score;
      release_paise = release_paise;
      remainder_bp = sub_i64 numerator (mul_i64 release_paise basis_points_divisor);
      score_stale = is_score_stale score;
    })

unfoldable pub preview_release :
    (ℕ → Option Score)
    → (ℕ → BalanceRow)
    → PendingRelease
    → Result ReleaseError ProviderReleasePreview
preview_release scores view p =
    preview_row p (scores p.provider_id) (provider_balance (view p.provider_id))

unfoldable pub preview_monthly_release :
    (ℕ → Option Score)
    → (ℕ → BalanceRow)
    → List PendingRelease
    → List ProviderReleasePreview × List ReleaseError
preview_monthly_release scores view [] = ([], [])
preview_monthly_release scores view (p ∷ candidates) =
    let (out, errs) = preview_monthly_release scores view candidates in
    elim (preview_release scores view p) [
      | err e ↦ (out, e ∷ errs)
      | ok preview ↦ (preview ∷ out, errs)
    ]
