-- ===== src/Payment/Release/Preview.antt =====
-- The preview of a release (release.go) against the release and against exact arithmetic.
use vyomanaut_v.Base.{
  ℕ, ◌+◌, ◌*◌, ◌/◌, ◌%◌, ◌≤◌, ◌<◌, ◌≡◌, sym, ap, ◌∙◌, subst, Bool, false, Option, none, some,
  if◌then◌else◌, arith,
}
use native.Mathlib.Nat.{mul-le-mul_left}
use vyomanaut_v.Base.Int64.{half, mul_i64, sub_i64, div_i64, mul_i64-small, div_i64-small}
use vyomanaut_v.Base.Result.{ok, ok-injective}
use vyomanaut_v.Payment.Ledger.{not_positive}
use vyomanaut_v.Payment.Release.{
  Score, score_multiplier, release_multiplier_basis_points, is_score_stale, BalanceRow,
  provider_balance, PendingRelease, Releases, ProviderReleasePreview, preview_row, preview_release,
  release_balance, release_score, compute_release_for_provider, mark_step, release_escrow,
}

release_multiplier-le : (s : ℕ) → release_multiplier_basis_points s ≤ 10000
unfolding release_multiplier_basis_points
release_multiplier-le s = ground arith

score_multiplier-le : (s : Score) → score_multiplier s ≤ 10000
unfolding score_multiplier
score_multiplier-le s = ground (
  arith,
  release_multiplier-le s.score_30d_basis_points,
  release_multiplier-le s.score_7d_basis_points,
)

quotient_exact :
    (w b : ℕ)
    → w ≤ b * 10000
    → b * 10000 < half
    → (w ≡ div_i64 w 10000 * 10000 + sub_i64 w (mul_i64 (div_i64 w 10000) 10000))
      × (sub_i64 w (mul_i64 (div_i64 w 10000) 10000) < 10000)
      × (div_i64 w 10000 ≤ b)
quotient_exact w b le small =
    let quotient : div_i64 w 10000 ≡ w / 10000 = div_i64-small w 10000 (omega arith) in
    let rest : sub_i64 w (mul_i64 (div_i64 w 10000) 10000) ≡ w % 10000 =
      ap (λ (q : ℕ). sub_i64 w (mul_i64 q 10000)) quotient ∙ omega arith in
    (omega (arith, quotient, rest), omega (arith, rest), omega (arith, quotient))

row_exact :
    (p : PendingRelease) (score : Option Score) (balance : Option ℕ) (r : ProviderReleasePreview)
    → preview_row p score balance ≡ ok r
    → r.balance_paise * 10000 < half
    → (r.balance_paise * r.multiplier_bp ≡ r.release_paise * 10000 + r.remainder_bp)
      × (r.remainder_bp < 10000)
      × (r.release_paise ≤ r.balance_paise)
unfolding preview_row
row_exact p none balance r h small = cc
row_exact p (some score) none r h small = cc
row_exact p (some score) (some balance) r h small =
    subst
      (λ (r : ProviderReleasePreview).
        r.balance_paise * 10000 < half
        → (r.balance_paise * r.multiplier_bp ≡ r.release_paise * 10000 + r.remainder_bp)
          × (r.remainder_bp < 10000)
          × (r.release_paise ≤ r.balance_paise))
      (ok-injective h) (exact balance (score_multiplier score) (score_multiplier-le score)) small
  where
    exact :
        (b m : ℕ)
        → m ≤ 10000
        → b * 10000 < half
        → let q = div_i64 (mul_i64 b m) 10000 in
          (b * m ≡ q * 10000 + sub_i64 (mul_i64 b m) (mul_i64 q 10000))
          × (sub_i64 (mul_i64 b m) (mul_i64 q 10000) < 10000)
          × (q ≤ b)
    exact b m le small =
        let bound : b * m ≤ b * 10000 = mul-le-mul_left b le in
        let whole : mul_i64 b m ≡ b * m = mul_i64-small b m (omega (arith, bound)) in
        let (whole2, rest, le2) =
          quotient_exact (mul_i64 b m) b (omega (arith, bound, whole)) small in
        (sym whole ∙ whole2, rest, le2)

-- Whatever the score and the balance, the figures of a preview reconcile: the balance times the
-- multiplier is the release times 10000 plus the remainder, the remainder is below 10000, and the
-- release is at most the balance, when the balance times 10000 stays below 2^63.
pub preview_release_exact :
    (scores : ℕ → Option Score) (view : ℕ → BalanceRow) (p : PendingRelease)
    (r : ProviderReleasePreview)
    → preview_release scores view p ≡ ok r
    → r.balance_paise * 10000 < half
    → (r.balance_paise * r.multiplier_bp ≡ r.release_paise * 10000 + r.remainder_bp)
      × (r.remainder_bp < 10000)
      × (r.release_paise ≤ r.balance_paise)
unfolding preview_release
preview_release_exact scores view p r h small =
    row_exact p (scores p.provider_id) (provider_balance (view p.provider_id)) r h small

row_agrees :
    (release_key : ℕ → ℕ → ℕ) (reachable markable : ℕ → Bool) (p : PendingRelease)
    (before : Releases) (score : Option Score) (balance : Option ℕ) (r : ProviderReleasePreview)
    → preview_row p score balance ≡ ok r
    → r.score_stale ≡ false
    → release_score release_key reachable markable p before score balance
      ≡ mark_step release_key
          (markable p.audit_period_id)
          p
          before.computed
          (if not_positive r.release_paise
            then ok before.provider_events
            else release_escrow release_key reachable p r.release_paise before.provider_events)
          before
unfolding preview_row release_score release_balance
row_agrees release_key reachable markable p before none balance r h fresh = cc
row_agrees release_key reachable markable p before (some score) none r h fresh = cc
row_agrees release_key reachable markable p before (some score) (some balance) r h fresh =
    let same = ok-injective h in
    let not_stale : is_score_stale score ≡ false =
      ap (λ (t : ProviderReleasePreview). t.score_stale) same ∙ fresh in
    ap
      (λ (b : Bool).
        if b
        then (before, none)
        else release_balance release_key reachable markable p before score (some balance))
      not_stale
    ∙ ap
        (λ (t : ProviderReleasePreview).
          mark_step release_key (markable p.audit_period_id) p before.computed
            (if not_positive t.release_paise
              then ok before.provider_events
              else release_escrow release_key reachable p t.release_paise before.provider_events)
            before)
        same

-- the release makes the steps of its last part on the figure of the preview
pub release_of_preview :
    (release_key : ℕ → ℕ → ℕ) (reachable markable : ℕ → Bool) (scores : ℕ → Option Score)
    (view : ℕ → BalanceRow) (p : PendingRelease) (before : Releases) (r : ProviderReleasePreview)
    → preview_release scores view p ≡ ok r
    → r.score_stale ≡ false
    → compute_release_for_provider release_key reachable markable scores view p before
      ≡ mark_step release_key
          (markable p.audit_period_id)
          p
          before.computed
          (if not_positive r.release_paise
            then ok before.provider_events
            else release_escrow release_key reachable p r.release_paise before.provider_events)
          before
unfolding preview_release compute_release_for_provider
release_of_preview release_key reachable markable scores view p before r h fresh =
    row_agrees release_key reachable markable p before (scores p.provider_id)
      (provider_balance (view p.provider_id)) r h fresh
