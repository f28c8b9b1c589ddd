-- ===== src/Payment/Tests.antt =====
-- Runs of the payment code at which its theorems apply: a file of 2 GiB at 100 paise per GiB, with two
-- shard holders of 3 and 4 shards.
use vyomanaut_v.Base.{◌+◌, ◌*◌, ◌<◌, ◌≡◌, refl, true, false, [], ◌∷◌, none, some, arith}
use vyomanaut_v.Base.{◌≤◌}
use vyomanaut_v.Base.Int64.{mul_i64, div_i64}
use vyomanaut_v.Base.Result.{ok}
use vyomanaut_v.Payment.Ledger.{has_key, not_positive}
use vyomanaut_v.Payment.Release.{
  Score, PendingRelease, Releases, ProviderReleasePreview, row, provider_balance, is_score_stale,
  score_multiplier, release_multiplier_basis_points, preview_row, preview_release,
  compute_release_for_provider,
}
use vyomanaut_v.Payment.Release.Preview.{preview_release_exact}
use vyomanaut_v.Payment.Release.Paid.{IsPaid, preview_release_agrees}
use vyomanaut_v.Payment.Release.Repeat.{release_retry}
use vyomanaut_v.Payment.Charge.{
  Entries, split_by_largest_remainder, value_at, increment, total_shards, insert_id, sort_ids,
  base_shares, remainders, distributed, insert_remainder, sort_remainders, hand_out,
}
use vyomanaut_v.Payment.Charge.Sums.{sum, IsMap}
use vyomanaut_v.Payment.Charge.Split.{split_by_largest_remainder-sum}
use vyomanaut_v.Payment.Charge.Distribution.{Ledger, ChargeableFile}
use vyomanaut_v.Payment.Charge.Distribution.Progress.{total}

abbrev counts : Entries
counts = (7, 3) ∷ (4, 4) ∷ []

abbrev file : ChargeableFile
file = record { file_id = 1; owner_id = 2; original_size_bytes = 2147483648 }

abbrev empty : Ledger
empty = record { owner_events = []; provider_events = [] }

counts-IsMap : IsMap counts
counts-IsMap = (((λ e. omega arith), tt), (tt, tt))

-- 200 paise over 7 shards: 85 and 5/7, and 114 and 2/7.
split-run : split_by_largest_remainder 200 counts ≡ some ((4, 114) ∷ (7, 86) ∷ [])
unfolding split_by_largest_remainder value_at increment total_shards insert_id sort_ids base_shares
    remainders distributed insert_remainder sort_remainders hand_out
split-run = refl

split_by_largest_remainder-sum_example :
    (shares : Entries) × (split_by_largest_remainder 200 counts ≡ some shares) × (sum shares ≡ 200)
split_by_largest_remainder-sum_example =
    split_by_largest_remainder-sum 200 counts counts-IsMap (λ e. omega arith) (omega arith)
      (omega arith) (omega arith)

-- A provider with 1001 paise at a score of 0.85, so at a multiplier of 0.75.
abbrev good_score : Score
good_score = record {
  score_30d_basis_points = 8500;
  score_7d_basis_points = 9700;
  dual_window_flag = false;
  since_scores_as_of = 1000;
}

abbrev period : PendingRelease
period = record { audit_period_id = 11; provider_id = 5 }

abbrev none_released : Releases
none_released = record { provider_events = []; computed = [] }

abbrev good_preview : ProviderReleasePreview
good_preview = record {
  provider_id = 5;
  balance_paise = 1001;
  multiplier_bp = 7500;
  release_paise = 750;
  remainder_bp = 7500;
  score_stale = false;
}

good_preview-made : preview_release (λ p. some good_score) (λ p. row 1001) period ≡ ok good_preview
unfolding preview_release preview_row provider_balance score_multiplier
    release_multiplier_basis_points is_score_stale
good_preview-made = refl

preview_release_exact_example : (1001 * 7500 ≡ 750 * 10000 + 7500) × (7500 < 10000) × (750 ≤ 1001)
preview_release_exact_example =
    preview_release_exact (λ p. some good_score) (λ p. row 1001) period good_preview
      good_preview-made (omega arith)

preview_release_agrees_example : IsPaid period 750 none_released (
    compute_release_for_provider
      (λ p a. a)
      (λ k. true)
      (λ k. true)
      (λ p. some good_score)
      (λ p. row 1001)
      period
      none_released)
preview_release_agrees_example =
    preview_release_agrees (λ p a. a) (λ p. some good_score) (λ p. row 1001) period none_released
      good_preview good_preview-made refl (omega arith) (unfold has_key in refl)

-- The first run releases the escrow and fails to mark the period.
release_retry_example :
    let first =
      (compute_release_for_provider
        (λ p a. a)
        (λ k. true)
        (λ a. false)
        (λ p. some good_score)
        (λ p. row 1001)
        period
        none_released).0 in
    let second =
      compute_release_for_provider
        (λ p a. a)
        (λ k. true)
        (λ k. true)
        (λ p. some good_score)
        (λ p. row 1001)
        period
        first in
    (second.1 ≡ none)
    × (second.0.computed ≡ 11 ∷ first.computed)
    × (total second.0.provider_events
        ≡ 0 + div_i64 (mul_i64 1001 (score_multiplier good_score)) 10000)
release_retry_example =
    release_retry (λ p a. a) (λ k. true) (λ a. false) (λ p. some good_score) (λ p. row 1001) period
      none_released good_score 1001 positive refl fresh balance unpaid
  where
    positive : not_positive (div_i64 (mul_i64 1001 (score_multiplier good_score)) 10000) ≡ false
    positive = unfold score_multiplier release_multiplier_basis_points in refl

    fresh : is_score_stale good_score ≡ false
    fresh = unfold is_score_stale in refl

    balance : provider_balance (row 1001) ≡ some 1001
    balance = unfold provider_balance in refl

    unpaid : has_key 11 [] ≡ false
    unpaid = unfold has_key in refl
