-- ===== src/Payment/Release/Paid.antt =====
-- What a release adds to the ledger, against the figure that its preview shows (release.go).
use vyomanaut_v.Base.{
  ℕ, ◌+◌, ◌<◌, ◌≡◌, refl, ap, ◌∙◌, Bool, true, false, ◌&&◌, List, ◌∷◌, Option, none, ◌==◌,
  if◌then◌else◌, arith, Bool-cases, inl, inr, ==_refl,
}
use vyomanaut_v.Base.Int64.{half}
use vyomanaut_v.Base.Result.{Result, ok}
use vyomanaut_v.Payment.Ledger.{EventType, release, Event, LedgerError, has_key, not_positive}
use vyomanaut_v.Payment.Ledger.Totals.{kind_code, total_of}
use vyomanaut_v.Payment.Ledger.Keys.{
  Insert, lost, refused, present, added, insert_escrow_event-Insert,
}
use vyomanaut_v.Payment.Release.{
  Score, BalanceRow, PendingRelease, Releases, ReleaseError, ProviderReleasePreview,
  preview_release, compute_release_for_provider, mark_step, release_escrow, release_event,
  release_result,
}
use vyomanaut_v.Payment.Release.Preview.{release_of_preview}

-- A run without an error that marks a period and adds an amount to a provider's releases, and to no
-- other sum of the ledger.
pub record IsPaid (p : PendingRelease) (amount : ℕ) (before : Releases)
    (run : Releases × Option ReleaseError) : Type 0 where
  pub clean : run.1 ≡ none
  pub marked : run.0.computed ≡ p.audit_period_id ∷ before.computed
  pub paid :
      total_of release p.provider_id run.0.provider_events
      ≡ amount + total_of release p.provider_id before.provider_events
  pub others :
      (q : ℕ) (kind : EventType)
      → ((p.provider_id == q) && (kind_code release == kind_code kind)) ≡ false
      → total_of kind q run.0.provider_events ≡ total_of kind q before.provider_events

module _ (release_key : ℕ → ℕ → ℕ) (p : PendingRelease) (before : Releases) where
  nothing-IsPaid :
      (amount : ℕ)
      → amount ≡ 0
      → IsPaid p amount before
          (mark_step release_key true p before.computed (ok before.provider_events) before)
  unfolding mark_step
  nothing-IsPaid amount zero = record {
    clean = refl;
    marked = refl;
    paid = omega (arith, zero);
    others = λ q kind other. refl;
  }

  inserted-IsPaid :
      (amount : ℕ)
      → not_positive amount ≡ false
      → has_key (release_key p.provider_id p.audit_period_id) before.provider_events ≡ false
      → (x : Result LedgerError (List Event))
      → Insert true (release_event release_key p amount) before.provider_events x
      → IsPaid p amount before (
          mark_step release_key true p before.computed
            (release_result before.provider_events x)
            before)
  unfolding mark_step total_of
  inserted-IsPaid amount positive fresh _ (lost h) = absurd cc
  inserted-IsPaid amount positive fresh _ (refused h) = absurd (cc (h, positive))
  inserted-IsPaid amount positive fresh _ (present h) = absurd (cc (h, fresh))
  inserted-IsPaid amount positive fresh _ (added h pos new) = record {
    clean = refl;
    marked = refl;
    paid =
        ap
          (λ (x : Bool).
            (if x && true then amount else 0)
            + total_of release p.provider_id before.provider_events)
          (==_refl p.provider_id);
    others = λ q kind other.
        ap (λ (x : Bool). (if x then amount else 0) + total_of kind q before.provider_events) other
        ∙ omega arith;
  }

  escrow-IsPaid :
      (amount : ℕ)
      → not_positive amount ≡ false
      → has_key (release_key p.provider_id p.audit_period_id) before.provider_events ≡ false
      → IsPaid p amount before (
          mark_step release_key true p before.computed
            (release_escrow release_key (λ k. true) p amount before.provider_events)
            before)
  unfolding release_escrow
  escrow-IsPaid amount positive fresh =
      inserted-IsPaid amount positive fresh _ (
        insert_escrow_event-Insert true (release_event release_key p amount) before.provider_events)

  figure-IsPaid :
      (amount : ℕ)
      → amount < half
      → has_key (release_key p.provider_id p.audit_period_id) before.provider_events ≡ false
      → IsPaid p amount before (
          mark_step release_key true p before.computed
            (if not_positive amount
              then ok before.provider_events
              else release_escrow release_key (λ k. true) p amount before.provider_events)
            before)
  figure-IsPaid amount small fresh = elim (Bool-cases (not_positive amount)) [
    | inl nothing ↦ rw nothing (nothing-IsPaid amount (ground arith))
    | inr positive ↦ rw positive (escrow-IsPaid amount positive fresh)
  ]

-- When a candidate's preview succeeds with a score that is not stale and a figure that is not negative,
-- a release of this candidate on the same scores and view, under a key that the ledger does not have
-- and with no failing statement, reports no error, marks the period and adds exactly the figure of the
-- preview to the provider's releases, and nothing to any other sum of the ledger.
pub preview_release_agrees :
    (release_key : ℕ → ℕ → ℕ) (scores : ℕ → Option Score) (view : ℕ → BalanceRow)
    (p : PendingRelease) (before : Releases) (r : ProviderReleasePreview)
    → preview_release scores view p ≡ ok r
    → r.score_stale ≡ false
    → r.release_paise < half
    → has_key (release_key p.provider_id p.audit_period_id) before.provider_events ≡ false
    → IsPaid p r.release_paise before
        (compute_release_for_provider release_key (λ k. true) (λ k. true) scores view p before)
preview_release_agrees release_key scores view p before r h fresh small new =
    rw (release_of_preview release_key (λ k. true) (λ k. true) scores view p before r h fresh)
      (figure-IsPaid release_key p before r.release_paise small new)
