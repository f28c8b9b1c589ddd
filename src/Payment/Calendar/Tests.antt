-- ===== src/Payment/Calendar/Tests.antt =====
-- Runs of the monthly loops of internal/payment.
use vyomanaut_v.Base.{ℕ, suc, ◌≡◌, refl, true, List, [], ◌∷◌, ◌++◌, ◌==◌, arith}
use vyomanaut_v.Payment.Calendar.{
  Time, BillingPeriod, never, of_month, should_run_charge, should_run_release, same_period,
  format_month, format_month_before, run_on_calendar_date, run_charge_on_calendar_date,
  run_release_on_calendar_date,
}
use vyomanaut_v.Payment.Calendar.Due.{IsForward, DoesMonths}
use vyomanaut_v.Payment.Calendar.Months.{
  run_charge_on_calendar_date-DoesMonths, run_release_on_calendar_date-DoesMonths,
}

abbrev date : ℕ → ℕ → ℕ → Time
date y m d = record { year = y; month = m; day = d }

charge_january : should_run_charge (date 2026 1 1) never ≡ (true, of_month 2025 12)
unfolding should_run_charge format_month_before same_period
charge_january = refl

-- a year later the same month is due again
release_next_year : should_run_release (date 2027 1 23) (of_month 2026 1) ≡ (true, of_month 2027 1)
unfolding should_run_release format_month same_period
release_next_year = refl

abbrev polls : List Time
polls = date 2026 1 1 ∷ date 2026 1 1 ∷ date 2026 1 23 ∷ date 2026 1 23 ∷ date 2026 2 1 ∷ []

charge_polls :
    run_charge_on_calendar_date {S = List BillingPeriod} (λ p l. l ++ p ∷ []) polls []
    ≡ of_month 2025 12 ∷ of_month 2026 1 ∷ []
unfolding run_charge_on_calendar_date run_on_calendar_date should_run_charge format_month_before
    same_period
charge_polls = refl

release_polls : run_release_on_calendar_date suc polls 0 ≡ 1
unfolding run_release_on_calendar_date run_on_calendar_date should_run_release format_month
    same_period
release_polls = refl

abbrev log_period : BillingPeriod → List BillingPeriod → List BillingPeriod
log_period p l = l ++ p ∷ []

charges-IsForward : IsForward format_month_before 0 polls
unfolding format_month_before
charges-IsForward = (
  (omega arith, omega arith),
  omega arith,
  omega arith,
  (
    (omega arith, omega arith),
    omega arith,
    omega arith,
    (
      (omega arith, omega arith),
      omega arith,
      omega arith,
      (
        (omega arith, omega arith),
        omega arith,
        omega arith,
        ((omega arith, omega arith), omega arith, omega arith, tt),
      ),
    ),
  ),
)

releases-IsForward : IsForward format_month 0 polls
unfolding format_month
releases-IsForward = (
  (omega arith, omega arith),
  omega arith,
  omega arith,
  (
    (omega arith, omega arith),
    omega arith,
    omega arith,
    (
      (omega arith, omega arith),
      omega arith,
      omega arith,
      (
        (omega arith, omega arith),
        omega arith,
        omega arith,
        ((omega arith, omega arith), omega arith, omega arith, tt),
      ),
    ),
  ),
)

run_charge_on_calendar_date-DoesMonths_example :
    DoesMonths format_month_before
      (λ t. t.day == 1)
      log_period
      polls
      never
      []
      (run_charge_on_calendar_date log_period polls [])
run_charge_on_calendar_date-DoesMonths_example =
    run_charge_on_calendar_date-DoesMonths log_period polls [] charges-IsForward

run_release_on_calendar_date-DoesMonths_example :
    DoesMonths format_month
      (λ t. t.day == 23)
      (λ period. suc)
      polls
      never
      0
      (run_release_on_calendar_date suc polls 0)
run_release_on_calendar_date-DoesMonths_example =
    run_release_on_calendar_date-DoesMonths suc polls 0 releases-IsForward
