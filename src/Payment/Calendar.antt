-- ===== src/Payment/Calendar.antt =====
-- The loops of internal/payment/charge.go and internal/payment/release.go that run once a month. What
-- time.Now gives at each tick of the poll is a list; the month's work is an argument, and its error is
-- dropped as the loops drop it.
pub mod Months
pub mod Due
mod Tests
use vyomanaut_v.Base.{
  ℕ, ◌+◌, ◌-◌, ◌*◌, Bool, true, false, not, ◌&&◌, List, [], ◌∷◌, ◌==◌, if◌then◌else◌,
}

-- The calendar date of a time.
pub record Time : Type 0 where
  pub year : ℕ
  pub month : ℕ
  pub day : ℕ

-- The empty string, or the string of a month in the layout "2006-01".
pub data BillingPeriod : Type 0 where
  never : BillingPeriod
  of_month : ℕ → ℕ → BillingPeriod

abbrev pub charge_computation_day_of_month : ℕ
charge_computation_day_of_month = 1

abbrev pub release_computation_day_of_month : ℕ
release_computation_day_of_month = 23

unfoldable pub same_period : BillingPeriod → BillingPeriod → Bool
same_period never never = true
same_period (of_month y m) (of_month z n) = (y == z) && (m == n)
same_period _ _ = false

unfoldable pub format_month : Time → BillingPeriod
format_month now = of_month now.year now.month

-- The month before; the caller's day is in every month, so the date is not carried over.
unfoldable pub format_month_before : Time → BillingPeriod
format_month_before now =
    if now.month == 1 then of_month (now.year - 1) 12 else of_month now.year (now.month - 1)

unfoldable pub should_run_charge : Time → BillingPeriod → Bool × BillingPeriod
should_run_charge now last_run =
    if not (now.day == charge_computation_day_of_month)
    then (false, last_run)
    else let billing_period = format_month_before now in
      if same_period billing_period last_run then (false, last_run) else (true, billing_period)

unfoldable pub should_run_release : Time → BillingPeriod → Bool × BillingPeriod
should_run_release now last_run =
    if not (now.day == release_computation_day_of_month)
    then (false, last_run)
    else let current = format_month now in
      if same_period current last_run then (false, last_run) else (true, current)

-- Both loops, over the ticks until the context is cancelled: they differ in the test and in the work.
module _ {ℓ} {S : Type ℓ} where
  unfoldable pub run_on_calendar_date :
      (Time → BillingPeriod → Bool × BillingPeriod)
      → (BillingPeriod → S → S)
      → List Time
      → BillingPeriod
      → S
      → S
  run_on_calendar_date should_run work [] last_run s = s
  run_on_calendar_date should_run work (now ∷ ticks) last_run s =
      let (run, period) = should_run now last_run in
      elim run [
        | true ↦ run_on_calendar_date should_run work ticks period (work period s)
        | false ↦ run_on_calendar_date should_run work ticks last_run s
      ]

  unfoldable pub run_charge_on_calendar_date : (BillingPeriod → S → S) → List Time → S → S
  run_charge_on_calendar_date charge ticks s =
      run_on_calendar_date should_run_charge charge ticks never s

  unfoldable pub run_release_on_calendar_date : (S → S) → List Time → S → S
  run_release_on_calendar_date release ticks s =
      run_on_calendar_date should_run_release (λ period. release) ticks never s
