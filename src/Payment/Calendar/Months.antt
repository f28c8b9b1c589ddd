-- ===== src/Payment/Calendar/Months.antt =====
-- The monthly loops of internal/payment do each month's work once.
use vyomanaut_v.Base.{
  ℕ, ◌<◌, ◌≤◌, ◌≡◌, inl, inr, refl, sym, ◌∙◌, Bool, true, false, List, [], ◌∷◌, ◌==◌, Bool-cases,
  arith, subst,
}
use vyomanaut_v.Base.Members.{In, here, there}
use vyomanaut_v.Payment.Calendar.{
  Time, BillingPeriod, never, same_period, format_month, format_month_before,
  charge_computation_day_of_month, release_computation_day_of_month, should_run_charge,
  should_run_release, run_on_calendar_date, run_charge_on_calendar_date,
  run_release_on_calendar_date,
}
use vyomanaut_v.Payment.Calendar.Due.{
  number, IsPeriod, same_period→≡, later_number, IsForward, Tested, other_day, done, fires, IsDue,
  IsDue-later, IsDue-cons, DoesMonths,
}

module _ {ℓ} {S : Type ℓ} (key : Time → BillingPeriod) (is_day : Time → Bool)
    (work : BillingPeriod → S → S) (now : Time) (ticks : List Time) (last_run : BillingPeriod)
    (s : S) where
  -- a tick that finds nothing to do
  DoesMonths-quiet :
      {result : S}
      → (is_day now ≡ true → key now ≡ last_run)
      → DoesMonths key is_day work ticks last_run s result
      → DoesMonths key is_day work (now ∷ ticks) last_run s result
  DoesMonths-quiet known later = record {
    months = later.months;
    performed = later.performed;
    rising = later.rising;
    only_due = λ p i. IsDue-later key is_day p now ticks (later.only_due p i);
    all_due = λ p h. elim (IsDue-cons key is_day p now ticks h) [
      | inl (d, k) ↦
          subst (λ (q : BillingPeriod). In q (last_run ∷ later.months)) (sym (known d) ∙ k) here
      | inr h ↦ later.all_due p h
    ];
  }

  DoesMonths-fires :
      {result : S}
      → is_day now ≡ true
      → number last_run < number (key now)
      → DoesMonths key is_day work ticks (key now) (work (key now) s) result
      → DoesMonths key is_day work (now ∷ ticks) last_run s result
  DoesMonths-fires d later_month later = record {
    months = key now ∷ later.months;
    performed = later.performed;
    rising = (later_month, later.rising);
    only_due = λ p i. member p i;
    all_due = λ p h. elim (IsDue-cons key is_day p now ticks h) [
      | inl (_, k) ↦ there (subst (λ (q : BillingPeriod). In q (key now ∷ later.months)) k here)
      | inr h ↦ there (later.all_due p h)
    ];
  }
    where
      member :
          (p : BillingPeriod) → In p (key now ∷ later.months) → IsDue key is_day p (now ∷ ticks)
      member _ here = record { tick = now; is_tick = here; on_day = d; has_month = refl }
      member p (there i) = IsDue-later key is_day p now ticks (later.only_due p i)

module _ {ℓ} {S : Type ℓ} (key : Time → BillingPeriod) (is_day : Time → Bool)
    (should_run : Time → BillingPeriod → Bool × BillingPeriod)
    (tested : (now : Time) (last_run : BillingPeriod)
      → Tested key is_day now last_run (should_run now last_run))
    (work : BillingPeriod → S → S) where
  abbrev run : List Time → BillingPeriod → S → S
  run ticks last_run s = run_on_calendar_date should_run work ticks last_run s

  after_test :
      (now : Time) (ticks : List Time) (last_run : BillingPeriod) (s : S) (x : Bool × BillingPeriod)
      → Tested key is_day now last_run x
      → IsPeriod (key now)
      → IsPeriod last_run
      → 0 < number (key now)
      → number last_run ≤ number (key now)
      → DoesMonths key is_day work ticks last_run s (run ticks last_run s)
      → DoesMonths key is_day work ticks
          (key now)
          (work (key now) s)
          (run ticks (key now) (work (key now) s))
      → DoesMonths key is_day work
          (now ∷ ticks)
          last_run
          s
          (elim x.0 [ true ↦ run ticks x.1 (work x.1 s) | false ↦ run ticks last_run s ])
  after_test now ticks last_run s _ (other_day off) period valid pos le quiet fired =
      DoesMonths-quiet key is_day work now ticks last_run s (λ d. absurd cc) quiet
  after_test now ticks last_run s _ (done e) period valid pos le quiet fired =
      DoesMonths-quiet key is_day work now ticks last_run s (λ d. e) quiet
  after_test now ticks last_run s _ (fires d other) period valid pos le quiet fired =
      DoesMonths-fires key is_day work now ticks last_run s d
        (later_number (key now) last_run period valid le pos other) fired

  run_on_calendar_date-DoesMonths :
      (ticks : List Time) (low : ℕ) (last_run : BillingPeriod) (s : S)
      → IsForward key low ticks
      → IsPeriod last_run
      → number last_run ≤ low
      → DoesMonths key is_day work ticks last_run s (run ticks last_run s)
  unfolding run_on_calendar_date
  run_on_calendar_date-DoesMonths [] low last_run s forward valid le = record {
    months = [];
    performed = refl;
    rising = tt;
    only_due = λ p i. elim i [ ];
    all_due = λ p h. absurd (nobody h.is_tick);
  }
    where
      nobody : {t : Time} → In t [] → ⊥
      nobody i = elim i [ ]
  run_on_calendar_date-DoesMonths (now ∷ ticks) low last_run s h valid le =
      let (period, pos, le_now, forward) = h in
      after_test now ticks last_run s (should_run now last_run) (tested now last_run) period valid
        pos (omega arith)
        (run_on_calendar_date-DoesMonths ticks (number (key now)) last_run s forward valid
          (omega arith))
        (run_on_calendar_date-DoesMonths ticks (number (key now)) (key now) (work (key now) s)
          forward period (omega arith))

should_run_charge-Tested :
    (now : Time) (last_run : BillingPeriod)
    → Tested format_month_before
        (λ t. t.day == charge_computation_day_of_month)
        now
        last_run
        (should_run_charge now last_run)
unfolding should_run_charge
should_run_charge-Tested now last_run =
    elim (Bool-cases (now.day == charge_computation_day_of_month)) [
      | inr off ↦ rw off (other_day off)
      | inl d ↦ elim (Bool-cases (same_period (format_month_before now) last_run)) [
        | inl e ↦ rw (d, e) (done (same_period→≡ (format_month_before now) last_run e))
        | inr n ↦ rw (d, n) (fires d n)
      ]
    ]

should_run_release-Tested :
    (now : Time) (last_run : BillingPeriod)
    → Tested format_month
        (λ t. t.day == release_computation_day_of_month)
        now
        last_run
        (should_run_release now last_run)
unfolding should_run_release
should_run_release-Tested now last_run =
    elim (Bool-cases (now.day == release_computation_day_of_month)) [
      | inr off ↦ rw off (other_day off)
      | inl d ↦ elim (Bool-cases (same_period (format_month now) last_run)) [
        | inl e ↦ rw (d, e) (done (same_period→≡ (format_month now) last_run e))
        | inr n ↦ rw (d, n) (fires d n)
      ]
    ]

-- As long as the clock does not go back, the monthly charges run for the months before those in which
-- a tick fell on the first day, for each of them once and in their order, whatever those runs do.
pub run_charge_on_calendar_date-DoesMonths {ℓ} :
    {S : Type ℓ}
    → (charge : BillingPeriod → S → S) (ticks : List Time) (s : S)
    → IsForward format_month_before 0 ticks
    → DoesMonths format_month_before
        (λ t. t.day == charge_computation_day_of_month)
        charge
        ticks
        never
        s
        (run_charge_on_calendar_date charge ticks s)
unfolding run_charge_on_calendar_date
run_charge_on_calendar_date-DoesMonths charge ticks s forward =
    run_on_calendar_date-DoesMonths format_month_before
      (λ t. t.day == charge_computation_day_of_month) should_run_charge should_run_charge-Tested
      charge ticks 0 never s forward tt (omega arith)

-- As long as the clock does not go back, the monthly release runs for the months in which a tick fell
-- on the 23rd day, for each of them once, whatever those runs do: a run that fails in part, or that
-- leaves out a provider whose score is stale, is not repeated before the next month.
pub run_release_on_calendar_date-DoesMonths {ℓ} :
    {S : Type ℓ}
    → (release : S → S) (ticks : List Time) (s : S) → IsForward format_month 0 ticks
    → DoesMonths format_month
        (λ t. t.day == release_computation_day_of_month)
        (λ period. release)
        ticks
        never
        s
        (run_release_on_calendar_date release ticks s)
unfolding run_release_on_calendar_date
run_release_on_calendar_date-DoesMonths release ticks s forward =
    run_on_calendar_date-DoesMonths format_month (λ t. t.day == release_computation_day_of_month)
      should_run_release should_run_release-Tested (λ period. release) ticks 0 never s forward tt
      (omega arith)
