-- ===== src/Payment/Calendar/Due.antt =====
-- The months that are due in the monthly loops of internal/payment, and what it is to do their work once.
use vyomanaut_v.Base.{
  ℕ, ◌+◌, ◌*◌, ◌<◌, ◌≤◌, ◌≡◌, ◌⊎◌, inl, inr, refl, ap₂, Bool, true, false, List, [], ◌∷◌, arith,
}
use vyomanaut_v.Base.Members.{In, here, there}
use vyomanaut_v.Payment.Calendar.{Time, BillingPeriod, never, of_month, same_period}

-- The number of a month in the order of time.
abbrev pub number : BillingPeriod → ℕ
number never = 0
number (of_month y m) = y * 12 + m

abbrev pub IsPeriod : BillingPeriod → Type 0
IsPeriod never = Unit
IsPeriod (of_month y m) = (1 ≤ m) × (m ≤ 12)

pub same_period→≡ : (p q : BillingPeriod) → same_period p q ≡ true → p ≡ q
unfolding same_period
same_period→≡ never never h = refl
same_period→≡ never (of_month z n) h = cc
same_period→≡ (of_month y m) never h = cc
same_period→≡ (of_month y m) (of_month z n) h = ap₂ of_month (ground arith) (ground arith)

pub later_number :
    (p q : BillingPeriod)
    → IsPeriod p
    → IsPeriod q
    → number q ≤ number p
    → 0 < number p
    → same_period p q ≡ false
    → number q < number p
unfolding same_period
later_number never q hp hq le pos h = absurd (omega arith)
later_number (of_month y m) never hp hq le pos h = pos
later_number (of_month y m) (of_month z n) hp hq le pos h = ground arith

module _ (key : Time → BillingPeriod) where
  -- The ticks' months are months, and none is before the one of an earlier tick.
  abbrev pub IsForward : ℕ → List Time → Type 0
  IsForward low [] = Unit
  IsForward low (now ∷ ticks) =
      IsPeriod (key now)
      × (0 < number (key now))
      × (low ≤ number (key now))
      × IsForward (number (key now)) ticks

  module _ (is_day : Time → Bool) where
    -- A tick on the day has the month.
    pub record IsDue (p : BillingPeriod) (ticks : List Time) : Type 0 where
      pub tick : Time
      pub is_tick : In tick ticks
      pub on_day : is_day tick ≡ true
      pub has_month : key tick ≡ p

    pub data Tested (now : Time) (last_run : BillingPeriod) : Bool × BillingPeriod → Type 0 where
      other_day : is_day now ≡ false → Tested now last_run (false, last_run)
      done : key now ≡ last_run → Tested now last_run (false, last_run)
      fires :
          is_day now ≡ true
          → same_period (key now) last_run ≡ false
          → Tested now last_run (true, key now)

    pub IsDue-later :
        (p : BillingPeriod) (now : Time) (ticks : List Time) → IsDue p ticks → IsDue p (now ∷ ticks)
    IsDue-later p now ticks h = record {
      tick = h.tick;
      is_tick = there h.is_tick;
      on_day = h.on_day;
      has_month = h.has_month;
    }

    pub IsDue-cons :
        (p : BillingPeriod) (now : Time) (ticks : List Time)
        → IsDue p (now ∷ ticks)
        → ((is_day now ≡ true) × (key now ≡ p)) ⊎ IsDue p ticks
    IsDue-cons p now ticks h = at h.is_tick h.on_day h.has_month
      where
        at :
            {t : Time}
            → In t (now ∷ ticks)
            → is_day t ≡ true
            → key t ≡ p
            → ((is_day now ≡ true) × (key now ≡ p)) ⊎ IsDue p ticks
        at here d k = inl (d, k)
        at {t} (there i) d k = inr (record { tick = t; is_tick = i; on_day = d; has_month = k })

abbrev pub perform {ℓ} : {S : Type ℓ} → (BillingPeriod → S → S) → List BillingPeriod → S → S
perform work [] s = s
perform work (p ∷ months) s = perform work months (work p s)

abbrev pub IsRising : ℕ → List BillingPeriod → Type 0
IsRising low [] = Unit
IsRising low (p ∷ months) = (low < number p) × IsRising (number p) months

-- The work was done for some months, each once and in their order: those that are due, less the month
-- of the last run.
pub record DoesMonths {ℓ} {S : Type ℓ} (key : Time → BillingPeriod) (is_day : Time → Bool)
    (work : BillingPeriod → S → S) (ticks : List Time) (last_run : BillingPeriod) (s result : S)
    : Type ℓ where
  pub months : List BillingPeriod
  pub performed : result ≡ perform work months s
  pub rising : IsRising (number last_run) months
  pub only_due : (p : BillingPeriod) → In p months → IsDue key is_day p ticks
  pub all_due : (p : BillingPeriod) → IsDue key is_day p ticks → In p (last_run ∷ months)
