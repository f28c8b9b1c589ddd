-- ===== src/Repair/Departure/Sealed.antt =====
-- The seizure of a departed provider's escrow in internal/repair/departure.go.
use vyomanaut_v.Base.{
  ℕ, ◌+◌, ◌-◌, ◌<◌, ◌≡◌, inl, inr, refl, ap, ap₂, ◌∙◌, Bool, true, false, ◌&&◌, List, [], ◌∷◌, ◌==◌,
  none, ltb, leb, if◌then◌else◌, Bool-cases, arith, ==_refl,
}
use vyomanaut_v.Base.Int64.{half}
use vyomanaut_v.Base.Result.{ok, err}
use vyomanaut_v.Payment.Ledger
use vyomanaut_v.Payment.Ledger.{
  EventType, deposit, release, seizure, reversal, charge, withdrawal, refund, Event, not_positive,
  exec_insert, insert_escrow_event,
}
use vyomanaut_v.Payment.Ledger.Totals.{kind_code, total_of, paid_in, paid_out}
use vyomanaut_v.Repair.Departure.{
  Tables, balance_overflow, Context, credit, debit, credits, debits, compute_sealed_balance,
  penalise, seize,
}

abbrev seizure_event : ℕ → ℕ → ℕ → Event
seizure_event q amount key = record {
  subject = q;
  event_type = seizure;
  amount_paise = amount;
  reference = none;
  idempotency_key = key;
}

is_positive : (amount : ℕ) → 0 < amount → amount < half → not_positive amount ≡ false
is_positive amount some_amount small = ground arith

exec_inserts :
    (e : Event) (events : List Event)
    → not_positive e.amount_paise ≡ false
    → Ledger.has_key e.idempotency_key events ≡ false
    → exec_insert true e events ≡ ok (e ∷ events)
unfolding exec_insert
exec_inserts e events positive fresh =
    ap₂
      (λ (x y : Bool).
        if x
        then err Ledger.check_violation
        else if y
        then err Ledger.unique_violation
        else ok (e ∷ events))
      positive fresh

inserts :
    (e : Event) (events : List Event)
    → not_positive e.amount_paise ≡ false
    → Ledger.has_key e.idempotency_key events ≡ false
    → insert_escrow_event true e events ≡ ok (e ∷ events)
unfolding insert_escrow_event
inserts e events positive fresh =
    rw (insert_escrow_event, exec_inserts e events positive fresh) refl

penalise_inserts :
    (q amount key : ℕ) (events : List Event)
    → 0 < amount
    → amount < half
    → Ledger.has_key key events ≡ false
    → penalise true q amount key events ≡ ok (seizure_event q amount key ∷ events)
unfolding penalise
penalise_inserts q amount key events some_amount small fresh =
    let positive = is_positive amount some_amount small in
    rw (positive, inserts (seizure_event q amount key) events positive fresh) refl

is_credit :
    (mine : Bool) (t : EventType) (n : ℕ)
    → (if mine then credit t n else 0)
      ≡ (if mine && (kind_code t == kind_code deposit) then n else 0)
        + (if mine && (kind_code t == kind_code reversal) then n else 0)
is_credit false t n = refl
is_credit true deposit n = omega arith
is_credit true release n = refl
is_credit true seizure n = refl
is_credit true reversal n = omega arith
is_credit true charge n = refl
is_credit true withdrawal n = refl
is_credit true refund n = refl

is_debit :
    (mine : Bool) (t : EventType) (n : ℕ)
    → (if mine then debit t n else 0)
      ≡ (if mine && (kind_code t == kind_code release) then n else 0)
        + (if mine && (kind_code t == kind_code seizure) then n else 0)
is_debit false t n = refl
is_debit true deposit n = refl
is_debit true release n = omega arith
is_debit true seizure n = omega arith
is_debit true reversal n = refl
is_debit true charge n = refl
is_debit true withdrawal n = refl
is_debit true refund n = refl

-- the two halves of the balance against the totals by kind
credits-paid_in : (q : ℕ) (events : List Event) → credits q events ≡ paid_in q events
unfolding credits total_of
credits-paid_in q [] = refl
credits-paid_in q (e ∷ events) =
    omega (arith, is_credit (e.subject == q) e.event_type e.amount_paise, credits-paid_in q events)

debits-paid_out : (q : ℕ) (events : List Event) → debits q events ≡ paid_out q events
unfolding debits total_of
debits-paid_out q [] = refl
debits-paid_out q (e ∷ events) =
    omega (arith, is_debit (e.subject == q) e.event_type e.amount_paise, debits-paid_out q events)

sealed_value :
    (q b : ℕ) (events : List Event)
    → paid_in q events ≡ b + paid_out q events
    → b < half
    → compute_sealed_balance q events ≡ ok b
unfolding compute_sealed_balance
sealed_value q b events value small =
    let same : credits q events - debits q events ≡ b =
      omega (arith, value, credits-paid_in q events, debits-paid_out q events) in
    let fits : leb half b ≡ false = ground arith in
    ap (λ (n : ℕ). if leb half n then err balance_overflow else ok n) same
    ∙ ap (λ (x : Bool). if x then err balance_overflow else ok b) fits

-- What the ledger holds for a subject once an amount was seized from it.
pub record IsSeized (q b : ℕ) (before after : List Event) : Type 0 where
  pub seized_all : paid_in q after ≡ paid_out q after
  pub seized : total_of seizure q after ≡ b + total_of seizure q before
  pub others :
      (p : ℕ) (kind : EventType)
      → ((q == p) && (kind_code seizure == kind_code kind)) ≡ false
      → total_of kind p after ≡ total_of kind p before

total_of-seizure :
    (q b key : ℕ) (events : List Event) (kind : EventType) (p : ℕ)
    → total_of kind p (seizure_event q b key ∷ events)
      ≡ (if (q == p) && (2 == kind_code kind) then b else 0) + total_of kind p events
unfolding total_of
total_of-seizure q b key events kind p = refl

IsSeized-cons :
    (q b key : ℕ) (events : List Event)
    → paid_in q events ≡ b + paid_out q events
    → IsSeized q b events (seizure_event q b key ∷ events)
IsSeized-cons q b key events value =
    let row : (kind : EventType)
        → total_of kind q (seizure_event q b key ∷ events)
          ≡ (if 2 == kind_code kind then b else 0) + total_of kind q events =
      λ kind.
        total_of-seizure q b key events kind q
        ∙ ap (λ (x : Bool). (if x && (2 == kind_code kind) then b else 0) + total_of kind q events)
            (==_refl q) in
    record {
      seized_all = omega (arith, value, row deposit, row reversal, row release, row seizure);
      seized = row seizure;
      others = λ p kind other.
          total_of-seizure q b key events kind p
          ∙ ap (λ (x : Bool). (if x then b else 0) + total_of kind p events) other
          ∙ omega arith;
    }

-- A seizure whose statements succeed, under a key that is new, of a provider whose deposits and
-- reversals add up to its releases and seizures and an amount that is an int64: exactly this amount is
-- added to the seizures, so that nothing is left, no other sum of the ledger changes, and the balance
-- that the code computes is 0.
pub seize_empties :
    (c : Context) (key : ℕ → ℕ → ℕ) (q b : ℕ) (t : Tables)
    → c.faults.balance ≡ false
    → c.faults.penalise ≡ false
    → paid_in q t.events ≡ b + paid_out q t.events
    → b < half
    → Ledger.has_key (key q c.now) t.events ≡ false
    → (after : List Event) × (seize c key q t ≡ (none, record t { events = after }))
      × IsSeized q b t.events after
      × (compute_sealed_balance q after ≡ ok 0)
unfolding seize
seize_empties c key q b t fine reachable value small fresh =
    let sealed = sealed_value q b t.events value small in
    elim (Bool-cases (ltb 0 b)) [
      | inr nothing ↦
          let zero : b ≡ 0 = ground arith in
          (
            t.events,
            rw (fine, sealed, nothing) refl,
            record {
              seized_all = omega (arith, value, zero);
              seized = omega (arith, zero);
              others = λ p kind other. refl;
            },
            sealed ∙ ap ok zero,
          )
      | inl some_balance ↦
          let seized = IsSeized-cons q b (key q c.now) t.events value in
          (
            seizure_event q b (key q c.now) ∷ t.events,
            rw
                (
                  fine,
                  sealed,
                  some_balance,
                  reachable,
                  penalise_inserts q b (key q c.now) t.events (ground arith) small fresh,
                )
                refl,
            seized,
            sealed_value q 0 (seizure_event q b (key q c.now) ∷ t.events)
                (omega (arith, seized.seized_all)) (omega arith),
          )
    ]
