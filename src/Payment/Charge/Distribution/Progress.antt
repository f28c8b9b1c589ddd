-- ===== src/Payment/Charge/Distribution/Progress.antt =====
-- What one pass of the loop over the shares does to the ledger table (charge.go): the credits made and
-- the credits still missing always add up.
use vyomanaut_v.Base.{
  ℕ, ◌+◌, ◌≡◌, ◌≢◌, refl, sym, ap, ap₂, ◌∙◌, Bool, true, false, List, [], ◌∷◌, ◌++◌, if◌then◌else◌,
  ◌||◌, arith, All, Bool-cases, inl, inr, ==_refl, ==_ne,
}
use vyomanaut_v.Base.Result.{Result}
use vyomanaut_v.Payment.Ledger.{
  Event, LedgerError, insert_failed, unavailable, has_key, not_positive, insert_escrow_event,
}
use vyomanaut_v.Payment.Ledger.Keys.{
  Insert, lost, refused, present, added, insert_escrow_event-Insert,
}
use vyomanaut_v.Payment.Charge.{Entries}
use vyomanaut_v.Payment.Charge.Sums.{IsMap}
use vyomanaut_v.Payment.Charge.Distribution.{
  ChargeError, credit_provider, Credited, credit_outcome, deposit_event, distribute,
}

-- The sum of the amounts in a table.
abbrev pub total : List Event → ℕ
total [] = 0
total (e ∷ events) = e.amount_paise + total events

module _ (charge_key : ℕ → ℕ → ℕ → ℕ) (deposit_key : ℕ → ℕ → ℕ → ℕ) (visit : Entries → Entries)
    (rate file_id billing_period : ℕ) where
  abbrev key : ℕ → ℕ
  key provider = deposit_key provider file_id billing_period

  abbrev event : ℕ → ℕ → Event
  event provider amount =
      deposit_event charge_key deposit_key visit rate file_id billing_period provider amount

  -- The amount that a share still lacks in the table.
  abbrev pub missing : ℕ → ℕ → List Event → ℕ
  missing provider amount events =
      if not_positive amount then 0 else if has_key (key provider) events then 0 else amount

  -- The amounts that the shares still lack.
  abbrev pub pending : Entries → List Event → ℕ
  pending [] events = 0
  pending (s ∷ shares) events = missing s.0 s.1 events + pending shares events

  abbrev credit : (ℕ → Bool) → ℕ → ℕ → List Event → Credited
  credit reachable provider amount events =
      if not_positive amount
      then (events, [])
      else credit_outcome provider events
          (insert_escrow_event (reachable (key provider)) (event provider amount) events)

  abbrev pub run : (ℕ → Bool) → Entries → List Event → Credited
  run reachable shares events =
      distribute charge_key deposit_key visit rate reachable file_id billing_period shares events

  run-nil : (reachable : ℕ → Bool) (events : List Event) → run reachable [] events ≡ (events, [])
  unfolding distribute
  run-nil reachable events = refl

  run-cons :
      (reachable : ℕ → Bool) (p a : ℕ) (shares : Entries) (events : List Event)
      → run reachable ((p, a) ∷ shares) events ≡ (
        (run reachable shares (credit reachable p a events).0).0,
        (credit reachable p a events).1 ++ (run reachable shares (credit reachable p a events).0).1,
      )
  unfolding distribute
  run-cons reachable p a shares events = refl

  -- The outcomes for one share.
  data Credit (reachable : ℕ → Bool) (p a : ℕ) (events : List Event) : Credited → Type 0 where
    skipped : not_positive a ≡ true → Credit reachable p a events (events, [])
    failed :
        reachable (key p) ≡ false
        → not_positive a ≡ false
        → Credit reachable p a events (events, credit_provider p (insert_failed unavailable) ∷ [])
    known :
        not_positive a ≡ false
        → has_key (key p) events ≡ true
        → Credit reachable p a events (events, [])
    credited :
        not_positive a ≡ false
        → has_key (key p) events ≡ false
        → Credit reachable p a events (event p a ∷ events, [])

  Credit-insert :
      (reachable : ℕ → Bool) (p a : ℕ) (events : List Event)
      → not_positive a ≡ false
      → (r : Result LedgerError (List Event)) → Insert (reachable (key p)) (event p a) events r
      → Credit reachable p a events (credit_outcome p events r)
  Credit-insert reachable p a events pos _ (lost h) = failed h pos
  Credit-insert reachable p a events pos _ (refused h) = cc
  Credit-insert reachable p a events pos _ (present h) = known pos h
  Credit-insert reachable p a events pos _ (added h pos2 fresh) = credited pos fresh

  credit-Credit :
      (reachable : ℕ → Bool) (p a : ℕ) (events : List Event)
      → Credit reachable p a events (credit reachable p a events)
  credit-Credit reachable p a events = elim (Bool-cases (not_positive a)) [
    | inl h ↦ rw (h) (skipped h)
    | inr h ↦ rw (h) (
        Credit-insert reachable p a events h
          (insert_escrow_event (reachable (key p)) (event p a) events)
          (insert_escrow_event-Insert (reachable (key p)) (event p a) events))
  ]

  has_key-Credit :
      (reachable : ℕ → Bool) (p a k : ℕ) (events : List Event) (r : Credited)
      → Credit reachable p a events r
      → key p ≢ k
      → has_key k r.0 ≡ has_key k events
  has_key-Credit reachable p a k events _ (skipped h) ne = refl
  has_key-Credit reachable p a k events _ (failed h pos) ne = refl
  has_key-Credit reachable p a k events _ (known pos h) ne = refl
  has_key-Credit reachable p a k events _ (credited pos h) ne =
      unfold has_key in ap (λ (b : Bool). b || has_key k events) (==_ne (key p) k ne)

  -- A pass over other shares does not touch a key.
  has_key-run :
      (reachable : ℕ → Bool) (k : ℕ) (shares : Entries) (events : List Event)
      → All (λ s. key s.0 ≢ k) shares
      → has_key k (run reachable shares events).0 ≡ has_key k events
  has_key-run reachable k [] events ne =
      ap (λ (c : Credited). has_key k c.0) (run-nil reachable events)
  has_key-run reachable k ((p, a) ∷ shares) events ne =
      ap (λ (c : Credited). has_key k c.0) (run-cons reachable p a shares events)
      ∙ has_key-run reachable k shares (credit reachable p a events).0 ne.1
      ∙ has_key-Credit reachable p a k events (credit reachable p a events)
          (credit-Credit reachable p a events) ne.0

  missing_same :
      (p a : ℕ) (x y : List Event)
      → has_key (key p) x ≡ has_key (key p) y
      → missing p a x ≡ missing p a y
  missing_same p a x y e = ap (λ (b : Bool). if not_positive a then 0 else if b then 0 else a) e

  pending_same :
      (shares : Entries) (reachable : ℕ → Bool) (p a : ℕ) (events : List Event)
      → All (λ s. key p ≢ key s.0) shares
      → pending shares (credit reachable p a events).0 ≡ pending shares events
  pending_same [] reachable p a events ne = refl
  pending_same ((q, b) ∷ shares) reachable p a events ne =
      ap₂ (λ (x y : ℕ). x + y)
        (missing_same q b (credit reachable p a events).0 events (
          has_key-Credit reachable p a (key q) events (credit reachable p a events)
            (credit-Credit reachable p a events) ne.0))
        (pending_same shares reachable p a events ne.1)

  -- One share: what is credited and what is missing add up.
  Credit-balance :
      (reachable : ℕ → Bool) (p a : ℕ) (events : List Event) (r : Credited)
      → Credit reachable p a events r
      → total r.0 + missing p a r.0 ≡ total events + missing p a events
  unfolding has_key
  Credit-balance reachable p a events _ (skipped h) = refl
  Credit-balance reachable p a events _ (failed h pos) = refl
  Credit-balance reachable p a events _ (known pos h) = refl
  Credit-balance reachable p a events _ (credited pos h) =
      rw (pos, h, ==_refl (key p)) (omega arith)

  apart_keys :
      ((p q : ℕ) → key p ≡ key q → p ≡ q)
      → (p : ℕ) (shares : Entries) → All (λ s. p ≢ s.0) shares
      → All (λ s. key p ≢ key s.0) shares × All (λ s. key s.0 ≢ key p) shares
  apart_keys apart p [] ne = (tt, tt)
  apart_keys apart p (s ∷ shares) ne =
      let (l, r) = apart_keys apart p shares ne.1 in
      ((λ e. ne.0 (apart p s.0 e), l), (λ e. ne.0 (sym (apart s.0 p e)), r))

  -- For distinct providers whose keys differ, a pass over the shares keeps the sum of the amounts in
  -- the table and of the amounts still missing, whichever statements reach the database.
  pub run-balance :
      (reachable : ℕ → Bool) (shares : Entries) (events : List Event)
      → ((p q : ℕ) → key p ≡ key q → p ≡ q)
      → IsMap shares
      → total (run reachable shares events).0 + pending shares (run reachable shares events).0
        ≡ total events + pending shares events
  run-balance reachable [] events apart h =
      ap (λ (c : Credited). total c.0 + 0) (run-nil reachable events)
  run-balance reachable ((p, a) ∷ shares) events apart h =
      let next : List Event = (credit reachable p a events).0 in
      let last : List Event = (run reachable shares next).0 in
      let (ahead, behind) = apart_keys apart p shares h.0 in
      ap (λ (c : Credited). total c.0 + (missing p a c.0 + pending shares c.0))
        (run-cons reachable p a shares events)
      ∙ omega (
        arith,
        missing_same p a last next (has_key-run reachable (key p) shares next behind),
        run-balance reachable shares next apart h.1,
        pending_same shares reachable p a events ahead,
        Credit-balance reachable p a events (credit reachable p a events)
            (credit-Credit reachable p a events),
      )

  -- When every statement reaches the database, nothing is missing after the pass, and no error is kept.
  has_key_after :
      (p a : ℕ) (events : List Event) (r : Credited)
      → Credit (λ k. true) p a events r
      → (missing p a r.0 ≡ 0) × (r.1 ≡ [])
  unfolding has_key
  has_key_after p a events _ (skipped h) = (rw (h) refl, refl)
  has_key_after p a events _ (failed h pos) = cc
  has_key_after p a events _ (known pos h) = (rw (pos, h) refl, refl)
  has_key_after p a events _ (credited pos h) = (rw (pos, ==_refl (key p)) refl, refl)

  pub run_complete :
      (shares : Entries) (events : List Event)
      → ((p q : ℕ) → key p ≡ key q → p ≡ q)
      → IsMap shares
      → (pending shares (run (λ k. true) shares events).0 ≡ 0)
        × ((run (λ k. true) shares events).1 ≡ [])
  run_complete [] events apart h = (refl, ap (λ (c : Credited). c.1) (run-nil (λ k. true) events))
  run_complete ((p, a) ∷ shares) events apart h =
      let made : Credited = credit (λ k. true) p a events in
      let last : Credited = run (λ k. true) shares made.0 in
      let (ahead, behind) = apart_keys apart p shares h.0 in
      let (done, clean) = run_complete shares made.0 apart h.1 in
      let (stored, no_error) =
        has_key_after p a events made (credit-Credit (λ k. true) p a events) in
      (
        ap (λ (c : Credited). missing p a c.0 + pending shares c.0)
              (run-cons (λ k. true) p a shares events)
            ∙ omega (
              arith,
              missing_same p a last.0 made.0 (has_key-run (λ k. true) (key p) shares made.0 behind),
              stored,
              done,
            ),
        ap (λ (c : Credited). c.1) (run-cons (λ k. true) p a shares events)
            ∙ ap₂ (λ (x y : List ChargeError). x ++ y) no_error clean,
      )
