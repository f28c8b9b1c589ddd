-- ===== src/Erasure/Field/Tables.antt =====
-- The logarithm tables hold the powers of the primitive element, by evaluation of `init`.
use vyomanaut_v.Base.{
  ℕ, zero, suc, ◌+◌, ◌*◌, ◌/◌, ◌%◌, ◌≤◌, ◌<◌, ◌≡◌, ◌≢◌, refl, sym, ap, ◌∙◌, true, ◌&&◌, ◌||◌, ◌==◌,
  ltb, ==_iff, arith, not, bit_xor, dec_lt, subst,
}
use vyomanaut_v.Base.Below.{holds_below, holds_below_at}
use vyomanaut_v.Base.Xor.{xor_comm, xor_assoc, xor_self, xor-zero, xor-lt, xor_cancel, xor_twice}
use native.Mathlib.Nat.{zero-add, suc-add}
use vyomanaut_v.Erasure.Field.{IsByte, double, gf_exp, gf_log}

-- `alpha i b` is the product of `b` and the i-th power of the primitive element.
unfoldable pub alpha : ℕ → ℕ → ℕ
alpha zero b = b
alpha (suc i) b = double (alpha i b)

exp_table : holds_below (λ i. gf_exp i == alpha i 1) 512 ≡ true
unfolding holds_below gf_exp alpha double
exp_table = refl

log_table : holds_below (λ i. gf_log (gf_exp i) == i) 255 ≡ true
unfolding holds_below gf_exp gf_log
log_table = refl

byte_table : holds_below (λ x. x == 0 || (gf_exp (gf_log x) == x && ltb (gf_log x) 255)) 256 ≡ true
unfolding holds_below gf_exp gf_log
byte_table = refl

pub gf_exp-alpha : (i : ℕ) → i < 512 → gf_exp i ≡ alpha i 1
gf_exp-alpha i h = (==_iff _ _).0 (holds_below_at _ 512 i h exp_table)

pub gf_log-alpha : (i : ℕ) → i < 255 → gf_log (alpha i 1) ≡ i
gf_log-alpha i h =
    ap gf_log (sym (gf_exp-alpha i (omega arith)))
    ∙ (==_iff _ _).0 (holds_below_at _ 255 i h log_table)

-- Every byte but 0 is the power that its logarithm says.
pub alpha-gf_log : (x : ℕ) → IsByte x → x ≢ 0 → (gf_log x < 255) × (alpha (gf_log x) 1 ≡ x)
alpha-gf_log x h ne = ground (arith, holds_below_at _ 256 x h byte_table, gf_exp-alpha (gf_log x))

pub alpha-add : (i j b : ℕ) → alpha (i + j) b ≡ alpha i (alpha j b)
unfolding alpha
alpha-add zero j b = ap (λ (t : ℕ). alpha t b) (zero-add j)
alpha-add (suc i) j b = ap (λ (t : ℕ). alpha t b) (suc-add i j) ∙ ap double (alpha-add i j b)

double_low : (a : ℕ) → a < 128 → double a ≡ 2 * a
unfolding double
double_low a h = ground arith

double_high : (a : ℕ) → 128 ≤ a → IsByte a → double a ≡ bit_xor (2 * a) 0x11d
unfolding double
double_high a l h = ground arith

-- The top bit of an exclusive or.
xor_high_low : (a b : ℕ) → 128 ≤ a → b < 128 → 128 ≤ bit_xor a b
xor_high_low a b ha hb = elim (dec_lt (bit_xor a b) 128) [
  | yes small ↦
      let cancelled : bit_xor (bit_xor a b) b ≡ a = rw (xor_assoc, xor_self) (xor-zero a) in
      absurd (omega (arith, xor-lt 7 (bit_xor a b) b small hb, cancelled))
  | no large ↦ omega arith
]

top_table : holds_below (λ x. ltb x 128 || ltb (bit_xor x 128) 128) 256 ≡ true
unfolding holds_below
top_table = refl

drop_top : (x : ℕ) → 128 ≤ x → IsByte x → bit_xor x 128 < 128
drop_top x l h = ground (arith, holds_below_at _ 256 x h top_table)

xor_high_high : (a b : ℕ) → 128 ≤ a → IsByte a → 128 ≤ b → IsByte b → bit_xor a b < 128
xor_high_high a b la ha lb hb =
    subst (λ (t : ℕ). t < 128) both
      (xor-lt 7 (bit_xor a 128) (bit_xor b 128) (drop_top a la ha) (drop_top b lb hb))
  where
    both : bit_xor (bit_xor a 128) (bit_xor b 128) ≡ bit_xor a b
    both = rw (xor_comm b 128, xor_assoc, xor_cancel) refl

double_table : holds_below (λ x. ltb (double x) 256) 256 ≡ true
unfolding holds_below double
double_table = refl

pub double-IsByte : (a : ℕ) → IsByte a → IsByte (double a)
double-IsByte a h = ground (arith, holds_below_at _ 256 a h double_table)

-- A high byte and a low one.
double-xor_mixed :
    (a b : ℕ) → 128 ≤ a → IsByte a → b < 128 → double (bit_xor a b) ≡ bit_xor (double a) (double b)
double-xor_mixed a b la ha lb =
    rw
      (
        double_high (bit_xor a b) (xor_high_low a b la lb) (xor-lt 8 a b ha (omega arith)),
        double_high a la ha,
        double_low b lb,
        ← xor_twice a b,
        xor_assoc (2 * a) (2 * b) 0x11d,
        xor_assoc (2 * a) 0x11d (2 * b),
        xor_comm 0x11d (2 * b),
      )
      refl

double-xor_high :
    (a b : ℕ)
    → 128 ≤ a
    → IsByte a
    → 128 ≤ b
    → IsByte b
    → double (bit_xor a b) ≡ bit_xor (double a) (double b)
double-xor_high a b la ha lb hb =
    rw
      (
        double_low (bit_xor a b) (xor_high_high a b la ha lb hb),
        double_high a la ha,
        double_high b lb hb,
        ← xor_twice a b,
        xor_comm (2 * b) 0x11d,
        xor_assoc,
        xor_cancel,
      )
      refl

-- Doubling is additive.
pub double-xor :
    (a b : ℕ) → IsByte a → IsByte b → double (bit_xor a b) ≡ bit_xor (double a) (double b)
double-xor a b ha hb = elim (dec_lt a 128) [
  | yes la ↦ elim (dec_lt b 128) [
    | yes lb ↦
        rw (double_low (bit_xor a b) (xor-lt 7 a b la lb), double_low a la, double_low b lb)
          (omega (arith, xor_twice a b))
    | no lb ↦
        rw (xor_comm a b, xor_comm (double a) (double b)) (double-xor_mixed b a (omega arith) hb la)
  ]
  | no la ↦ elim (dec_lt b 128) [
    | yes lb ↦ double-xor_mixed a b (omega arith) ha lb
    | no lb ↦ double-xor_high a b (omega arith) ha (omega arith) hb
  ]
]

pub alpha-IsByte : (i b : ℕ) → IsByte b → IsByte (alpha i b)
unfolding alpha
alpha-IsByte zero b h = h
alpha-IsByte (suc i) b h = double-IsByte (alpha i b) (alpha-IsByte i b h)

pub alpha-xor :
    (i a b : ℕ) → IsByte a → IsByte b → alpha i (bit_xor a b) ≡ bit_xor (alpha i a) (alpha i b)
unfolding alpha
alpha-xor zero a b ha hb = refl
alpha-xor (suc i) a b ha hb =
    ap double (alpha-xor i a b ha hb)
    ∙ double-xor (alpha i a) (alpha i b) (alpha-IsByte i a ha) (alpha-IsByte i b hb)

pub alpha-zero : (i : ℕ) → alpha i 0 ≡ 0
unfolding alpha double
alpha-zero zero = refl
alpha-zero (suc i) = rw (alpha-zero i)

-- The powers of the primitive element repeat after 255.
pub alpha_period : (i : ℕ) → alpha (i + 255) 1 ≡ alpha i 1
alpha_period i = alpha-add i 255 1 ∙ ap (alpha i) (unfold alpha double in refl)

alpha_periods : (q r : ℕ) → alpha (r + 255 * q) 1 ≡ alpha r 1
alpha_periods zero r = ap (λ (t : ℕ). alpha t 1) (omega arith)
alpha_periods (suc q) r =
    ap (λ (t : ℕ). alpha t 1) (omega arith) ∙ alpha_period (r + 255 * q) ∙ alpha_periods q r

pub alpha_mod : (i : ℕ) → alpha (i % 255) 1 ≡ alpha i 1
alpha_mod i = sym (alpha_periods (i / 255) (i % 255)) ∙ ap (λ (t : ℕ). alpha t 1) (omega arith)

nonzero_table : holds_below (λ i. not (gf_exp i == 0)) 255 ≡ true
unfolding holds_below gf_exp
nonzero_table = refl

pub alpha-ne-zero : (i : ℕ) → alpha i 1 ≢ 0
alpha-ne-zero i e = ground (
  arith,
  holds_below_at _ 255 (i % 255) (omega arith) nonzero_table,
  gf_exp-alpha (i % 255) (omega arith),
  alpha_mod i,
)
