-- ===== src/Base/Xor.antt =====
-- Laws of exclusive or at every width, from its recursion on the binary digits.
use Prim.Native.Nat.{
  ℕ, zero, suc, ◌+◌, ◌*◌, ◌/◌, ◌%◌, ◌^◌, ◌≤◌, ◌<◌, bit_xor, digits, bitwise, differ,
  bit_xor-bitwise,
}
use mathlib.Core.Path.{◌≡◌, refl, sym, ap, ap₂, ◌∙◌}
use native.Mathlib.Nat.{le_refl, pow-suc}
use native.Mathlib.Omega.{arith}

-- Fuel beyond the first argument changes nothing in the digits recursion.
digits_of_zero : (fuel b : ℕ) → digits (λ y. y) differ fuel 0 b ≡ b
digits_of_zero zero b = refl
digits_of_zero (suc fuel) b = refl

digits_narrow :
    (a b wide narrow : ℕ)
    → a ≤ narrow
    → narrow ≤ wide
    → digits (λ y. y) differ wide a b ≡ digits (λ y. y) differ narrow a b
digits_narrow zero b wide narrow covers le = digits_of_zero wide b ∙ sym (digits_of_zero narrow b)
digits_narrow (suc a) b wide zero covers le = absurd (omega arith)
digits_narrow (suc a) b zero (suc narrow) covers le = absurd (omega arith)
digits_narrow (suc a) b (suc wide) (suc narrow) covers le =
    ap (λ (t : ℕ). t * 2 + differ (suc a % 2) (b % 2))
      (digits_narrow (suc a / 2) (b / 2) wide narrow (omega arith) (omega arith))

bitwise_step :
    (a b : ℕ)
    → bitwise (λ y. y) differ (suc a) b
      ≡ bitwise (λ y. y) differ (suc a / 2) (b / 2) * 2 + differ (suc a % 2) (b % 2)
bitwise_step a b =
    omega (arith, digits_narrow (suc a / 2) (b / 2) a (suc a / 2) (le_refl _) (omega arith))

differ_lem : (p q : ℕ) → p < 2 → q < 2 → differ p q ≡ (p + q) % 2
differ_lem zero q hp hq = omega arith
differ_lem (suc zero) zero hp hq = refl
differ_lem (suc zero) (suc zero) hp hq = refl
differ_lem (suc zero) (suc (suc q)) hp hq = absurd (omega arith)
differ_lem (suc (suc p)) q hp hq = absurd (omega arith)

pub bit_xor_step : (a b : ℕ) → bit_xor a b ≡ bit_xor (a / 2) (b / 2) * 2 + (a + b) % 2
bit_xor_step zero b = simp bit_xor-bitwise (omega arith)
bit_xor_step (suc a) b =
    simp bit_xor-bitwise
      (omega (arith, bitwise_step a b, differ_lem (suc a % 2) (b % 2) (omega arith) (omega arith)))

xor_half : (a b : ℕ) → bit_xor a b / 2 ≡ bit_xor (a / 2) (b / 2)
xor_half a b = omega (arith, bit_xor_step a b)

xor_parity : (a b : ℕ) → bit_xor a b % 2 ≡ (a + b) % 2
xor_parity a b = omega (arith, bit_xor_step a b)

-- Each law goes by a bound `n` on the first argument, which halves at each step.
pub zero-xor : (b : ℕ) → bit_xor 0 b ≡ b
zero-xor b = bit_xor-bitwise 0 b

xor-zero_below : (n a : ℕ) → a ≤ n → bit_xor a 0 ≡ a
xor-zero_below n zero h = refl
xor-zero_below zero (suc a) h = absurd (omega arith)
xor-zero_below (suc n) (suc a) h =
    omega (arith, bit_xor_step (suc a) 0, xor-zero_below n (suc a / 2) (omega arith))

pub xor-zero : (a : ℕ) → bit_xor a 0 ≡ a
xor-zero a = xor-zero_below a a (le_refl a)

xor_comm_below : (n a b : ℕ) → a ≤ n → bit_xor a b ≡ bit_xor b a
xor_comm_below n zero b h = omega (arith, zero-xor b, xor-zero b)
xor_comm_below zero (suc a) b h = absurd (omega arith)
xor_comm_below (suc n) (suc a) b h = omega (
  arith,
  bit_xor_step (suc a) b,
  bit_xor_step b (suc a),
  xor_comm_below n (suc a / 2) (b / 2) (omega arith),
)

pub xor_comm : (a b : ℕ) → bit_xor a b ≡ bit_xor b a
xor_comm a b = xor_comm_below a a b (le_refl a)

xor_self_below : (n a : ℕ) → a ≤ n → bit_xor a a ≡ 0
xor_self_below n zero h = refl
xor_self_below zero (suc a) h = absurd (omega arith)
xor_self_below (suc n) (suc a) h =
    omega (arith, bit_xor_step (suc a) (suc a), xor_self_below n (suc a / 2) (omega arith))

pub xor_self : (a : ℕ) → bit_xor a a ≡ 0
xor_self a = xor_self_below a a (le_refl a)

xor_assoc_below : (n a b c : ℕ) → a ≤ n → bit_xor (bit_xor a b) c ≡ bit_xor a (bit_xor b c)
xor_assoc_below n zero b c h = simp zero-xor
xor_assoc_below zero (suc a) b c h = absurd (omega arith)
xor_assoc_below (suc n) (suc a) b c h =
    let left = bit_xor_step (bit_xor (suc a) b) c in
    let right = bit_xor_step (suc a) (bit_xor b c) in
    omega (
      arith,
      rw xor_half at left,
      rw (xor_half b c) at right,
      xor_parity (suc a) b,
      xor_parity b c,
      xor_assoc_below n (suc a / 2) (b / 2) (c / 2) (omega arith),
    )

pub xor_assoc : (a b c : ℕ) → bit_xor (bit_xor a b) c ≡ bit_xor a (bit_xor b c)
xor_assoc a b c = xor_assoc_below a a b c (le_refl a)

-- Exclusive or stays within the width of its arguments.
pub xor-lt : (k a b : ℕ) → a < 2 ^ k → b < 2 ^ k → bit_xor a b < 2 ^ k
xor-lt zero a b ha hb = omega (
  arith,
  ap (λ (t : ℕ). bit_xor t b) (zero_below a ha),
  ap (λ (t : ℕ). bit_xor 0 t) (zero_below b hb),
)
  where
    zero_below : (x : ℕ) → x < 1 → x ≡ 0
    zero_below x h = omega arith
xor-lt (suc k) a b ha hb = omega (
  arith,
  pow-suc 2 k,
  bit_xor_step a b,
  xor-lt k (a / 2) (b / 2) (omega (arith, pow-suc 2 k)) (omega (arith, pow-suc 2 k)),
)

pub xor_twice : (a b : ℕ) → bit_xor (2 * a) (2 * b) ≡ 2 * bit_xor a b
xor_twice a b =
    omega (arith, bit_xor_step (2 * a) (2 * b), ap₂ bit_xor (twice_half a) (twice_half b))
  where
    twice_half : (x : ℕ) → 2 * x / 2 ≡ x
    twice_half x = omega arith

pub xor_cancel : (a b : ℕ) → bit_xor a (bit_xor a b) ≡ b
xor_cancel a b = rw (← xor_assoc a a b, xor_self) (zero-xor b)

pub xor_middle :
    (a b c d : ℕ) → bit_xor (bit_xor a b) (bit_xor c d) ≡ bit_xor (bit_xor a c) (bit_xor b d)
xor_middle a b c d =
    xor_assoc a b (bit_xor c d)
    ∙ ap (bit_xor a)
        (sym (xor_assoc b c d) ∙ ap (λ (t : ℕ). bit_xor t d) (xor_comm b c) ∙ xor_assoc c b d)
    ∙ sym (xor_assoc a c (bit_xor b d))

pub xor_eq_zero : (a b : ℕ) → bit_xor a b ≡ 0 → a ≡ b
xor_eq_zero a b e = sym (xor-zero a) ∙ ap (bit_xor a) (sym e) ∙ xor_cancel a b

pub ruleset xor_laws = (zero-xor, xor-zero, xor_self, xor_assoc)
