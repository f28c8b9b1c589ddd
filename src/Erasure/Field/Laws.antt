-- ===== src/Erasure/Field/Laws.antt =====
-- GF(2^8) as the tables compute it is a field.
use vyomanaut_v.Base.{
  ℕ, zero, suc, ◌+◌, ◌-◌, ◌*◌, ◌%◌, ◌≡◌, ◌≢◌, refl, sym, ap, ap₂, ◌∙◌, some, bit_xor, arith,
  ℕ_discrete,
}
use vyomanaut_v.Base.Xor.{xor-lt}
use native.Mathlib.Nat.{add_comm}
use vyomanaut_v.Erasure.Field.{IsByte, gf_exp, gf_log, gf_mul, gf_pow, gf_inv}
use vyomanaut_v.Erasure.Field.Tables.{
  alpha, gf_exp-alpha, gf_log-alpha, alpha-gf_log, alpha-add, alpha-IsByte, alpha-xor, alpha-zero,
  alpha_mod,
}

pub zero-gf_mul : (b : ℕ) → gf_mul 0 b ≡ 0
unfolding gf_mul
zero-gf_mul b = refl

pub gf_mul-zero : (a : ℕ) → gf_mul a 0 ≡ 0
unfolding gf_mul
gf_mul-zero a = ground arith

pub gf_mul_comm : (a b : ℕ) → gf_mul a b ≡ gf_mul b a
unfolding gf_mul
gf_mul_comm a b = ground (arith, ap gf_exp (add_comm (gf_log a) (gf_log b)))

-- Multiplication by a byte other than 0 is a power of `double`.
pub gf_mul-alpha : (a b : ℕ) → IsByte a → a ≢ 0 → IsByte b → gf_mul a b ≡ alpha (gf_log a) b
gf_mul-alpha a b ha na hb = elim (ℕ_discrete b 0) [
  | yes z ↦ ap (gf_mul a) z ∙ gf_mul-zero a ∙ sym (ap (alpha (gf_log a)) z ∙ alpha-zero (gf_log a))
  | no nb ↦
      let (la, ea) = alpha-gf_log a ha na in
      let (lb, eb) = alpha-gf_log b hb nb in
      table na nb
      ∙ gf_exp-alpha (gf_log a + gf_log b) (omega arith)
      ∙ alpha-add (gf_log a) (gf_log b) 1
      ∙ ap (alpha (gf_log a)) eb
]
  where
    table : a ≢ 0 → b ≢ 0 → gf_mul a b ≡ gf_exp (gf_log a + gf_log b)
    table na nb = unfold gf_mul in ground arith

pub gf_mul-IsByte : (a b : ℕ) → IsByte a → IsByte b → IsByte (gf_mul a b)
gf_mul-IsByte a b ha hb = elim (ℕ_discrete a 0) [
  | yes z ↦ rw (z, zero-gf_mul) (omega arith)
  | no na ↦ rw (gf_mul-alpha a b ha na hb) (alpha-IsByte (gf_log a) b hb)
]

-- For bytes a, b and c the product `gf_mul a (b xor c)` is the xor of the products with b and with c.
pub gf_mul-xor :
    (a b c : ℕ)
    → IsByte a
    → IsByte b
    → IsByte c
    → gf_mul a (bit_xor b c) ≡ bit_xor (gf_mul a b) (gf_mul a c)
gf_mul-xor a b c ha hb hc = elim (ℕ_discrete a 0) [
  | yes z ↦ rw (z, zero-gf_mul (bit_xor b c), zero-gf_mul b, zero-gf_mul c)
  | no na ↦
      rw
        (
          gf_mul-alpha a (bit_xor b c) ha na (xor-lt 8 b c hb hc),
          gf_mul-alpha a b ha na hb,
          gf_mul-alpha a c ha na hc,
        )
        (alpha-xor (gf_log a) b c hb hc)
]

alpha_swap : (i j b : ℕ) → alpha i (alpha j b) ≡ alpha j (alpha i b)
alpha_swap i j b =
    sym (alpha-add i j b) ∙ ap (λ (t : ℕ). alpha t b) (add_comm i j) ∙ alpha-add j i b

-- The two orders of multiplying by a and by c.
pub gf_mul_swap :
    (a c b : ℕ) → IsByte a → IsByte c → IsByte b → gf_mul a (gf_mul c b) ≡ gf_mul c (gf_mul a b)
gf_mul_swap a c b ha hc hb = elim (ℕ_discrete a 0) [
  | yes z ↦ rw (z, zero-gf_mul (gf_mul c b), zero-gf_mul b) (sym (gf_mul-zero c))
  | no na ↦ elim (ℕ_discrete c 0) [
    | yes z ↦ rw (z, zero-gf_mul b, zero-gf_mul (gf_mul a b)) (gf_mul-zero a)
    | no nc ↦
        rw
          (
            gf_mul-alpha a (gf_mul c b) ha na (gf_mul-IsByte c b hc hb),
            gf_mul-alpha c (gf_mul a b) hc nc (gf_mul-IsByte a b ha hb),
            gf_mul-alpha a b ha na hb,
            gf_mul-alpha c b hc nc hb,
          )
          (alpha_swap (gf_log a) (gf_log c) b)
  ]
]

pub xor-gf_mul :
    (a b c : ℕ)
    → IsByte a
    → IsByte b
    → IsByte c
    → gf_mul (bit_xor a b) c ≡ bit_xor (gf_mul a c) (gf_mul b c)
xor-gf_mul a b c ha hb hc =
    gf_mul_comm (bit_xor a b) c
    ∙ gf_mul-xor c a b hc ha hb
    ∙ ap₂ bit_xor (gf_mul_comm c a) (gf_mul_comm c b)

-- For bytes `gf_mul` is associative.
pub gf_mul_assoc :
    (a b c : ℕ) → IsByte a → IsByte b → IsByte c → gf_mul (gf_mul a b) c ≡ gf_mul a (gf_mul b c)
gf_mul_assoc a b c ha hb hc =
    gf_mul_comm (gf_mul a b) c ∙ gf_mul_swap c a b hc ha hb ∙ ap (gf_mul a) (gf_mul_comm c b)

pub one-gf_mul : (b : ℕ) → IsByte b → gf_mul 1 b ≡ b
unfolding alpha
one-gf_mul b h =
    gf_mul-alpha 1 b (omega arith) (λ e. omega arith) h
    ∙ ap (λ (t : ℕ). alpha t b) (gf_log-alpha 0 (omega arith))

-- For every byte but 0, `gf_inv` gives a byte that multiplies with it to 1.
pub gf_inv_lem :
    (x : ℕ) → IsByte x → x ≢ 0 → (y : ℕ) × (gf_inv x ≡ some y) × IsByte y × (gf_mul x y ≡ 1)
gf_inv_lem x h nx =
    let (l, e) = alpha-gf_log x h nx in
    let y : ℕ = gf_exp (255 - gf_log x) in
    let power : y ≡ alpha (255 - gf_log x) 1 = gf_exp-alpha (255 - gf_log x) (omega arith) in
    let fits : IsByte y = rw power (alpha-IsByte (255 - gf_log x) 1 (omega arith)) in
    (
      y,
      unfold gf_inv in ground arith,
      fits,
      gf_mul-alpha x y h nx fits
          ∙ ap (alpha (gf_log x)) power
          ∙ sym (alpha-add (gf_log x) (255 - gf_log x) 1)
          ∙ ap (λ (t : ℕ). alpha t 1) (omega arith)
          ∙ sym (alpha_mod 255)
          ∙ unfold alpha in refl,
    )

pub gf_mul-ne-zero : (a b : ℕ) → IsByte a → IsByte b → a ≢ 0 → gf_mul a b ≡ 0 → b ≡ 0
gf_mul-ne-zero a b ha hb na e =
    let (y, _, hy, inverse) = gf_inv_lem a ha na in
    sym (one-gf_mul b hb)
    ∙ ap (λ (t : ℕ). gf_mul t b) (sym inverse ∙ gf_mul_comm a y)
    ∙ gf_mul_assoc y a b hy ha hb
    ∙ ap (gf_mul y) e
    ∙ gf_mul-zero y

pub gf_pow-alpha : (x n : ℕ) → IsByte x → x ≢ 0 → gf_pow x n ≡ alpha (gf_log x * n) 1
gf_pow-alpha x zero h nx =
    unfold gf_pow in
    unfold alpha in ap (λ (t : ℕ). alpha t 1) {x = 0} {y = gf_log x * 0} (omega arith)
gf_pow-alpha x (suc n) h nx =
    unfold gf_pow in
    ground arith
    ∙ gf_exp-alpha ((gf_log x * suc n) % 255) (omega arith)
    ∙ alpha_mod (gf_log x * suc n)

-- `gfPow` is repeated multiplication, for every power.
pub gf_pow-suc : (x n : ℕ) → IsByte x → gf_pow x (suc n) ≡ gf_mul x (gf_pow x n)
gf_pow-suc x n h = elim (ℕ_discrete x 0) [
  | yes z ↦ rw (z, zero-gf_mul) (unfold gf_pow in ground arith)
  | no nx ↦
      gf_pow-alpha x (suc n) h nx
      ∙ ap (λ (t : ℕ). alpha t 1) (omega arith)
      ∙ alpha-add (gf_log x) (gf_log x * n) 1
      ∙ sym (
          ap (gf_mul x) (gf_pow-alpha x n h nx)
          ∙ gf_mul-alpha x (alpha (gf_log x * n) 1) h nx
              (alpha-IsByte (gf_log x * n) 1 (omega arith)))
]

pub gf_pow-IsByte : (x n : ℕ) → IsByte x → IsByte (gf_pow x n)
gf_pow-IsByte x zero h = unfold gf_pow in omega arith
gf_pow-IsByte x (suc n) h =
    rw (gf_pow-suc x n h) (gf_mul-IsByte x (gf_pow x n) h (gf_pow-IsByte x n h))
