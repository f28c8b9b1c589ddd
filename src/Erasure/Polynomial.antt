-- ===== src/Erasure/Polynomial.antt =====
-- A polynomial over GF(2^8) with as many roots as coefficients is zero: why any rows of the
-- Vandermonde matrix of internal/erasure/rs_internal.go are independent.
use vyomanaut_v.Base.{
  ℕ, suc, ◌≡◌, ◌≢◌, refl, sym, ap, ap₂, ◌∙◌, List, [], ◌∷◌, bit_xor, arith, length, All,
}
use vyomanaut_v.Base.Xor.{
  xor-zero, zero-xor, xor-lt, xor_assoc, xor_comm, xor_cancel, xor_eq_zero, xor_middle, xor_self,
}
use vyomanaut_v.Erasure.Field.{IsByte, gf_mul}
use vyomanaut_v.Erasure.Field.Laws.{
  gf_mul-zero, gf_mul-IsByte, gf_mul-xor, gf_mul-ne-zero, gf_mul_swap, xor-gf_mul,
}
use vyomanaut_v.Erasure.Row.{Bytes}

-- The value at `p`, the constant coefficient first.
unfoldable pub value : List ℕ → ℕ → ℕ
value [] p = 0
value (y ∷ ys) p = bit_xor y (gf_mul p (value ys p))

pub value-IsByte : (ys : List ℕ) (p : ℕ) → Bytes ys → IsByte p → IsByte (value ys p)
unfolding value
value-IsByte [] p hy hp = omega arith
value-IsByte (y ∷ ys) p hy hp =
    xor-lt 8 y (gf_mul p (value ys p)) hy.0
      (gf_mul-IsByte p (value ys p) hp (value-IsByte ys p hy.1 hp))

-- The quotient by the linear polynomial with root `a`.
quotient : List ℕ → ℕ → List ℕ
quotient [] a = []
quotient (y ∷ []) a = []
quotient (y ∷ z ∷ zs) a = value (z ∷ zs) a ∷ quotient (z ∷ zs) a

length-quotient : (y : ℕ) (ys : List ℕ) (a : ℕ) → length (quotient (y ∷ ys) a) ≡ length ys
unfolding quotient
length-quotient y [] a = refl
length-quotient y (z ∷ zs) a = ap suc (length-quotient z zs a)

quotient-Bytes : (ys : List ℕ) (a : ℕ) → Bytes ys → IsByte a → Bytes (quotient ys a)
unfolding quotient
quotient-Bytes [] a hy ha = tt
quotient-Bytes (y ∷ []) a hy ha = tt
quotient-Bytes (y ∷ z ∷ zs) a hy ha =
    (value-IsByte (z ∷ zs) a hy.1 ha, quotient-Bytes (z ∷ zs) a hy.1 ha)

-- One step of the division, over the values `g` at p, `h` at a, and `q` of the quotient at p.
division_step :
    (y p a g h q : ℕ)
    → IsByte p
    → IsByte a
    → IsByte g
    → IsByte h
    → IsByte q
    → bit_xor g h ≡ gf_mul (bit_xor p a) q
    → bit_xor (bit_xor y (gf_mul p g)) (bit_xor y (gf_mul a h))
      ≡ gf_mul (bit_xor p a) (bit_xor h (gf_mul p q))
division_step y p a g h q hp ha hg hh hq e =
    let d : ℕ = bit_xor p a in
    let hd : IsByte d = xor-lt 8 p a hp ha in
    let pg : ℕ = gf_mul p g in
    let ph : ℕ = gf_mul p h in
    let ah : ℕ = gf_mul a h in
    let right : gf_mul d (bit_xor h (gf_mul p q)) ≡ bit_xor (bit_xor ph ah) (bit_xor pg ph) =
      gf_mul-xor d h (gf_mul p q) hd hh (gf_mul-IsByte p q hp hq)
      ∙ ap₂ bit_xor (xor-gf_mul p a h hp ha hh)
          (gf_mul_swap d p q hd hp hq ∙ ap (gf_mul p) (sym e) ∙ gf_mul-xor p g h hp hg hh) in
    xor_middle y pg y ah
    ∙ ap (λ (t : ℕ). bit_xor t (bit_xor pg ah)) (xor_self y)
    ∙ zero-xor (bit_xor pg ah)
    ∙ sym (
        right
        ∙ ap₂ bit_xor (xor_comm ph ah) (xor_comm pg ph)
        ∙ xor_assoc ah ph (bit_xor ph pg)
        ∙ ap (bit_xor ah) (xor_cancel ph pg)
        ∙ xor_comm ah pg)

quotient_lem :
    (ys : List ℕ) (p a : ℕ)
    → Bytes ys
    → IsByte p
    → IsByte a
    → bit_xor (value ys p) (value ys a) ≡ gf_mul (bit_xor p a) (value (quotient ys a) p)
unfolding value quotient
quotient_lem [] p a hy hp ha = sym (gf_mul-zero (bit_xor p a))
quotient_lem (y ∷ []) p a hy hp ha =
    rw (gf_mul-zero p, gf_mul-zero a, gf_mul-zero (bit_xor p a)) (xor_self (bit_xor y 0))
quotient_lem (y ∷ z ∷ zs) p a hy hp ha =
    division_step y p a (value (z ∷ zs) p) (value (z ∷ zs) a) (value (quotient (z ∷ zs) a) p) hp ha
      (value-IsByte (z ∷ zs) p hy.1 hp) (value-IsByte (z ∷ zs) a hy.1 ha)
      (value-IsByte (quotient (z ∷ zs) a) p (quotient-Bytes (z ∷ zs) a hy.1 ha) hp)
      (quotient_lem (z ∷ zs) p a hy.1 hp ha)

abbrev pub IsZero : List ℕ → Type 0
IsZero = All (λ y. y ≡ 0)

abbrev pub Distinct : List ℕ → Type 0
Distinct [] = Unit
Distinct (a ∷ ps) = All (λ p. p ≢ a) ps × Distinct ps

IsZero-of_quotient : (ys : List ℕ) (a : ℕ) → value ys a ≡ 0 → IsZero (quotient ys a) → IsZero ys
unfolding value quotient
IsZero-of_quotient [] a e h = tt
IsZero-of_quotient (y ∷ []) a e h =
    (sym (xor-zero y) ∙ ap (bit_xor y) (sym (gf_mul-zero a)) ∙ e, tt)
IsZero-of_quotient (y ∷ z ∷ zs) a e h = (
  sym (xor-zero y) ∙ ap (bit_xor y) (sym (ap (gf_mul a) h.0 ∙ gf_mul-zero a)) ∙ e,
  IsZero-of_quotient (z ∷ zs) a h.0 h.1,
)

roots_of_quotient :
    (ys : List ℕ) (a : ℕ) (ps : List ℕ)
    → Bytes ys
    → IsByte a
    → Bytes ps
    → value ys a ≡ 0
    → All (λ p. p ≢ a) ps
    → All (λ p. value ys p ≡ 0) ps
    → All (λ p. value (quotient ys a) p ≡ 0) ps
roots_of_quotient ys a [] hy ha hp e ne h = tt
roots_of_quotient ys a (p ∷ ps) hy ha hp e ne h = (
  gf_mul-ne-zero (bit_xor p a) (value (quotient ys a) p) (xor-lt 8 p a hp.0 ha)
      (value-IsByte (quotient ys a) p (quotient-Bytes ys a hy ha) hp.0)
      (λ z. ne.0 (xor_eq_zero p a z))
      (sym (quotient_lem ys p a hy hp.0 ha) ∙ ap₂ bit_xor h.0 e ∙ xor_self 0),
  roots_of_quotient ys a ps hy ha hp.1 e ne.1 h.1,
)

pub IsZero-of_roots :
    (ys ps : List ℕ)
    → length ys ≡ length ps
    → Bytes ys
    → Bytes ps
    → Distinct ps
    → All (λ p. value ys p ≡ 0) ps
    → IsZero ys
IsZero-of_roots [] ps l hy hp d h = tt
IsZero-of_roots (y ∷ ys) [] l hy hp d h = absurd (omega arith)
IsZero-of_roots (y ∷ ys) (a ∷ ps) l hy hp d h = IsZero-of_quotient (y ∷ ys) a h.0 (
    IsZero-of_roots (quotient (y ∷ ys) a) ps (omega (arith, length-quotient y ys a))
      (quotient-Bytes (y ∷ ys) a hy hp.0) hp.1 d.1
      (roots_of_quotient (y ∷ ys) a ps hy hp.0 hp.1 h.0 d.0 h.1))
