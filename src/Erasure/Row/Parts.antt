-- ===== src/Erasure/Row/Parts.antt =====
-- The product of a row with a vector: its two halves, unit rows and zeros.
use vyomanaut_v.Base.{
  ℕ, zero, suc, ◌<◌, ◌≡◌, refl, sym, ap, ◌∙◌, List, [], ◌∷◌, bit_xor, arith, length, get_or, take,
  drop, replicate, set, ◌==◌, if◌then◌else◌, get_or-set_self, get_or-set_ne, get_or-replicate,
  length-replicate, ℕ_discrete,
}
use vyomanaut_v.Base.Xor.{xor-zero, zero-xor, xor_assoc}
use vyomanaut_v.Erasure.Field.{gf_mul}
use vyomanaut_v.Erasure.Field.Laws.{zero-gf_mul, gf_mul-zero, one-gf_mul}
use vyomanaut_v.Erasure.Row.{Bytes, dot, dot_comm}

pub dot-split :
    (n : ℕ) (r v : List ℕ)
    → dot r v ≡ bit_xor (dot (take n r) (take n v)) (dot (drop n r) (drop n v))
unfolding dot
dot-split zero r v = sym (zero-xor (dot r v))
dot-split (suc n) [] v = refl
dot-split (suc n) (x ∷ r) [] = sym (ap (bit_xor 0) (dot_comm (drop n r) []))
dot-split (suc n) (x ∷ r) (y ∷ v) =
    ap (bit_xor (gf_mul x y)) (dot-split n r v)
    ∙ sym (xor_assoc (gf_mul x y) (dot (take n r) (take n v)) (dot (drop n r) (drop n v)))

pub dot-zeros : (r : List ℕ) (k : ℕ) → dot r (replicate k 0) ≡ 0
unfolding dot
dot-zeros [] k = refl
dot-zeros (x ∷ r) zero = refl
dot-zeros (x ∷ r) (suc k) = rw (gf_mul-zero x, dot-zeros r k) refl

-- A row whose entries are 0.
pub dot_of_zero : (r v : List ℕ) → ((j : ℕ) → j < length r → get_or r j 0 ≡ 0) → dot r v ≡ 0
unfolding dot
dot_of_zero [] v h = refl
dot_of_zero (x ∷ r) [] h = refl
dot_of_zero (x ∷ r) (y ∷ v) h =
    rw (h 0 (omega arith), zero-gf_mul y, dot_of_zero r v (λ j hj. h (suc j) (omega arith))) refl

-- A row whose entries are those of the i-th unit vector.
pub dot_of_unit :
    (i : ℕ) (r v : List ℕ)
    → Bytes v
    → i < length r
    → length r ≡ length v
    → ((j : ℕ) → j < length r → get_or r j 0 ≡ (if i == j then 1 else 0))
    → dot r v ≡ get_or v i 0
unfolding dot
dot_of_unit i [] v hv hi l h = absurd (omega arith)
dot_of_unit i (x ∷ r) [] hv hi l h = absurd (omega arith)
dot_of_unit zero (x ∷ r) (y ∷ v) hv hi l h =
    rw
      (
        h 0 (omega arith),
        one-gf_mul y hv.0,
        dot_of_zero r v (λ j hj. h (suc j) (omega arith) ∙ ground arith),
      )
      (xor-zero y)
dot_of_unit (suc i) (x ∷ r) (y ∷ v) hv hi l h =
    let first : x ≡ 0 = h 0 (omega arith) ∙ ground arith in
    rw
      (
        first,
        zero-gf_mul y,
        dot_of_unit i r v hv.1 (omega arith) (omega arith)
            (λ j hj. h (suc j) (omega arith) ∙ ground arith),
      )
      (zero-xor (get_or v i 0))

-- The i-th unit vector as the code writes it.
abbrev pub unit : ℕ → ℕ → List ℕ
unit n i = set (replicate n 0) i 1

pub get_or-unit : (n i j : ℕ) → i < n → get_or (unit n i) j 0 ≡ (if i == j then 1 else 0)
get_or-unit n i j h = elim (ℕ_discrete i j) [
  | yes e ↦
      ap (λ (t : ℕ). get_or (unit n i) t 0) (sym e)
      ∙ get_or-set_self (replicate n 0) i 1 0 (omega (arith, length-replicate {A = ℕ} n 0))
      ∙ ground arith
  | no ne ↦ get_or-set_ne (replicate n 0) i j 1 0 ne ∙ get_or-replicate n 0 j ∙ ground arith
]
