-- ===== src/Base/Bytes.antt =====
-- Byte strings as lists of numbers: equality, and Go's encoding/binary in big-endian order.
use Prim.Native.Nat.{ℕ, zero, suc, ◌+◌, ◌*◌, ◌/◌, ◌%◌, ◌^◌, ◌<◌, ◌≤◌}
use mathlib.Core.Path.{◌≡◌, refl, sym, ap, ap₂, ◌∙◌}
use mathlib.Core.Bool.{Bool, true, false, ◌&&◌}
use mathlib.Core.List.{List, [], ◌∷◌}
use native.Mathlib.Nat.{
  add-mul, add-mul-mod_self_left, div-add-mod', mod-lt, mul-le-mul_left, mul_comm, mul_assoc,
  mod-eq_of_lt, pow-suc,
}
use native.Mathlib.Omega.{arith}
use vyomanaut_v.Base.Lists.{length}
use vyomanaut_v.Base.Tests.{◌==◌}

abbrev pub Bytes : Type 0
Bytes = List ℕ

abbrev pub same : Bytes → Bytes → Bool
same [] [] = true
same [] (y ∷ ys) = false
same (x ∷ xs) [] = false
same (x ∷ xs) (y ∷ ys) = (x == y) && same xs ys

pub same_refl : (xs : Bytes) → same xs xs ≡ true
same_refl [] = refl
same_refl (x ∷ xs) = ground (arith, same_refl xs)

pub same→≡ : (xs ys : Bytes) → same xs ys ≡ true → xs ≡ ys
same→≡ [] [] h = refl
same→≡ [] (y ∷ ys) h = cc
same→≡ (x ∷ xs) [] h = cc
same→≡ (x ∷ xs) (y ∷ ys) h =
    ap₂ (λ (a : ℕ) (l : Bytes). a ∷ l) (ground arith) (same→≡ xs ys (ground arith))

-- PutUint32 and PutUint64: the low `8 * width` bits.
abbrev pub be_bytes : ℕ → ℕ → Bytes
be_bytes zero v = []
be_bytes (suc width) v = v / 256 ^ width % 256 ∷ be_bytes width v

-- Uint32 and Uint64.
abbrev pub be_value : ℕ → Bytes → ℕ
be_value sum [] = sum
be_value sum (b ∷ bs) = be_value (sum * 256 + b) bs

pub length-be_bytes : (width v : ℕ) → length (be_bytes width v) ≡ width
length-be_bytes zero v = refl
length-be_bytes (suc width) v = ap suc (length-be_bytes width v)

pub 256_pow : (width : ℕ) → 0 < 256 ^ width
256_pow zero = omega arith
256_pow (suc width) = omega (arith, 256_pow width, pow-suc 256 width)

le_digit : (q : ℕ) → q % 256 ≤ 255
le_digit q = omega arith

digit-split : (v p : ℕ) → v ≡ (v / p % 256 * p + v % p) + p * 256 * (v / p / 256)
digit-split v p =
    let q = v / p in
    omega (
      arith,
      sym (div-add-mod' v p),
      sym (div-add-mod' q 256),
      ap (λ (t : ℕ). t * p) (sym (div-add-mod' q 256)),
      add-mul (q / 256 * 256) (q % 256) p,
      mul_comm (p * 256) (q / 256),
      sym (mul_assoc (q / 256) 256 p),
      ap (λ (t : ℕ). q / 256 * t) (mul_comm p 256),
    )

-- One more digit of a remainder.
mod-digit : (v p : ℕ) → 0 < p → v % (p * 256) ≡ v / p % 256 * p + v % p
mod-digit v p h =
    ap (λ (t : ℕ). t % (p * 256)) (digit-split v p)
    ∙ add-mul-mod_self_left (v / p % 256 * p + v % p) (p * 256) (v / p / 256)
    ∙ mod-eq_of_lt
        (omega (arith, mod-lt v h, mul-le-mul_left p (le_digit (v / p)), mul_comm p (v / p % 256)))

-- Reading back gives the number's low bits after those that were read before.
pub be_value-be_bytes :
    (width v sum : ℕ) → be_value sum (be_bytes width v) ≡ sum * 256 ^ width + v % 256 ^ width
be_value-be_bytes zero v sum = omega arith
be_value-be_bytes (suc width) v sum =
    let p = 256 ^ width in
    omega (
      arith,
      be_value-be_bytes width v (sum * 256 + v / p % 256),
      pow-suc 256 width,
      ap (λ (t : ℕ). v % t) (pow-suc 256 width),
      ap (λ (t : ℕ). sum * t) (pow-suc 256 width),
      mod-digit v p (256_pow width),
      add-mul (sum * 256) (v / p % 256) p,
      mul_assoc sum 256 p,
      ap (λ (t : ℕ). sum * t) (mul_comm 256 p),
    )
