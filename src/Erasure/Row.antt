-- ===== src/Erasure/Row.antt =====
-- Rows of a matrix over GF(2^8): the two row operations of internal/erasure/rs_internal.go, and the
-- product of a row with a vector, through which their effect is stated.
pub mod Parts
use vyomanaut_v.Base.{
  ℕ, zero, suc, ◌+◌, ◌<◌, ◌≡◌, refl, sym, ap, ap₂, ◌∙◌, List, [], ◌∷◌, ◌++◌, map, bit_xor, arith,
  length, get_or, All, replicate,
}
use vyomanaut_v.Base.Xor.{xor-lt, xor-zero, zero-xor, xor_middle, xor_assoc}
use vyomanaut_v.Erasure.Field.{IsByte, gf_mul}
use vyomanaut_v.Erasure.Field.Laws.{
  zero-gf_mul, gf_mul-zero, gf_mul_comm, gf_mul-IsByte, gf_mul-xor, gf_mul_assoc, one-gf_mul,
}

abbrev pub Bytes : List ℕ → Type 0
Bytes = All IsByte

-- `aug[col][j] = gfMul(aug[col][j], scale)` over the whole row.
unfoldable pub scale_row : ℕ → List ℕ → List ℕ
scale_row scale [] = []
scale_row scale (x ∷ xs) = gf_mul x scale ∷ scale_row scale xs

-- `aug[row][j] ^= gfMul(factor, aug[col][j])` over the whole row.
unfoldable pub add_scaled : ℕ → List ℕ → List ℕ → List ℕ
add_scaled factor [] xs = xs
add_scaled factor (y ∷ ys) [] = []
add_scaled factor (y ∷ ys) (x ∷ xs) = bit_xor x (gf_mul factor y) ∷ add_scaled factor ys xs

unfoldable pub dot : List ℕ → List ℕ → ℕ
dot [] ys = 0
dot (x ∷ xs) [] = 0
dot (x ∷ xs) (y ∷ ys) = bit_xor (gf_mul x y) (dot xs ys)

pub dot-IsByte : (xs ys : List ℕ) → Bytes xs → Bytes ys → IsByte (dot xs ys)
unfolding dot
dot-IsByte [] ys hx hy = omega arith
dot-IsByte (x ∷ xs) [] hx hy = omega arith
dot-IsByte (x ∷ xs) (y ∷ ys) hx hy =
    xor-lt 8 (gf_mul x y) (dot xs ys) (gf_mul-IsByte x y hx.0 hy.0) (dot-IsByte xs ys hx.1 hy.1)

pub dot_comm : (xs ys : List ℕ) → dot xs ys ≡ dot ys xs
unfolding dot
dot_comm [] [] = refl
dot_comm [] (y ∷ ys) = refl
dot_comm (x ∷ xs) [] = refl
dot_comm (x ∷ xs) (y ∷ ys) = ap₂ bit_xor (gf_mul_comm x y) (dot_comm xs ys)

pub scale_row-Bytes : (s : ℕ) (xs : List ℕ) → IsByte s → Bytes xs → Bytes (scale_row s xs)
unfolding scale_row
scale_row-Bytes s [] hs hx = tt
scale_row-Bytes s (x ∷ xs) hs hx = (gf_mul-IsByte x s hx.0 hs, scale_row-Bytes s xs hs hx.1)

pub length-scale_row : (s : ℕ) (xs : List ℕ) → length (scale_row s xs) ≡ length xs
unfolding scale_row
length-scale_row s [] = refl
length-scale_row s (x ∷ xs) = ap suc (length-scale_row s xs)

pub get_or-scale_row :
    (s : ℕ) (xs : List ℕ) (j : ℕ) → get_or (scale_row s xs) j 0 ≡ gf_mul (get_or xs j 0) s
unfolding scale_row
get_or-scale_row s [] j = sym (zero-gf_mul s)
get_or-scale_row s (x ∷ xs) zero = refl
get_or-scale_row s (x ∷ xs) (suc j) = get_or-scale_row s xs j

pub dot-scale_row :
    (s : ℕ) (xs v : List ℕ)
    → IsByte s
    → Bytes xs
    → Bytes v
    → dot (scale_row s xs) v ≡ gf_mul s (dot xs v)
unfolding dot scale_row
dot-scale_row s [] v hs hx hv = sym (gf_mul-zero s)
dot-scale_row s (x ∷ xs) [] hs hx hv = sym (gf_mul-zero s)
dot-scale_row s (x ∷ xs) (y ∷ v) hs hx hv =
    rw
      (
        gf_mul_comm x s,
        gf_mul_assoc s x y hs hx.0 hv.0,
        dot-scale_row s xs v hs hx.1 hv.1,
        gf_mul-xor s (gf_mul x y) (dot xs v) hs (gf_mul-IsByte x y hx.0 hv.0)
            (dot-IsByte xs v hx.1 hv.1),
      )
      refl

pub add_scaled-Bytes :
    (f : ℕ) (ys xs : List ℕ) → IsByte f → Bytes ys → Bytes xs → Bytes (add_scaled f ys xs)
unfolding add_scaled
add_scaled-Bytes f [] xs hf hy hx = hx
add_scaled-Bytes f (y ∷ ys) [] hf hy hx = tt
add_scaled-Bytes f (y ∷ ys) (x ∷ xs) hf hy hx = (
  xor-lt 8 x (gf_mul f y) hx.0 (gf_mul-IsByte f y hf hy.0),
  add_scaled-Bytes f ys xs hf hy.1 hx.1,
)

pub length-add_scaled : (f : ℕ) (ys xs : List ℕ) → length (add_scaled f ys xs) ≡ length xs
unfolding add_scaled
length-add_scaled f [] xs = refl
length-add_scaled f (y ∷ ys) [] = refl
length-add_scaled f (y ∷ ys) (x ∷ xs) = ap suc (length-add_scaled f ys xs)

pub get_or-add_scaled :
    (f : ℕ) (ys xs : List ℕ) (j : ℕ)
    → length ys ≡ length xs
    → get_or (add_scaled f ys xs) j 0 ≡ bit_xor (get_or xs j 0) (gf_mul f (get_or ys j 0))
unfolding add_scaled
get_or-add_scaled f [] [] j e = sym (ap (bit_xor 0) (gf_mul-zero f))
get_or-add_scaled f [] (x ∷ xs) j e = absurd (omega arith)
get_or-add_scaled f (y ∷ ys) [] j e = absurd (omega arith)
get_or-add_scaled f (y ∷ ys) (x ∷ xs) zero e = refl
get_or-add_scaled f (y ∷ ys) (x ∷ xs) (suc j) e = get_or-add_scaled f ys xs j (omega arith)

pub dot-add_scaled :
    (f : ℕ) (ys xs v : List ℕ)
    → IsByte f
    → Bytes ys
    → Bytes xs
    → Bytes v
    → length ys ≡ length xs
    → dot (add_scaled f ys xs) v ≡ bit_xor (dot xs v) (gf_mul f (dot ys v))
unfolding dot add_scaled
dot-add_scaled f [] [] v hf hy hx hv e = sym (ap (bit_xor 0) (gf_mul-zero f))
dot-add_scaled f [] (x ∷ xs) v hf hy hx hv e = absurd (omega arith)
dot-add_scaled f (y ∷ ys) [] v hf hy hx hv e = absurd (omega arith)
dot-add_scaled f (y ∷ ys) (x ∷ xs) [] hf hy hx hv e = sym (ap (bit_xor 0) (gf_mul-zero f))
dot-add_scaled f (y ∷ ys) (x ∷ xs) (z ∷ v) hf hy hx hv e =
    rw
      (
        gf_mul_comm (bit_xor x (gf_mul f y)) z,
        gf_mul-xor z x (gf_mul f y) hv.0 hx.0 (gf_mul-IsByte f y hf hy.0),
        gf_mul_comm z x,
        gf_mul_comm z (gf_mul f y),
        gf_mul_assoc f y z hf hy.0 hv.0,
        dot-add_scaled f ys xs v hf hy.1 hx.1 hv.1 (omega arith),
        gf_mul-xor f (gf_mul y z) (dot ys v) hf (gf_mul-IsByte y z hy.0 hv.0)
            (dot-IsByte ys v hy.1 hv.1),
      )
      (xor_middle (gf_mul x z) (gf_mul f (gf_mul y z)) (dot xs v) (gf_mul f (dot ys v)))
