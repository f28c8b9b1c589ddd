-- ===== src/Erasure/Coder/Systematic.antt =====
-- `buildGeneratorMatrix` succeeds, and every row of the encoding matrix evaluates one polynomial.
use vyomanaut_v.Base.{
  ℕ, zero, suc, ◌+◌, ◌<◌, ◌≤◌, ◌≡◌, ◌≢◌, refl, sym, ap, ◌∙◌, List, [], ◌∷◌, map, arith, length,
  get_or, take, drop, All, get_or-take, length-map, length-take, subst, get_or-replicate,
}
use native.Mathlib.Nat.{zero-add}
use vyomanaut_v.Base.Result.{ok, ◌>>=◌}
use vyomanaut_v.Erasure.Row.{Bytes, dot, dot-IsByte}
use vyomanaut_v.Erasure.Polynomial.{value, Distinct, IsZero, IsZero-of_roots}
use vyomanaut_v.Erasure.Matrix.{Matrix, get_row, invert_matrix}
use vyomanaut_v.Erasure.Matrix.Rows.{IsRow}
use vyomanaut_v.Erasure.Matrix.Total.{IsRegular, invert_matrix-IsRegular}
use vyomanaut_v.Erasure.Coder.{vandermonde_row, vandermonde, generator_row, build_generator_matrix}
use vyomanaut_v.Erasure.Coder.Generator.{
  point, point-IsByte, point-ne, vandermonde_row-IsRow, vandermonde_row-value, get_row-vandermonde,
  length-vandermonde,
}

-- Row numbers that rise from `lo` on and stay below 255.
abbrev pub Rising : ℕ → List ℕ → Type 0
Rising lo [] = Unit
Rising lo (i ∷ is) = (lo ≤ i) × (i < 255) × Rising (suc i) is

points_ne :
    (i lo : ℕ) (is : List ℕ)
    → i < lo
    → i < 255
    → Rising lo is
    → All (λ p. p ≢ point i) (map point is)
points_ne i lo [] h hi r = tt
points_ne i lo (j ∷ is) h hi r =
    (point-ne j i r.1 hi (λ e. omega arith), points_ne i (suc j) is (omega arith) hi r.2)

points-Distinct : (lo : ℕ) (is : List ℕ) → Rising lo is → Distinct (map point is)
points-Distinct lo [] r = tt
points-Distinct lo (i ∷ is) r =
    (points_ne i (suc i) is (omega arith) r.1 r.2, points-Distinct (suc i) is r.2)

points-Bytes : (is : List ℕ) → Bytes (map point is)
points-Bytes [] = tt
points-Bytes (i ∷ is) = (point-IsByte i, points-Bytes is)

roots_at :
    (ys is : List ℕ)
    → ((t : ℕ) → t < length is → value ys (point (get_or is t 0)) ≡ 0)
    → All (λ p. value ys p ≡ 0) (map point is)
roots_at ys [] h = tt
roots_at ys (i ∷ is) h = (h 0 (omega arith), roots_at ys is (λ t ht. h (suc t) (omega arith)))

zero_entries : (ys : List ℕ) (j : ℕ) → IsZero ys → get_or ys j 0 ≡ 0
zero_entries [] j h = refl
zero_entries (y ∷ ys) zero h = h.0
zero_entries (y ∷ ys) (suc j) h = zero_entries ys j h.1

-- A polynomial that vanishes at as many rows as it has coefficients is zero.
pub zero_of_rows :
    (ys is : List ℕ) (lo : ℕ)
    → length ys ≡ length is
    → Bytes ys
    → Rising lo is
    → ((t : ℕ) → t < length is → value ys (point (get_or is t 0)) ≡ 0)
    → (j : ℕ) → get_or ys j 0 ≡ 0
zero_of_rows ys is lo l hy r h j = zero_entries ys j (
    IsZero-of_roots ys (map point is) (l ∙ sym (length-map point is)) hy (points-Bytes is)
      (points-Distinct lo is r) (roots_at ys is h))

count_from : ℕ → ℕ → List ℕ
count_from zero i = []
count_from (suc k) i = i ∷ count_from k (suc i)

length-count_from : (k i : ℕ) → length (count_from k i) ≡ k
unfolding count_from
length-count_from zero i = refl
length-count_from (suc k) i = ap suc (length-count_from k (suc i))

count_from-Rising : (k i lo : ℕ) → lo ≤ i → i + k ≤ 255 → Rising lo (count_from k i)
unfolding count_from
count_from-Rising zero i lo h b = tt
count_from-Rising (suc k) i lo h b =
    (h, omega arith, count_from-Rising k (suc i) (suc i) (omega arith) (omega arith))

get_or-count_from : (k i t : ℕ) → t < k → get_or (count_from k i) t 0 ≡ i + t
unfolding count_from
get_or-count_from zero i t h = absurd (omega arith)
get_or-count_from (suc k) i zero h = omega arith
get_or-count_from (suc k) i (suc t) h = omega (arith, get_or-count_from k (suc i) t (omega arith))

module _ (d p : ℕ) (small : d + p ≤ 255) where
  abbrev pub top : Matrix
  top = take d (vandermonde (d + p) d 0)

  pub length-top : length top ≡ d
  length-top =
      omega (arith, length-take d (vandermonde (d + p) d 0), length-vandermonde (d + p) d 0)

  pub get_row-top : (i : ℕ) → i < d → get_row top i ≡ vandermonde_row d i 0
  get_row-top i h =
      get_or-take d (vandermonde (d + p) d 0) i [] h
      ∙ get_row-vandermonde (d + p) d 0 i (omega arith)
      ∙ ap (λ (t : ℕ). vandermonde_row d t 0) (zero-add i)

  pub top-IsRow : (i : ℕ) → i < d → IsRow d (get_row top i)
  top-IsRow i h = subst (IsRow d) (sym (get_row-top i h)) (vandermonde_row-IsRow d i)

  top-IsRegular : IsRegular d top
  top-IsRegular x hx maps j hj =
      zero_of_rows x (count_from d 0) 0 (hx.0 ∙ sym (length-count_from d 0)) hx.1
        (count_from-Rising d 0 0 (omega arith) (omega arith))
        (λ t ht.
          let td : t < d = omega (arith, length-count_from d 0) in
          ap (λ (u : ℕ). value x (point u)) (get_or-count_from d 0 t td ∙ zero-add t)
          ∙ sym (vandermonde_row-value d t x hx)
          ∙ ap (λ (r : List ℕ). dot r x) (sym (get_row-top t td))
          ∙ maps t td
          ∙ get_or-replicate d 0 t)
        j

  -- The inverse of the top block, and the parity rows made from it.
  pub build_generator_matrix_lem :
      (inverse : Matrix) × (invert_matrix top d ≡ ok inverse)
      × (build_generator_matrix d p
          ≡ ok (map (λ row. generator_row d 0 row inverse) (drop d (vandermonde (d + p) d 0))))
  unfolding build_generator_matrix
  build_generator_matrix_lem =
      let (inverse, e) = invert_matrix-IsRegular d top length-top top-IsRow top-IsRegular in
      (
        inverse,
        e,
        ap
            (λ r. r >>= λ inv.
              ok (map (λ row. generator_row d 0 row inv) (drop d (vandermonde (d + p) d 0))))
            e,
      )

pub get_or-map-dot :
    (m : Matrix) (x : List ℕ) (i : ℕ)
    → i < length m
    → get_or (map (λ r. dot r x) m) i 0 ≡ dot (get_row m i) x
get_or-map-dot [] x i h = absurd (omega arith)
get_or-map-dot (r ∷ m) x zero h = refl
get_or-map-dot (r ∷ m) x (suc i) h = get_or-map-dot m x i (omega arith)

pub map-dot-Bytes :
    (d : ℕ) (m : Matrix) (x : List ℕ) → All (IsRow d) m → Bytes x → Bytes (map (λ r. dot r x) m)
map-dot-Bytes d [] x h hx = tt
map-dot-Bytes d (r ∷ m) x h hx = (dot-IsByte r x h.0.1 hx, map-dot-Bytes d m x h.1 hx)

pub get_row-map :
    (f : List ℕ → List ℕ) (m : Matrix) (i : ℕ)
    → i < length m
    → get_row (map f m) i ≡ f (get_row m i)
get_row-map f [] i h = absurd (omega arith)
get_row-map f (r ∷ m) zero h = refl
get_row-map f (r ∷ m) (suc i) h = get_row-map f m i (omega arith)
