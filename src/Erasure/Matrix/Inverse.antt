-- ===== src/Erasure/Matrix/Inverse.antt =====
-- `invertMatrix` solves every system of equations, and fails only on a singular matrix.
use vyomanaut_v.Base.{
  ℕ, zero, suc, ◌+◌, ◌*◌, ◌<◌, ◌≡◌, ◌↔◌, refl, sym, ap, ap₂, ◌∙◌, List, [], ◌∷◌, ◌++◌, map, arith,
  bit_xor, length, get_or, set, take, drop, replicate, All, subst, get_or-take, set-append,
  copy_into-replicate, take-append, drop-append, length-append, length-replicate, length-set,
  length-take, length-map, length-drop, All-append, All-take, All-drop, All-set, copy_into,
}
use mathlib.Core.Path.{subst₂}
use native.Mathlib.Nat.{zero-add}
use vyomanaut_v.Base.Xor.{xor_eq_zero, xor_self}
use vyomanaut_v.Base.Result.{Result, ok, ◌>>=◌}
use vyomanaut_v.Erasure.Field.{IsByte}
use vyomanaut_v.Erasure.Row.{Bytes, dot}
use vyomanaut_v.Erasure.Row.Parts.{dot-split, dot_of_unit, unit, get_or-unit}
use vyomanaut_v.Erasure.Matrix.{
  Matrix, get_row, Error, augmented_row, augment, gauss, invert_matrix,
}
use vyomanaut_v.Erasure.Matrix.Rows.{IsRow, IsRow-of}
use vyomanaut_v.Erasure.Matrix.Kernel.{Kills}
use vyomanaut_v.Erasure.Matrix.Outcome.{Before, Outcome, done, stuck, gauss-Outcome}

-- The matrix maps the vector `x` to the vector `y`.
abbrev pub Maps : ℕ → Matrix → List ℕ → List ℕ → Type 0
Maps n m x y = (i : ℕ) → i < n → dot (get_row m i) x ≡ get_or y i 0

augmented_row_lem :
    (n i : ℕ) (row : List ℕ) → length row ≡ n → augmented_row n i row ≡ row ++ unit n i
unfolding augmented_row
augmented_row_lem n i row l =
    ap (λ (t : ℕ). set (copy_into (replicate t 0) row) (n + i) 1) {y = length row + n} (omega arith)
    ∙ ap (λ (t : List ℕ). set t (n + i) 1) (copy_into-replicate row n 0)
    ∙ ap (λ (t : ℕ). set (row ++ replicate n 0) t 1) {y = length row + i} (omega arith)
    ∙ set-append row (replicate n 0) i 1

get_row-augment :
    (k i n : ℕ) (m : Matrix) (j : ℕ)
    → j < k
    → get_row (augment k i n m) j ≡ augmented_row n (i + j) (get_row m (i + j))
unfolding augment
get_row-augment zero i n m j h = absurd (omega arith)
get_row-augment (suc k) i n m zero h =
    ap (λ (t : ℕ). augmented_row n t (get_row m t)) {y = i + 0} (omega arith)
get_row-augment (suc k) i n m (suc j) h =
    get_row-augment k (suc i) n m j (omega arith)
    ∙ ap (λ (t : ℕ). augmented_row n t (get_row m t)) {x = suc i + j} {y = i + suc j} (omega arith)

length-augment : (k i n : ℕ) (m : Matrix) → length (augment k i n m) ≡ k
unfolding augment
length-augment zero i n m = refl
length-augment (suc k) i n m = ap suc (length-augment k (suc i) n m)

pub zeros-Bytes : (n : ℕ) → Bytes (replicate n 0)
zeros-Bytes zero = tt
zeros-Bytes (suc n) = (omega arith, zeros-Bytes n)

unit-Bytes : (n i : ℕ) → Bytes (unit n i)
unit-Bytes n i = All-set IsByte (replicate n 0) i 1 (zeros-Bytes n) (omega arith)

length-unit : (n i : ℕ) → length (unit n i) ≡ n
length-unit n i = length-set (replicate n 0) i 1 ∙ length-replicate n 0

augmented_row-IsRow : (n i : ℕ) (row : List ℕ) → IsRow n row → IsRow (2 * n) (augmented_row n i row)
augmented_row-IsRow n i row h = subst (IsRow (2 * n)) (sym (augmented_row_lem n i row h.0)) (
  omega (arith, length-append row (unit n i), length-unit n i, h.0),
  All-append IsByte row (unit n i) h.1 (unit-Bytes n i),
)

augment-IsRow :
    (k i n : ℕ) (m : Matrix)
    → ((j : ℕ) → j < i + k → IsRow n (get_row m j))
    → All (IsRow (2 * n)) (augment k i n m)
unfolding augment
augment-IsRow zero i n m h = tt
augment-IsRow (suc k) i n m h = (
  augmented_row-IsRow n i (get_row m i) (h i (omega arith)),
  augment-IsRow k (suc i) n m (λ j hj. h j (omega arith)),
)

ok-injective : {a b : Matrix} → ◌≡◌ {A = Result Error Matrix} (ok a) (ok b) → a ≡ b
ok-injective e = cc

get_row-map :
    (f : List ℕ → List ℕ) (m : Matrix) (i : ℕ)
    → i < length m
    → get_row (map f m) i ≡ f (get_row m i)
get_row-map f [] i h = absurd (omega arith)
get_row-map f (r ∷ m) zero h = refl
get_row-map f (r ∷ m) (suc i) h = get_row-map f m i (omega arith)

module _ (n : ℕ) (m : Matrix) (size : length m ≡ n)
    (rows : (j : ℕ) → j < n → IsRow n (get_row m j)) where
  unfoldable pub start : Matrix
  start = augment n 0 n m

  -- What an augmented row multiplies a vector to.
  start-dot :
      (v : List ℕ) (i : ℕ)
      → Bytes v
      → length v ≡ 2 * n
      → i < n
      → dot (get_row start i) v ≡ bit_xor (dot (get_row m i) (take n v)) (get_or (drop n v) i 0)
  unfolding start
  start-dot v i hv lv hi =
      let r : List ℕ = get_row m i in
      let lr : length r ≡ n = (rows i hi).0 in
      let whole : get_row start i ≡ r ++ unit n i =
        get_row-augment n 0 n m i hi
        ∙ ap (λ (t : ℕ). augmented_row n t (get_row m t)) (zero-add i)
        ∙ augmented_row_lem n i r lr in
      let left : take n (r ++ unit n i) ≡ r =
        ap (λ (t : ℕ). take t (r ++ unit n i)) (sym lr) ∙ take-append r (unit n i) in
      let right : drop n (r ++ unit n i) ≡ unit n i =
        ap (λ (t : ℕ). drop t (r ++ unit n i)) (sym lr) ∙ drop-append r (unit n i) in
      ap (λ (t : List ℕ). dot t v) whole
      ∙ dot-split n (r ++ unit n i) v
      ∙ ap₂ (λ (a b : List ℕ). bit_xor (dot a (take n v)) (dot b (drop n v))) left right
      ∙ ap (bit_xor (dot r (take n v))) (
          dot_of_unit i (unit n i) (drop n v) (All-drop IsByte n v hv)
            (omega (arith, length-unit n i)) (omega (arith, length-unit n i, length-drop n v))
            (λ j hj. get_or-unit n i j hi))

  pub Kills-start :
      (v : List ℕ) → Bytes v → length v ≡ 2 * n → Kills v start ↔ Maps n m (take n v) (drop n v)
  unfolding start
  Kills-start v hv lv = (
    λ k i hi.
        xor_eq_zero _ _
          (sym (start-dot v i hv lv hi) ∙ k i (omega (arith, length-augment n 0 n m))),
    λ h i hi.
        let hi' : i < n = omega (arith, length-augment n 0 n m) in
        start-dot v i hv lv hi'
        ∙ ap (λ (t : ℕ). bit_xor t (get_or (drop n v) i 0)) (h i hi')
        ∙ xor_self (get_or (drop n v) i 0),
  )

  -- A matrix that is the identity on the left maps back.
  final_dot :
      (last : Matrix) (v : List ℕ) (i : ℕ)
      → Before (2 * n) n n start last
      → Bytes v
      → length v ≡ 2 * n
      → i < n
      → dot (get_row last i) v
        ≡ bit_xor (get_or (take n v) i 0) (dot (get_row (map (drop n) last) i) (drop n v))
  final_dot last v i b hv lv hi =
      let r : List ℕ = get_row last i in
      let lr : length r ≡ 2 * n = (IsRow-of (2 * n) i last b.rows (omega (arith, b.size))).0 in
      dot-split n r v
      ∙ ap₂ bit_xor
          (dot_of_unit i (take n r) (take n v) (All-take IsByte n v hv)
            (omega (arith, length-take n r)) (omega (arith, length-take n r, length-take n v))
            (λ j hj.
              get_or-take n r j 0 (omega (arith, length-take n r))
              ∙ b.unit i j hi (omega (arith, length-take n r))))
          (ap (λ (t : List ℕ). dot t (drop n v))
            (sym (get_row-map (drop n) last i (omega (arith, b.size)))))

  Kills-final :
      (last : Matrix) (v : List ℕ)
      → Before (2 * n) n n start last
      → Bytes v
      → length v ≡ 2 * n
      → Kills v last ↔ Maps n (map (drop n) last) (drop n v) (take n v)
  Kills-final last v b hv lv = (
    λ k i hi.
        sym (xor_eq_zero _ _ (sym (final_dot last v i b hv lv hi) ∙ k i (omega (arith, b.size)))),
    λ h i hi.
        let hi' : i < n = omega (arith, b.size) in
        final_dot last v i b hv lv hi'
        ∙ ap (bit_xor (get_or (take n v) i 0)) (h i hi')
        ∙ xor_self (get_or (take n v) i 0),
  )

  start-Before : Before (2 * n) n 0 start start
  unfolding start
  start-Before = record {
    kept = λ v hv. (λ k. k, λ k. k);
    size = length-augment n 0 n m;
    rows = augment-IsRow n 0 n m (λ j hj. rows j (omega arith));
    unit = λ i j hi hj. absurd (omega arith);
  }

  pub outcome : Outcome (2 * n) n start (gauss n 0 n start)
  outcome = gauss-Outcome (2 * n) n n 0 start start (omega arith) (omega arith) start-Before

  -- When `invert_matrix` gives an inverse of an n×n matrix of bytes, then the matrix maps a vector x
  -- of n bytes to a vector y of n bytes exactly if the inverse maps y to x.
  pub invert_matrix-Maps :
      (inverse : Matrix) (x y : List ℕ)
      → invert_matrix m n ≡ ok inverse
      → IsRow n x
      → IsRow n y
      → Maps n m x y ↔ Maps n inverse y x
  unfolding start invert_matrix
  invert_matrix-Maps inverse x y e hx hy = elim outcome [
    | done last good b ↦
        let same : inverse ≡ map (drop n) last =
          ok-injective (sym e ∙ ap (λ r. r >>= λ aug. ok (map (drop n) aug)) good) in
        let v : List ℕ = x ++ y in
        let hv : Bytes v = All-append IsByte x y hx.1 hy.1 in
        let lv : length v ≡ 2 * n = omega (arith, length-append x y, hx.0, hy.0) in
        let left : take n v ≡ x = ap (λ (t : ℕ). take t v) (sym hx.0) ∙ take-append x y in
        let right : drop n v ≡ y = ap (λ (t : ℕ). drop t v) (sym hx.0) ∙ drop-append x y in
        let first =
          subst₂ (λ (a c : List ℕ). Kills v start ↔ Maps n m a c) left right
            (Kills-start v hv lv) in
        let second =
          subst₂ (λ (a c : List ℕ). Kills v last ↔ Maps n (map (drop n) last) c a) left right
            (Kills-final last v b hv lv) in
        let middle = b.kept v hv in
        subst (λ (t : Matrix). Maps n m x y ↔ Maps n t y x) (sym same)
          (λ h. second.0 (middle.0 (first.1 h)), λ h. first.0 (middle.1 (second.1 h)))
    | stuck c last cn bad b zeros ↦ cc (sym e ∙ ap (λ r. r >>= λ aug. ok (map (drop n) aug)) bad)
  ]

  map-drop-IsRow : (last : Matrix) → All (IsRow (2 * n)) last → All (IsRow n) (map (drop n) last)
  map-drop-IsRow [] h = tt
  map-drop-IsRow (r ∷ last) h =
      ((omega (arith, length-drop n r, h.0.0), All-drop IsByte n r h.0.1), map-drop-IsRow last h.1)

  -- The inverse is a square matrix of bytes.
  pub invert_matrix-IsRow :
      (inverse : Matrix)
      → invert_matrix m n ≡ ok inverse
      → (length inverse ≡ n) × All (IsRow n) inverse
  unfolding start invert_matrix
  invert_matrix-IsRow inverse e = elim outcome [
    | done last good b ↦
        let same : inverse ≡ map (drop n) last =
          ok-injective (sym e ∙ ap (λ r. r >>= λ aug. ok (map (drop n) aug)) good) in
        subst (λ (t : Matrix). (length t ≡ n) × All (IsRow n) t) (sym same)
          (length-map (drop n) last ∙ b.size, map-drop-IsRow last b.rows)
    | stuck c last cn bad b zeros ↦ cc (sym e ∙ ap (λ r. r >>= λ aug. ok (map (drop n) aug)) bad)
  ]
