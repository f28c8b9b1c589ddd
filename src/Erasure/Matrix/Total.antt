-- ===== src/Erasure/Matrix/Total.antt =====
-- `invertMatrix` fails only on a matrix that maps some other vector to 0 as well.
use vyomanaut_v.Base.{
  ℕ, zero, suc, ◌+◌, ◌-◌, ◌*◌, ◌<◌, ◌≤◌, ◌≡◌, refl, sym, ap, ap₂, ◌∙◌, List, [], ◌∷◌, ◌++◌, map,
  arith, bit_xor, dec_lt, length, get_or, take, drop, replicate, All, if◌then◌else◌, ◌==◌,
  get_or-take, get_or-drop, get_or-append, get_or-append_left, get_or-replicate, take-append,
  drop-append, length-append, length-replicate, length-take, length-drop, All-append, All-take,
  All-drop,
}
use native.Mathlib.Nat.{add-zero}
use vyomanaut_v.Base.Xor.{xor_self}
use vyomanaut_v.Base.Result.{ok, ◌>>=◌}
use vyomanaut_v.Erasure.Field.{IsByte}
use vyomanaut_v.Erasure.Row.{Bytes, dot, dot_comm}
use vyomanaut_v.Erasure.Row.Parts.{dot-split, dot_of_zero, dot_of_unit}
use vyomanaut_v.Erasure.Matrix.{Matrix, get_row, entry, invert_matrix}
use vyomanaut_v.Erasure.Matrix.Rows.{IsRow, IsRow-of, entry-IsByte}
use vyomanaut_v.Erasure.Matrix.Kernel.{Kills}
use vyomanaut_v.Erasure.Matrix.Columns.{UnitBelow, delta_ne}
use vyomanaut_v.Erasure.Matrix.Outcome.{done, stuck}
use vyomanaut_v.Erasure.Matrix.Inverse.{Maps, start, outcome, Kills-start, zeros-Bytes}

-- The entries of column `c` in the first `k` rows.
column : ℕ → ℕ → Matrix → List ℕ
column zero c m = []
column (suc k) c m = column k c m ++ (entry m k c ∷ [])

length-column : (k c : ℕ) (m : Matrix) → length (column k c m) ≡ k
unfolding column
length-column zero c m = refl
length-column (suc k) c m =
    omega (arith, length-append (column k c m) (entry m k c ∷ []), length-column k c m)

column-Bytes :
    (k c : ℕ) (m : Matrix) → ((i : ℕ) → i < k → IsByte (entry m i c)) → Bytes (column k c m)
unfolding column
column-Bytes zero c m h = tt
column-Bytes (suc k) c m h =
    All-append IsByte (column k c m) (entry m k c ∷ [])
      (column-Bytes k c m (λ i hi. h i (omega arith))) (h k (omega arith), tt)

get_or-column : (k c : ℕ) (m : Matrix) (i : ℕ) → i < k → get_or (column k c m) i 0 ≡ entry m i c
unfolding column
get_or-column zero c m i h = absurd (omega arith)
get_or-column (suc k) c m i h = elim (dec_lt i k) [
  | yes lt ↦
      get_or-append_left (column k c m) (entry m k c ∷ []) i 0 (omega (arith, length-column k c m))
      ∙ get_or-column k c m i lt
  | no ge ↦
      ap (λ (t : ℕ). get_or (column k c m ++ (entry m k c ∷ [])) t 0)
        {y = length (column k c m) + 0} (omega (arith, length-column k c m))
      ∙ get_or-append (column k c m) (entry m k c ∷ []) 0 0
      ∙ ap (λ (t : ℕ). entry m t c) {x = k} (omega arith)
]

-- With no pivot in column `c`: the column above it, a 1, and zeros.
kernel_vector : ℕ → ℕ → Matrix → List ℕ
kernel_vector w c m = column c c m ++ (1 ∷ replicate (w - suc c) 0)

module _ (w n c : ℕ) (m : Matrix) (cn : c < n) (nw : n ≤ w) (size : length m ≡ n)
    (rows : All (IsRow w) m) (u : UnitBelow n c m)
    (zeros : (i : ℕ) → c ≤ i → i < n → entry m i c ≡ 0) where
  kernel_vector-IsRow : IsRow w (kernel_vector w c m)
  unfolding kernel_vector
  kernel_vector-IsRow = (
    omega (
      arith,
      length-append (column c c m) (1 ∷ replicate (w - suc c) 0),
      length-column c c m,
      length-replicate {A = ℕ} (w - suc c) 0,
    ),
    All-append IsByte (column c c m) (1 ∷ replicate (w - suc c) 0)
        (column-Bytes c c m (λ i hi. entry-IsByte w i c m rows (omega arith) (omega arith)))
        (omega arith, zeros-Bytes (w - suc c)),
  )

  -- The part of a row below column `c` meets the column above `c`.
  front_dot : (i : ℕ) → i < n → dot (take c (get_row m i)) (column c c m) ≡ entry m i c
  front_dot i hi =
      let r = get_row m i in
      let lr : length (take c r) ≡ c =
        omega (arith, length-take c r, (IsRow-of w i m rows (omega arith)).0) in
      elim (dec_lt i c) [
        | yes lt ↦
            dot_of_unit i (take c r) (column c c m)
              (column-Bytes c c m (λ k hk. entry-IsByte w k c m rows (omega arith) (omega arith)))
              (omega arith) (omega (arith, length-column c c m))
              (λ j hj. get_or-take c r j 0 (omega arith) ∙ u i j hi (omega arith))
            ∙ get_or-column c c m i lt
        | no ge ↦
            dot_of_zero (take c r) (column c c m) (λ j hj.
              get_or-take c r j 0 (omega arith)
              ∙ u i j hi (omega arith)
              ∙ delta_ne i j (omega arith))
            ∙ sym (zeros i (omega arith) hi)
      ]

  back_dot :
      (i : ℕ) → i < n → dot (drop c (get_row m i)) (1 ∷ replicate (w - suc c) 0) ≡ entry m i c
  back_dot i hi =
      let (lr, br) = IsRow-of w i m rows (omega arith) in
      let r = get_row m i in
      dot_comm (drop c r) (1 ∷ replicate (w - suc c) 0)
      ∙ dot_of_unit 0 (1 ∷ replicate (w - suc c) 0) (drop c r) (All-drop IsByte c r br)
          (omega arith) (omega (arith, length-replicate {A = ℕ} (w - suc c) 0, length-drop c r))
          one_zeros
      ∙ get_or-drop c r 0 0
      ∙ ap (λ (t : ℕ). get_or r t 0) (add-zero c)
    where
      one_zeros :
          (j : ℕ)
          → j < length {A = ℕ} (1 ∷ replicate (w - suc c) 0)
          → ◌≡◌ {A = ℕ} (get_or (1 ∷ replicate (w - suc c) 0) j 0) (if 0 == j then 1 else 0)
      one_zeros zero h = refl
      one_zeros (suc j) h = get_or-replicate (w - suc c) 0 j ∙ ground arith

  kernel_vector-Kills : Kills (kernel_vector w c m) m
  unfolding kernel_vector
  kernel_vector-Kills i hi =
      let r = get_row m i in
      let back : List ℕ = 1 ∷ replicate (w - suc c) 0 in
      let lc = length-column c c m in
      let left : take c (column c c m ++ back) ≡ column c c m =
        ap (λ (t : ℕ). take t (column c c m ++ back)) (sym lc) ∙ take-append (column c c m) back in
      let right : drop c (column c c m ++ back) ≡ back =
        ap (λ (t : ℕ). drop t (column c c m ++ back)) (sym lc) ∙ drop-append (column c c m) back in
      dot-split c r (column c c m ++ back)
      ∙ ap₂ (λ (a b : List ℕ). bit_xor (dot (take c r) a) (dot (drop c r) b)) left right
      ∙ ap₂ bit_xor (front_dot i (omega arith)) (back_dot i (omega arith))
      ∙ xor_self (entry m i c)

  kernel_vector-entry : get_or (kernel_vector w c m) c 0 ≡ 1
  unfolding kernel_vector
  kernel_vector-entry =
      ap (λ (t : ℕ). get_or (column c c m ++ (1 ∷ replicate (w - suc c) 0)) t 0)
        {y = length (column c c m) + 0} (omega (arith, length-column c c m))
      ∙ get_or-append (column c c m) (1 ∷ replicate (w - suc c) 0) 0 0

  kernel_vector-zero : (j : ℕ) → c < j → get_or (kernel_vector w c m) j 0 ≡ 0
  unfolding kernel_vector
  kernel_vector-zero j h =
      ap (λ (t : ℕ). get_or (column c c m ++ (1 ∷ replicate (w - suc c) 0)) t 0)
        {y = length (column c c m) + suc (j - suc c)} (omega (arith, length-column c c m))
      ∙ get_or-append (column c c m) (1 ∷ replicate (w - suc c) 0) (suc (j - suc c)) 0
      ∙ get_or-replicate (w - suc c) 0 (j - suc c)

-- The matrix maps nothing but the zero vector to zeros.
abbrev pub IsRegular : ℕ → Matrix → Type 0
IsRegular n m =
    (x : List ℕ) → IsRow n x → Maps n m x (replicate n 0) → (j : ℕ) → j < n → get_or x j 0 ≡ 0

-- A regular matrix has an inverse.
pub invert_matrix-IsRegular :
    (n : ℕ) (m : Matrix)
    → length m ≡ n
    → ((j : ℕ) → j < n → IsRow n (get_row m j))
    → IsRegular n m
    → (inverse : Matrix) × (invert_matrix m n ≡ ok inverse)
unfolding invert_matrix start
invert_matrix-IsRegular n m size rows regular = elim (outcome n m size rows) [
  | done last good b ↦ (map (drop n) last, ap (λ r. r >>= λ aug. ok (map (drop n) aug)) good)
  | stuck c last cn bad b zeros ↦
      let v = kernel_vector (2 * n) c last in
      let (lv, hv) =
        kernel_vector-IsRow (2 * n) n c last cn (omega arith) b.size b.rows b.unit zeros in
      let killed =
        kernel_vector-Kills (2 * n) n c last cn (omega arith) b.size b.rows b.unit zeros in
      let maps = (Kills-start n m size rows v hv lv).0 ((b.kept v hv).1 killed) in
      let tail_zero : (i : ℕ) → i < n → get_or (drop n v) i 0 ≡ get_or (replicate n 0) i 0 = λ i hi.
        get_or-drop n v i 0
        ∙ kernel_vector-zero (2 * n) n c last cn (omega arith) b.size b.rows b.unit zeros (n + i)
            (omega arith)
        ∙ sym (get_or-replicate n 0 i) in
      let vanishes =
        regular (take n v) (omega (arith, length-take n v), All-take IsByte n v hv)
          (λ i hi. maps i hi ∙ tail_zero i hi) c cn in
      absurd (
        omega (
          arith,
          kernel_vector-entry (2 * n) n c last cn (omega arith) b.size b.rows b.unit zeros,
          get_or-take n v c 0 cn,
          vanishes,
        ))
]
