-- ===== src/Erasure/Matrix/Rows.antt =====
-- What each step of the elimination does to each row.
use vyomanaut_v.Base.{
  ℕ, zero, suc, ◌+◌, ◌<◌, ◌≤◌, ◌≡◌, ◌≢◌, refl, sym, ap, ◌∙◌, List, [], ◌∷◌, none, some, arith,
  length, get_or, set, All, length-set, get_or-set_self, get_or-set_ne, All-set, All-get_or,
  ℕ_discrete,
}
use vyomanaut_v.Erasure.Field.{IsByte}
use vyomanaut_v.Erasure.Row.{
  Bytes, scale_row, scale_row-Bytes, length-scale_row, add_scaled-Bytes, length-add_scaled,
}
use vyomanaut_v.Erasure.Matrix.{
  Matrix, get_row, entry, find_pivot, swap_rows, eliminate_row, eliminate,
}

-- A row of w bytes.
abbrev pub IsRow : ℕ → List ℕ → Type 0
IsRow w r = (length r ≡ w) × Bytes r

pub IsRow-of : (w i : ℕ) (m : Matrix) → All (IsRow w) m → i < length m → IsRow w (get_row m i)
IsRow-of w i m h lt = All-get_or (IsRow w) m i [] h lt

pub entry-IsByte :
    (w i j : ℕ) (m : Matrix) → All (IsRow w) m → i < length m → j < w → IsByte (entry m i j)
entry-IsByte w i j m h lt lj =
    let (l, bytes) = IsRow-of w i m h lt in All-get_or IsByte (get_row m i) j 0 bytes (omega arith)

pub swap_self : (m : Matrix) (i j : ℕ) → j < length m → get_row (swap_rows m i j) j ≡ get_row m i
unfolding swap_rows
swap_self m i j h =
    get_or-set_self (set m i (get_row m j)) j (get_row m i) []
      (omega (arith, length-set m i (get_row m j)))

pub swap-first :
    (m : Matrix) (i j : ℕ) → i < length m → i ≢ j → get_row (swap_rows m i j) i ≡ get_row m j
unfolding swap_rows
swap-first m i j h ne =
    get_or-set_ne (set m i (get_row m j)) j i (get_row m i) [] (λ e. ne (sym e))
    ∙ get_or-set_self m i (get_row m j) [] h

pub swap-other :
    (m : Matrix) (i j k : ℕ) → i ≢ k → j ≢ k → get_row (swap_rows m i j) k ≡ get_row m k
unfolding swap_rows
swap-other m i j k ni nj =
    get_or-set_ne (set m i (get_row m j)) j k (get_row m i) [] nj
    ∙ get_or-set_ne m i k (get_row m j) [] ni

pub length-swap_rows : (m : Matrix) (i j : ℕ) → length (swap_rows m i j) ≡ length m
unfolding swap_rows
length-swap_rows m i j =
    length-set (set m i (get_row m j)) j (get_row m i) ∙ length-set m i (get_row m j)

pub swap_rows-IsRow :
    (w : ℕ) (m : Matrix) (i j : ℕ)
    → All (IsRow w) m
    → i < length m
    → j < length m
    → All (IsRow w) (swap_rows m i j)
unfolding swap_rows
swap_rows-IsRow w m i j h hi hj =
    All-set (IsRow w) (set m i (get_row m j)) j (get_row m i)
      (All-set (IsRow w) m i (get_row m j) h (IsRow-of w j m h hj)) (IsRow-of w i m h hi)

pub scale_row-IsRow : (w s : ℕ) (r : List ℕ) → IsByte s → IsRow w r → IsRow w (scale_row s r)
scale_row-IsRow w s r hs h = (length-scale_row s r ∙ h.0, scale_row-Bytes s r hs h.1)

pub get_row-eliminate :
    (row col : ℕ) (p : List ℕ) (m : Matrix) (k : ℕ)
    → k < length m
    → get_row (eliminate row col p m) k ≡ eliminate_row (row + k) col p (get_row m k)
unfolding eliminate
get_row-eliminate row col p [] k h = absurd (omega arith)
get_row-eliminate row col p (r ∷ m) zero h = ap (λ (t : ℕ). eliminate_row t col p r) (omega arith)
get_row-eliminate row col p (r ∷ m) (suc k) h =
    get_row-eliminate (suc row) col p m k (omega arith)
    ∙ ap (λ (t : ℕ). eliminate_row t col p (get_row m k)) (omega arith)

pub length-eliminate :
    (row col : ℕ) (p : List ℕ) (m : Matrix) → length (eliminate row col p m) ≡ length m
unfolding eliminate
length-eliminate row col p [] = refl
length-eliminate row col p (r ∷ m) = ap suc (length-eliminate (suc row) col p m)

eliminate_row-IsRow :
    (w row col : ℕ) (p r : List ℕ)
    → col < w
    → IsRow w p
    → IsRow w r
    → IsRow w (eliminate_row row col p r)
unfolding eliminate_row
eliminate_row-IsRow w row col p r hc hp hr = ground (
  arith,
  length-add_scaled (get_or r col 0) p r,
  add_scaled-Bytes (get_or r col 0) p r (All-get_or IsByte r col 0 hr.1 (omega arith)) hp.1 hr.1,
)

pub eliminate-IsRow :
    (w row col : ℕ) (p : List ℕ) (m : Matrix)
    → col < w
    → IsRow w p
    → All (IsRow w) m
    → All (IsRow w) (eliminate row col p m)
unfolding eliminate
eliminate-IsRow w row col p [] hc hp h = tt
eliminate-IsRow w row col p (r ∷ m) hc hp h =
    (eliminate_row-IsRow w row col p r hc hp h.0, eliminate-IsRow w (suc row) col p m hc hp h.1)

-- A pivot lies in the rows searched and is not 0 there.
pub find_pivot-some :
    (k row col : ℕ) (m : Matrix) (p : ℕ)
    → find_pivot k row col m ≡ some p
    → (row ≤ p) × (p < row + k) × (entry m p col ≢ 0)
unfolding find_pivot
find_pivot-some zero row col m p e = cc
find_pivot-some (suc k) row col m p e = ground (arith, find_pivot-some k (suc row) col m p)

-- With no pivot, the rows searched are 0 in the column.
pub find_pivot-none :
    (k row col : ℕ) (m : Matrix) (i : ℕ)
    → find_pivot k row col m ≡ none
    → row ≤ i
    → i < row + k
    → entry m i col ≡ 0
unfolding find_pivot
find_pivot-none zero row col m i e l h = absurd (omega arith)
find_pivot-none (suc k) row col m i e l h = elim (ℕ_discrete row i) [
  | yes same ↦ ap (λ (t : ℕ). entry m t col) (sym same) ∙ ground arith
  | no other ↦ find_pivot-none k (suc row) col m i (ground arith) (omega arith) (omega arith)
]
