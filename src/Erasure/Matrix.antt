-- ===== src/Erasure/Matrix.antt =====
-- internal/erasure/rs_internal.go: `invertMatrix`, Gauss-Jordan elimination over GF(2^8).
-- A matrix is the list of its rows.
pub mod Rows
pub mod Kernel
pub mod Columns
pub mod Outcome
pub mod Inverse
pub mod Total
use vyomanaut_v.Base.{
  ℕ, zero, suc, ◌+◌, ◌-◌, ◌*◌, ◌||◌, ◌==◌, if◌then◌else◌, List, [], ◌∷◌, map, Option, none, some,
  get_or, set, drop, copy_into, replicate,
}
use vyomanaut_v.Base.Result.{Result, ok, err, ◌>>=◌}
use vyomanaut_v.Erasure.Field.{gf_inv}
use vyomanaut_v.Erasure.Row.{scale_row, add_scaled}

-- The errors of the package, and the panic of `gfInv`.
pub data Error : Type 0 where
  data_shards_zero total_shards_mismatch shard_size_mismatch : Error
  too_few_shards shard_size shard_count package_size bad_parameters : Error
  singular : ℕ → Error
  panicked : Error

abbrev pub Matrix : Type 0
Matrix = List (List ℕ)

abbrev pub get_row : Matrix → ℕ → List ℕ
get_row m i = get_or m i []

abbrev pub entry : Matrix → ℕ → ℕ → ℕ
entry m i j = get_or (get_or m i []) j 0

-- `aug[i]`: the row of `m` copied into 2n zeros, and a 1 at n+i.
unfoldable pub augmented_row : ℕ → ℕ → List ℕ → List ℕ
augmented_row n i row = set (copy_into (replicate (2 * n) 0) row) (n + i) 1

unfoldable pub augment : ℕ → ℕ → ℕ → Matrix → Matrix
augment zero i n m = []
augment (suc k) i n m = augmented_row n i (get_row m i) ∷ augment k (suc i) n m

-- The first row from `row` on, of `k` rows, that is not 0 in column `col`.
unfoldable pub find_pivot : ℕ → ℕ → ℕ → Matrix → Option ℕ
find_pivot zero row col aug = none
find_pivot (suc k) row col aug =
    if entry aug row col == 0 then find_pivot k (suc row) col aug else some row

unfoldable pub swap_rows : Matrix → ℕ → ℕ → Matrix
swap_rows m i j = set (set m i (get_row m j)) j (get_row m i)

-- The body of the elimination loop on one row, with its `continue`.
unfoldable pub eliminate_row : ℕ → ℕ → List ℕ → List ℕ → List ℕ
eliminate_row row col pivot_row r =
    if row == col || get_or r col 0 == 0 then r else add_scaled (get_or r col 0) pivot_row r

unfoldable pub eliminate : ℕ → ℕ → List ℕ → Matrix → Matrix
eliminate row col pivot_row [] = []
eliminate row col pivot_row (r ∷ rs) =
    eliminate_row row col pivot_row r ∷ eliminate (suc row) col pivot_row rs

-- Column `col` once its pivot row stands at `col`: scale that row to 1, and eliminate.
unfoldable pub reduce_column : ℕ → Matrix → Result Error Matrix
reduce_column col aug = elim (gf_inv (entry aug col col)) [
  | none ↦ err panicked
  | some scale ↦
      let pivot_row = scale_row scale (get_row aug col) in
      ok (eliminate 0 col pivot_row (set aug col pivot_row))
]

-- One round of the loop over the columns.
unfoldable pub gauss_round : ℕ → ℕ → Matrix → Result Error Matrix
gauss_round n col aug = elim (find_pivot (n - col) col col aug) [
  | none ↦ err (singular col)
  | some pivot ↦ reduce_column col (swap_rows aug col pivot)
]

unfoldable pub gauss : ℕ → ℕ → ℕ → Matrix → Result Error Matrix
gauss zero col n aug = ok aug
gauss (suc k) col n aug = gauss_round n col aug >>= λ next. gauss k (suc col) n next

unfoldable pub invert_matrix : Matrix → ℕ → Result Error Matrix
invert_matrix m n = gauss n 0 n (augment n 0 n m) >>= λ aug. ok (map (drop n) aug)
