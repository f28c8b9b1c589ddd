-- ===== src/Erasure/Field.antt =====
-- internal/erasure/rs_internal.go: arithmetic in GF(2^8) by logarithm tables.
-- A byte is a number with the bound `IsByte`; a Go array is a function from its indices.
pub mod Tables
pub mod Laws
use vyomanaut_v.Base.{
  ℕ, zero, suc, ◌+◌, ◌-◌, ◌*◌, ◌/◌, ◌%◌, ◌<◌, Bool, ◌||◌, Option, none, some, bit_xor, ◌==◌, leb,
  if◌then◌else◌,
}

abbrev pub IsByte : ℕ → Type 0
IsByte b = b < 256

-- A write to an array.
abbrev update : (ℕ → ℕ) → ℕ → ℕ → (ℕ → ℕ)
update f i v = λ j. if j == i then v else f j

-- The two tables and the loop variable `x` of `init`.
pub record LogTables : Type 0 where
  pub exp : ℕ → ℕ
  pub log : ℕ → ℕ
  pub x : ℕ

-- `x <<= 1; if x&0x100 != 0 { x ^= 0x11d }`
unfoldable pub double : ℕ → ℕ
double x = if (2 * x / 256) % 2 == 0 then 2 * x else bit_xor (2 * x) 0x11d

-- One round of the first loop of `init`.
fill_round : ℕ → LogTables → LogTables
unfolding double
fill_round i t = record {
  exp = update t.exp i (t.x % 256);
  log = update t.log (t.x % 256) (i % 256);
  x = double t.x;
}

-- The first loop, from round `i` on, with `n` rounds left.
fill : ℕ → ℕ → LogTables → LogTables
unfolding fill_round
fill zero i t = t
fill (suc n) i t = fill n (suc i) (fill_round i t)

-- The second loop, which repeats the table from index 255 on.
repeat : ℕ → ℕ → (ℕ → ℕ) → (ℕ → ℕ)
repeat zero i exp = exp
repeat (suc n) i exp = repeat n (suc i) (update exp i (exp (i - 255)))

filled : LogTables
unfolding fill
filled = fill 255 0 (record { exp = λ i. 0; log = λ i. 0; x = 1 })

unfoldable pub gf_exp : ℕ → ℕ
unfolding filled repeat
gf_exp = repeat 257 255 filled.exp

unfoldable pub gf_log : ℕ → ℕ
unfolding filled
gf_log = filled.log

unfoldable pub gf_mul : ℕ → ℕ → ℕ
gf_mul a b = if a == 0 || b == 0 then 0 else gf_exp (gf_log a + gf_log b)

unfoldable pub gf_pow : ℕ → ℕ → ℕ
gf_pow x power = if power == 0 then 1 else if x == 0 then 0 else gf_exp ((gf_log x * power) % 255)

-- The panic at 0 is `none`.
unfoldable pub gf_inv : ℕ → Option ℕ
gf_inv x = if x == 0 then none else some (gf_exp (255 - gf_log x))

-- The array is the function; `gfMulTable` fills it from `gfMul`.
unfoldable pub gf_mul_table : ℕ → (ℕ → ℕ)
gf_mul_table factor = λ x. gf_mul factor x
