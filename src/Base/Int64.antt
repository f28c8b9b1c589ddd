-- ===== src/Base/Int64.antt =====
-- Go's int64 as its bit pattern, a number below 2^64, with the wrap-around of each operation.
-- A divisor is not negative in the code that the development models.
use Prim.Native.Nat.{ℕ, ◌+◌, ◌-◌, ◌*◌, ◌/◌, ◌%◌, ◌<◌, ◌≤◌}
use mathlib.Core.Path.{◌≡◌, ap}
use mathlib.Core.Bool.{Bool}
use native.Mathlib.Omega.{arith}
use vyomanaut_v.Base.Tests.{ltb, if◌then◌else◌, lt→ltb}

abbrev pub word : ℕ
word = 18446744073709551616

-- From here on a pattern is a negative number.
abbrev pub half : ℕ
half = 9223372036854775808

abbrev pub add_i64 : ℕ → ℕ → ℕ
add_i64 a b = (a + b) % word

abbrev pub sub_i64 : ℕ → ℕ → ℕ
sub_i64 a b = (a + (word - b)) % word

abbrev pub mul_i64 : ℕ → ℕ → ℕ
mul_i64 a b = (a * b) % word

-- Division rounds toward zero, and the remainder has the sign of the dividend.
abbrev pub div_i64 : ℕ → ℕ → ℕ
div_i64 a b = if ltb a half then a / b else (word - (word - a) / b) % word

abbrev pub rem_i64 : ℕ → ℕ → ℕ
rem_i64 a b = if ltb a half then a % b else (word - (word - a) % b) % word

abbrev pub lt_i64 : ℕ → ℕ → Bool
lt_i64 a b = ltb ((a + half) % word) ((b + half) % word)

pub add_i64-small : (a b : ℕ) → a + b < word → add_i64 a b ≡ a + b
add_i64-small a b h = omega arith

pub sub_i64-small : (a b : ℕ) → b ≤ a → a < word → sub_i64 a b ≡ a - b
sub_i64-small a b le h = omega arith

pub mul_i64-small : (a b : ℕ) → a * b < half → mul_i64 a b ≡ a * b
mul_i64-small a b h = omega arith

pub div_i64-small : (a b : ℕ) → a < half → div_i64 a b ≡ a / b
div_i64-small a b h =
    ap (λ (t : Bool). if t then a / b else (word - (word - a) / b) % word) (lt→ltb a half h)

pub rem_i64-small : (a b : ℕ) → a < half → rem_i64 a b ≡ a % b
rem_i64-small a b h =
    ap (λ (t : Bool). if t then a % b else (word - (word - a) % b) % word) (lt→ltb a half h)
