-- ===== src/Payment/Charge.antt =====
-- internal/payment/charge.go: the monthly cost of a file and its split among the shard holders.
-- An identifier is its 128-bit number, whose order is that of its lowercase hexadecimal string. A Go
-- map is an association list with distinct keys, in the order in which a loop visits it.
pub mod Sums
pub mod Split
pub mod Distinct
pub mod Distribution
use vyomanaut_v.Base.{
  ℕ, zero, suc, ◌+◌, ◌*◌, ◌≤◌, Bool, true, false, List, [], ◌∷◌, map, Option, none, some, ltb, ◌==◌,
  if◌then◌else◌,
}
use vyomanaut_v.Base.Int64.{add_i64, sub_i64, mul_i64, div_i64, rem_i64, lt_i64, half}

abbrev pub Entries : Type 0
Entries = List (ℕ × ℕ)

abbrev pub bytes_per_gb : ℕ
bytes_per_gb = 1073741824

abbrev pub rounding_half_bytes : ℕ
rounding_half_bytes = 536870912

unfoldable pub file_monthly_cost_paise : ℕ → ℕ → ℕ
file_monthly_cost_paise size_bytes rate =
    div_i64 (add_i64 (mul_i64 size_bytes rate) rounding_half_bytes) bytes_per_gb

-- `m[id]`, which is 0 on a missing key.
unfoldable pub value_at : Entries → ℕ → ℕ
value_at [] id = 0
value_at ((k, v) ∷ m) id = if k == id then v else value_at m id

-- `m[id]++`.
unfoldable pub increment : ℕ → Entries → Entries
increment id [] = (id, 1) ∷ []
increment id ((k, v) ∷ m) = if k == id then (k, add_i64 v 1) ∷ m else (k, v) ∷ increment id m

-- The first loop: the total of the counts.
unfoldable pub total_shards : Entries → ℕ → ℕ
total_shards [] acc = acc
total_shards ((k, c) ∷ counts) acc = total_shards counts (add_i64 acc c)

-- `sort.Slice` by identifier.
unfoldable pub insert_id : ℕ → List ℕ → List ℕ
insert_id x [] = x ∷ []
insert_id x (y ∷ ys) = if ltb y x then y ∷ insert_id x ys else x ∷ y ∷ ys

unfoldable pub sort_ids : List ℕ → List ℕ
sort_ids [] = []
sort_ids (x ∷ xs) = insert_id x (sort_ids xs)

-- The second loop: `shares`, `remainders` and `distributed`.
unfoldable pub base_shares : ℕ → ℕ → Entries → List ℕ → Entries
base_shares total_paise n counts [] = []
base_shares total_paise n counts (id ∷ ids) =
    (id, div_i64 (mul_i64 total_paise (value_at counts id)) n)
    ∷ base_shares total_paise n counts ids

unfoldable pub remainders : ℕ → ℕ → Entries → List ℕ → Entries
remainders total_paise n counts [] = []
remainders total_paise n counts (id ∷ ids) =
    (id, rem_i64 (mul_i64 total_paise (value_at counts id)) n) ∷ remainders total_paise n counts ids

unfoldable pub distributed : Entries → ℕ → ℕ
distributed [] acc = acc
distributed ((id, base) ∷ shares) acc = distributed shares (add_i64 acc base)

-- `sort.SliceStable`, descending by the remainder.
unfoldable pub insert_remainder : ℕ × ℕ → Entries → Entries
insert_remainder r [] = r ∷ []
insert_remainder r (s ∷ rs) = if lt_i64 r.1 s.1 then s ∷ insert_remainder r rs else r ∷ s ∷ rs

unfoldable pub sort_remainders : Entries → Entries
sort_remainders [] = []
sort_remainders (r ∷ rs) = insert_remainder r (sort_remainders rs)

-- The last loop, for `k` rounds; an index out of range panics, which is `none`.
unfoldable pub hand_out : ℕ → Entries → Entries → Option Entries
hand_out zero rs shares = some shares
hand_out (suc k) [] shares = none
hand_out (suc k) (r ∷ rs) shares = hand_out k rs (increment r.0 shares)

-- The rounds of `for i := 0; i < leftover; i++`.
abbrev pub rounds : ℕ → ℕ
rounds leftover = if ltb leftover half then leftover else 0

-- The nil map is the empty one.
unfoldable pub split_by_largest_remainder : ℕ → Entries → Option Entries
split_by_largest_remainder total_paise counts =
    let n = total_shards counts 0 in
    if n == 0
    then some []
    else let ids = sort_ids (map (λ e. e.0) counts) in
      let shares = base_shares total_paise n counts ids in
      let leftover = sub_i64 total_paise (distributed shares 0) in
      hand_out (rounds leftover) (sort_remainders (remainders total_paise n counts ids)) shares
