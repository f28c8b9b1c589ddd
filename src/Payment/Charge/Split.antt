-- ===== src/Payment/Charge/Split.antt =====
-- `splitByLargestRemainder` (charge.go) gives out exactly the total.
use vyomanaut_v.Base.{
  ℕ, ◌+◌, ◌-◌, ◌*◌, ◌/◌, ◌%◌, ◌≤◌, ◌<◌, ◌≡◌, ◌≢◌, refl, ap, ◌∙◌, Bool, List, map, arith, lt→ltb,
  ==_ne, if◌then◌else◌, length, some,
}
use vyomanaut_v.Base.Int64.{sub_i64, half, sub_i64-small}
use native.Mathlib.Nat.{mul-le-mul_left, le_of_mul-le-mul_left, mul_comm, add-mul, zero-add}
use vyomanaut_v.Payment.Charge.{
  Entries, value_at, total_shards, sort_ids, base_shares, remainders, distributed, sort_remainders,
  hand_out, rounds, split_by_largest_remainder,
}
use vyomanaut_v.Payment.Charge.Sums.{
  sum, weigh, IsMap, total_shards-sum, distributed-sum, weigh-sort_ids, length-sort_remainders,
  weigh-value_at, value_at-le, base_shares-map, length-remainders, sum-map_pair, weigh-div-mod,
  weigh-mod-le, sum-hand_out,
}

le_of_mul : (n a b : ℕ) → 0 < n → a * n ≤ b * n → a ≤ b
le_of_mul n a b h le =
    le_of_mul-le-mul_left {m = a} {n = b} {k = n} (omega (arith, mul_comm n a, mul_comm n b)) h

rounds-small : (t base : ℕ) → base ≤ t → t < half → rounds (sub_i64 t base) ≡ t - base
rounds-small t base le h =
    ap rounds (sub_i64-small t base le (omega arith))
    ∙ ap (λ (b : Bool). if b then t - base else 0) (lt→ltb (t - base) half (omega arith))

pub split_lem :
    (t n : ℕ) (counts : Entries)
    → total_shards counts 0 ≡ n
    → n ≢ 0
    → split_by_largest_remainder t counts
      ≡ hand_out
          (rounds
            (sub_i64 t (distributed (base_shares t n counts (sort_ids (map (λ e. e.0) counts))) 0)))
          (sort_remainders (remainders t n counts (sort_ids (map (λ e. e.0) counts))))
          (base_shares t n counts (sort_ids (map (λ e. e.0) counts)))
unfolding split_by_largest_remainder
split_lem t n counts e nz = rw (e, ==_ne n 0 nz) refl

-- The split of `t` paise succeeds, with no index out of range, and its shares add up to exactly `t`,
-- for a map of counts with a sum other than 0, when `t` times the sum stays below 2^63.
pub split_by_largest_remainder-sum :
    (t : ℕ) (counts : Entries)
    → IsMap counts
    → sum counts ≢ 0
    → t < half
    → sum counts < half
    → t * sum counts < half
    → (shares : Entries) × (split_by_largest_remainder t counts ≡ some shares) × (sum shares ≡ t)
split_by_largest_remainder-sum t counts is_map nz t_small n_small small =
    let n : ℕ = sum counts in
    let ids : List ℕ = sort_ids (map (λ e. e.0) counts) in
    let plain : (id : ℕ) → t * value_at counts id < half =
      λ id. omega (arith, mul-le-mul_left t (value_at-le counts id)) in
    let base : ℕ = weigh (λ id. t * value_at counts id / n) ids in
    let over : ℕ = weigh (λ id. t * value_at counts id % n) ids in
    let base_sum : sum (base_shares t n counts ids) ≡ base =
      ap sum (base_shares-map t n counts plain ids)
      ∙ sum-map_pair (λ id. t * value_at counts id / n) ids in
    let all : base * n + over ≡ t * n =
      weigh-div-mod (value_at counts) t n ids
      ∙ ap (λ (s : ℕ). t * s)
          (weigh-sort_ids (value_at counts) (map (λ e. e.0) counts)
            ∙ weigh-value_at counts is_map) in
    let base_le : base ≤ t = le_of_mul n base t (omega arith) (omega (arith, all)) in
    let left_le : t - base ≤ length ids = omega (
      arith,
      le_of_mul n t (base + length ids) (omega arith) (
          omega (
            arith,
            all,
            add-mul base (length ids) n,
            weigh-mod-le (λ id. t * value_at counts id) n ids (omega arith),
          )),
    ) in
    let left : rounds (sub_i64 t (distributed (base_shares t n counts ids) 0)) ≡ t - base =
      ap (λ (d : ℕ). rounds (sub_i64 t d))
        (distributed-sum (base_shares t n counts ids) 0 (omega (arith, base_sum))
          ∙ zero-add (sum (base_shares t n counts ids))
          ∙ base_sum)
      ∙ rounds-small t base base_le t_small in
    let (out, e, s) =
      sum-hand_out (t - base) (sort_remainders (remainders t n counts ids))
        (base_shares t n counts ids)
        (omega (
          arith,
          left_le,
          length-sort_remainders (remainders t n counts ids),
          length-remainders t n counts plain ids,
        ))
        (omega (arith, base_sum, base_le)) in
    (
      out,
      split_lem t n counts (total_shards-sum counts 0 (omega arith) ∙ zero-add n) nz
          ∙ ap
              (λ (k : ℕ).
                hand_out k (sort_remainders (remainders t n counts ids))
                  (base_shares t n counts ids))
              left
          ∙ e,
      s ∙ omega (arith, base_sum, base_le),
    )
