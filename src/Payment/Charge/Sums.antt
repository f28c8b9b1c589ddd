-- ===== src/Payment/Charge/Sums.antt =====
-- The sums of the split (charge.go) without wrap-around, and what sorting keeps of them.
use vyomanaut_v.Base.{
  ℕ, zero, suc, ◌+◌, ◌*◌, ◌/◌, ◌%◌, ◌≤◌, ◌<◌, ◌≡◌, ◌≢◌, refl, ap, ap₂, ◌∙◌, Bool, List, [], ◌∷◌,
  map, arith, ltb, ◌==◌, if◌then◌else◌, length, All, Bool-cases, inl, inr, ==_refl, ==_ne, some,
}
use vyomanaut_v.Base.Int64.{
  div_i64, lt_i64, word, half, add_i64-small, mul_i64-small, div_i64-small,
}
use native.Mathlib.Nat.{mul-add, add-mul, div-add-mod', mod-lt, suc-mul}
use vyomanaut_v.Payment.Charge.{
  Entries, value_at, increment, total_shards, insert_id, sort_ids, base_shares, remainders,
  distributed, insert_remainder, sort_remainders, hand_out,
}

-- The sum of the values of a map.
abbrev pub sum : Entries → ℕ
sum [] = 0
sum (e ∷ m) = e.1 + sum m

abbrev pub weigh : (ℕ → ℕ) → List ℕ → ℕ
weigh f [] = 0
weigh f (id ∷ ids) = f id + weigh f ids

-- A Go map has distinct keys.
abbrev pub IsMap : Entries → Type 0
IsMap [] = Unit
IsMap (e ∷ m) = All (λ d. e.0 ≢ d.0) m × IsMap m

pub total_shards-sum :
    (counts : Entries) (acc : ℕ)
    → acc + sum counts < word
    → total_shards counts acc ≡ acc + sum counts
unfolding total_shards
total_shards-sum [] acc h = omega arith
total_shards-sum ((k, c) ∷ counts) acc h =
    ap (total_shards counts) (add_i64-small acc c (omega arith))
    ∙ total_shards-sum counts (acc + c) (omega arith)
    ∙ omega arith

pub distributed-sum :
    (shares : Entries) (acc : ℕ)
    → acc + sum shares < word
    → distributed shares acc ≡ acc + sum shares
unfolding distributed
distributed-sum [] acc h = omega arith
distributed-sum ((k, c) ∷ shares) acc h =
    ap (distributed shares) (add_i64-small acc c (omega arith))
    ∙ distributed-sum shares (acc + c) (omega arith)
    ∙ omega arith

weigh-insert_id : (f : ℕ → ℕ) (x : ℕ) (ids : List ℕ) → weigh f (insert_id x ids) ≡ f x + weigh f ids
unfolding insert_id
weigh-insert_id f x [] = refl
weigh-insert_id f x (y ∷ ys) = elim (Bool-cases (ltb y x)) [
  | inl e ↦ rw (e) (ap (λ (t : ℕ). f y + t) (weigh-insert_id f x ys) ∙ omega arith)
  | inr e ↦ rw (e) refl
]

pub weigh-sort_ids : (f : ℕ → ℕ) (ids : List ℕ) → weigh f (sort_ids ids) ≡ weigh f ids
unfolding sort_ids
weigh-sort_ids f [] = refl
weigh-sort_ids f (x ∷ ids) =
    weigh-insert_id f x (sort_ids ids) ∙ ap (λ (t : ℕ). f x + t) (weigh-sort_ids f ids)

length-insert_id : (x : ℕ) (ids : List ℕ) → length (insert_id x ids) ≡ suc (length ids)
unfolding insert_id
length-insert_id x [] = refl
length-insert_id x (y ∷ ys) = elim (Bool-cases (ltb y x)) [
  | inl e ↦ rw (e) (ap suc (length-insert_id x ys))
  | inr e ↦ rw (e) refl
]

length-insert_remainder :
    (r : ℕ × ℕ) (rs : Entries) → length (insert_remainder r rs) ≡ suc (length rs)
unfolding insert_remainder
length-insert_remainder r [] = refl
length-insert_remainder r (s ∷ rs) = elim (Bool-cases (lt_i64 r.1 s.1)) [
  | inl e ↦ rw (e) (ap suc (length-insert_remainder r rs))
  | inr e ↦ rw (e) refl
]

pub length-sort_remainders : (rs : Entries) → length (sort_remainders rs) ≡ length rs
unfolding sort_remainders
length-sort_remainders [] = refl
length-sort_remainders (r ∷ rs) =
    length-insert_remainder r (sort_remainders rs) ∙ ap suc (length-sort_remainders rs)

weigh_ext :
    (f : ℕ → ℕ) (m sub : Entries)
    → All (λ e. f e.0 ≡ e.1) sub
    → weigh f (map (λ e. e.0) sub) ≡ sum sub
weigh_ext f m [] h = refl
weigh_ext f m (e ∷ sub) h = ap₂ (λ (x y : ℕ). x + y) h.0 (weigh_ext f m sub h.1)

value_at_tail :
    (k v : ℕ) (m sub : Entries)
    → All (λ d. k ≢ d.0) sub
    → All (λ e. value_at m e.0 ≡ e.1) sub
    → All (λ e. value_at ((k, v) ∷ m) e.0 ≡ e.1) sub
unfolding value_at
value_at_tail k v m [] hk h = tt
value_at_tail k v m (e ∷ sub) hk h = (
  ap (λ (t : Bool). if t then v else value_at m e.0) (==_ne k e.0 hk.0) ∙ h.0,
  value_at_tail k v m sub hk.1 h.1,
)

value_at-IsMap : (m : Entries) → IsMap m → All (λ e. value_at m e.0 ≡ e.1) m
value_at-IsMap [] h = tt
value_at-IsMap ((k, v) ∷ m) h = (
  unfold value_at in ap (λ (t : Bool). if t then v else value_at m k) (==_refl k),
  value_at_tail k v m m h.0 (value_at-IsMap m h.1),
)

-- The values at the keys of a map add up to its sum.
pub weigh-value_at : (m : Entries) → IsMap m → weigh (value_at m) (map (λ e. e.0) m) ≡ sum m
weigh-value_at m h = weigh_ext (value_at m) m m (value_at-IsMap m h)

pub value_at-le : (m : Entries) (id : ℕ) → value_at m id ≤ sum m
unfolding value_at
value_at-le [] id = omega arith
value_at-le ((k, v) ∷ m) id = elim (Bool-cases (k == id)) [
  | inl e ↦ rw (e) (omega arith)
  | inr e ↦ rw (e) (omega (arith, value_at-le m id))
]

-- The shares and the remainders without wrap-around.
module _ (t n : ℕ) (counts : Entries) (small : (id : ℕ) → t * value_at counts id < half) where
  pub base_shares-map :
      (ids : List ℕ) → base_shares t n counts ids ≡ map (λ id. (id, t * value_at counts id / n)) ids
  unfolding base_shares
  base_shares-map [] = refl
  base_shares-map (id ∷ ids) =
      ap₂ (λ (b : ℕ) (m : Entries). (id, b) ∷ m)
        (ap (λ (p : ℕ). div_i64 p n) (mul_i64-small t (value_at counts id) (small id))
          ∙ div_i64-small (t * value_at counts id) n (small id))
        (base_shares-map ids)

  pub length-remainders : (ids : List ℕ) → length (remainders t n counts ids) ≡ length ids
  unfolding remainders
  length-remainders [] = refl
  length-remainders (id ∷ ids) = ap suc (length-remainders ids)

pub sum-map_pair : (g : ℕ → ℕ) (ids : List ℕ) → sum (map (λ id. (id, g id)) ids) ≡ weigh g ids
sum-map_pair g [] = refl
sum-map_pair g (id ∷ ids) = ap (λ (t : ℕ). g id + t) (sum-map_pair g ids)

-- Quotients and remainders of the shares of `t`.
pub weigh-div-mod :
    (f : ℕ → ℕ) (t n : ℕ) (ids : List ℕ)
    → weigh (λ id. t * f id / n) ids * n + weigh (λ id. t * f id % n) ids ≡ t * weigh f ids
weigh-div-mod f t n [] = omega arith
weigh-div-mod f t n (id ∷ ids) =
    let q : ℕ = weigh (λ id. t * f id / n) ids in
    omega (
      arith,
      add-mul (t * f id / n) q n,
      mul-add t (f id) (weigh f ids),
      div-add-mod' (t * f id) n,
      weigh-div-mod f t n ids,
    )

pub weigh-mod-le :
    (g : ℕ → ℕ) (n : ℕ) (ids : List ℕ) → 0 < n → weigh (λ id. g id % n) ids ≤ length ids * n
weigh-mod-le g n [] h = omega arith
weigh-mod-le g n (id ∷ ids) h =
    omega (arith, suc-mul (length ids) n, mod-lt (g id) h, weigh-mod-le g n ids h)

sum-increment : (id : ℕ) (m : Entries) → sum m < half → sum (increment id m) ≡ suc (sum m)
unfolding increment
sum-increment id [] h = refl
sum-increment id ((k, v) ∷ m) h = elim (Bool-cases (k == id)) [
  | inl e ↦ rw (e) (ap (λ (t : ℕ). t + sum m) (add_i64-small v 1 (omega arith)) ∙ omega arith)
  | inr e ↦ rw (e) (ap (λ (t : ℕ). v + t) (sum-increment id m (omega arith)) ∙ omega arith)
]

-- Handing out one paise in each round never runs out of entries, and adds up.
pub sum-hand_out :
    (k : ℕ) (rs shares : Entries)
    → k ≤ length rs
    → sum shares + k < half
    → (out : Entries) × (hand_out k rs shares ≡ some out) × (sum out ≡ sum shares + k)
unfolding hand_out
sum-hand_out zero rs shares l h = (shares, refl, omega arith)
sum-hand_out (suc k) [] shares l h = absurd (omega arith)
sum-hand_out (suc k) (r ∷ rs) shares l h =
    let one = sum-increment r.0 shares (omega arith) in
    let (out, e, s) = sum-hand_out k rs (increment r.0 shares) (omega arith) (omega (arith, one)) in
    (out, e, omega (arith, s, one))
