-- ===== src/Payment/Charge/Distinct.antt =====
-- The shares of `splitByLargestRemainder` (charge.go) have distinct keys.
use mathlib.Core.Option.{some-injective}
use native.Mathlib.Nat.{zero-add}
use vyomanaut_v.Base.{
  ℕ, zero, suc, ◌<◌, ◌≡◌, ◌≢◌, sym, ◌∙◌, List, [], ◌∷◌, map, some, All, arith, ltb, ◌==◌, ==_iff,
  Bool-cases, inl, inr, subst,
}
use vyomanaut_v.Base.Int64.{half}
use vyomanaut_v.Payment.Charge.{
  Entries, increment, insert_id, sort_ids, base_shares, remainders, sort_remainders, hand_out,
  split_by_largest_remainder,
}
use vyomanaut_v.Payment.Charge.Sums.{sum, IsMap, total_shards-sum}
use vyomanaut_v.Payment.Charge.Split.{split_lem}

All-insert_id : (P : ℕ → Type 0) (x : ℕ) (ids : List ℕ) → P x → All P ids → All P (insert_id x ids)
unfolding insert_id
All-insert_id P x [] hx h = (hx, tt)
All-insert_id P x (y ∷ ys) hx h = elim (Bool-cases (ltb y x)) [
  | inl e ↦ rw (e) (h.0, All-insert_id P x ys hx h.1)
  | inr e ↦ rw (e) (hx, h)
]

Apart : List ℕ → Type 0
Apart [] = Unit
Apart (x ∷ xs) = All (λ y. x ≢ y) xs × Apart xs

insert_id-Apart :
    (x : ℕ) (ids : List ℕ) → All (λ y. x ≢ y) ids → Apart ids → Apart (insert_id x ids)
unfolding insert_id Apart
insert_id-Apart x [] hx h = (tt, tt)
insert_id-Apart x (y ∷ ys) hx h = elim (Bool-cases (ltb y x)) [
  | inl e ↦
      rw (e)
        (All-insert_id (λ z. y ≢ z) x ys (λ q. hx.0 (sym q)) h.0, insert_id-Apart x ys hx.1 h.1)
  | inr e ↦ rw (e) (hx, h)
]

All-sort_ids : (P : ℕ → Type 0) (ids : List ℕ) → All P ids → All P (sort_ids ids)
unfolding sort_ids
All-sort_ids P [] h = tt
All-sort_ids P (x ∷ ids) h = All-insert_id P x (sort_ids ids) h.0 (All-sort_ids P ids h.1)

sort_ids-Apart : (ids : List ℕ) → Apart ids → Apart (sort_ids ids)
unfolding sort_ids Apart
sort_ids-Apart [] h = tt
sort_ids-Apart (x ∷ ids) h =
    insert_id-Apart x (sort_ids ids) (All-sort_ids (λ y. x ≢ y) ids h.0) (sort_ids-Apart ids h.1)

All-keys : (P : ℕ → Type 0) (m : Entries) → All (λ d. P d.0) m → All P (map (λ e. e.0) m)
All-keys P [] h = tt
All-keys P (e ∷ m) h = (h.0, All-keys P m h.1)

keys-Apart : (m : Entries) → IsMap m → Apart (map (λ e. e.0) m)
unfolding Apart
keys-Apart [] h = tt
keys-Apart (e ∷ m) h = (All-keys (λ k. e.0 ≢ k) m h.0, keys-Apart m h.1)

All-base_shares :
    (P : ℕ → Type 0) (t n : ℕ) (counts : Entries) (ids : List ℕ)
    → All P ids
    → All (λ d. P d.0) (base_shares t n counts ids)
unfolding base_shares
All-base_shares P t n counts [] h = tt
All-base_shares P t n counts (id ∷ ids) h = (h.0, All-base_shares P t n counts ids h.1)

base_shares-IsMap :
    (t n : ℕ) (counts : Entries) (ids : List ℕ) → Apart ids → IsMap (base_shares t n counts ids)
unfolding base_shares Apart
base_shares-IsMap t n counts [] h = tt
base_shares-IsMap t n counts (id ∷ ids) h =
    (All-base_shares (λ k. id ≢ k) t n counts ids h.0, base_shares-IsMap t n counts ids h.1)

All-increment :
    (P : ℕ → Type 0) (id : ℕ) (m : Entries)
    → P id
    → All (λ d. P d.0) m
    → All (λ d. P d.0) (increment id m)
unfolding increment
All-increment P id [] hi h = (hi, tt)
All-increment P id ((k, v) ∷ m) hi h = elim (Bool-cases (k == id)) [
  | inl e ↦ rw (e) (h.0, h.1)
  | inr e ↦ rw (e) (h.0, All-increment P id m hi h.1)
]

increment-IsMap : (id : ℕ) (m : Entries) → IsMap m → IsMap (increment id m)
unfolding increment
increment-IsMap id [] h = (tt, tt)
increment-IsMap id ((k, v) ∷ m) h = elim (Bool-cases (k == id)) [
  | inl e ↦ rw (e) (h.0, h.1)
  | inr e ↦ rw (e) (
    All-increment (λ q. k ≢ q) id m (λ q. ground (arith, e, (==_iff k id).1 q)) h.0,
    increment-IsMap id m h.1,
  )
]

hand_out-IsMap : (k : ℕ) (rs m out : Entries) → IsMap m → hand_out k rs m ≡ some out → IsMap out
unfolding hand_out
hand_out-IsMap zero rs m out h e = subst IsMap (some-injective m out e) h
hand_out-IsMap (suc k) [] m out h e = cc
hand_out-IsMap (suc k) (r ∷ rs) m out h e =
    hand_out-IsMap k rs (increment r.0 m) out (increment-IsMap r.0 m h) e

pub split_by_largest_remainder-IsMap :
    (t : ℕ) (counts shares : Entries)
    → IsMap counts
    → sum counts ≢ 0
    → sum counts < half
    → split_by_largest_remainder t counts ≡ some shares
    → IsMap shares
split_by_largest_remainder-IsMap t counts shares is_map nz small e =
    let ids : List ℕ = sort_ids (map (λ e. e.0) counts) in
    hand_out-IsMap _ (sort_remainders (remainders t (sum counts) counts ids))
      (base_shares t (sum counts) counts ids) shares
      (base_shares-IsMap t (sum counts) counts ids
        (sort_ids-Apart (map (λ e. e.0) counts) (keys-Apart counts is_map)))
      (sym (
          split_lem t (sum counts) counts
            (total_shards-sum counts 0 (omega arith) ∙ zero-add (sum counts)) nz)
        ∙ e)
