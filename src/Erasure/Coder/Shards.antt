-- ===== src/Erasure/Coder/Shards.antt =====
-- The shards byte by byte: the loops of `encode` and `reconstruct` compute rows times columns.
use vyomanaut_v.Base.{
  ℕ, zero, suc, ◌+◌, ◌<◌, ◌≤◌, ◌≡◌, refl, sym, ap, ap₂, ◌∙◌, Bool, List, [], ◌∷◌, map, Option, none,
  some, arith, bit_xor, length, get_or, All, if◌then◌else◌, ◌==◌, Bool-cases, inl, inr, ==_iff,
  ==_refl, not,
}
use native.Mathlib.Nat.{add-zero}
use vyomanaut_v.Base.Xor.{xor-zero, xor_assoc}
use vyomanaut_v.Base.Result.{ok, err}
use vyomanaut_v.Erasure.Field.{gf_mul, gf_mul_table}
use vyomanaut_v.Erasure.Field.Laws.{zero-gf_mul}
use vyomanaut_v.Erasure.Row.{dot}
use vyomanaut_v.Erasure.Matrix.{shard_size}
use vyomanaut_v.Erasure.Coder.{
  Encoder, xor_table, accumulate, encoding_row, select_shards, survey, check_shards,
}
use vyomanaut_v.Erasure.Coder.Systematic.{Rising}

-- Byte `b` of every shard.
abbrev pub column : ℕ → List (List ℕ) → List ℕ
column b = map (λ s. get_or s b 0)

length-xor_table : (f : ℕ → ℕ) (ds ps : List ℕ) → length (xor_table f ds ps) ≡ length ps
unfolding xor_table
length-xor_table f ds [] = refl
length-xor_table f [] (p ∷ ps) = refl
length-xor_table f (d ∷ ds) (p ∷ ps) = ap suc (length-xor_table f ds ps)

get_or-xor_table :
    (f : ℕ → ℕ) (ds ps : List ℕ) (b : ℕ)
    → b < length ds
    → b < length ps
    → get_or (xor_table f ds ps) b 0 ≡ bit_xor (get_or ps b 0) (f (get_or ds b 0))
unfolding xor_table
get_or-xor_table f [] ps b hd hp = absurd (omega arith)
get_or-xor_table f (d ∷ ds) [] b hd hp = absurd (omega arith)
get_or-xor_table f (d ∷ ds) (p ∷ ps) zero hd hp = refl
get_or-xor_table f (d ∷ ds) (p ∷ ps) (suc b) hd hp =
    get_or-xor_table f ds ps b (omega arith) (omega arith)

abbrev add_shard : ℕ → List ℕ → List ℕ → List ℕ
add_shard f ds ps = if f == 0 then ps else xor_table (gf_mul_table f) ds ps

length-add_shard : (f : ℕ) (ds ps : List ℕ) → length (add_shard f ds ps) ≡ length ps
length-add_shard f ds ps = elim (Bool-cases (f == 0)) [
  | inl e ↦ rw (e) refl
  | inr e ↦ rw (e) (length-xor_table (gf_mul_table f) ds ps)
]

get_or-add_shard :
    (f : ℕ) (ds ps : List ℕ) (b : ℕ)
    → b < length ds
    → b < length ps
    → get_or (add_shard f ds ps) b 0 ≡ bit_xor (get_or ps b 0) (gf_mul f (get_or ds b 0))
unfolding gf_mul_table
get_or-add_shard f ds ps b hd hp = elim (Bool-cases (f == 0)) [
  | inl e ↦ rw (e, (==_iff f 0).0 e, zero-gf_mul (get_or ds b 0)) (sym (xor-zero (get_or ps b 0)))
  | inr e ↦ rw (e) (get_or-xor_table (gf_mul f) ds ps b hd hp)
]

pub length-accumulate :
    (row : List ℕ) (shards : List (List ℕ)) (ps : List ℕ)
    → length (accumulate row shards ps) ≡ length ps
unfolding accumulate
length-accumulate [] shards ps = refl
length-accumulate (f ∷ row) [] ps = refl
length-accumulate (f ∷ row) (ds ∷ shards) ps =
    length-accumulate row shards (add_shard f ds ps) ∙ length-add_shard f ds ps

-- Byte `b` of the accumulated shard.
pub get_or-accumulate :
    (row : List ℕ) (shards : List (List ℕ)) (ps : List ℕ) (b : ℕ)
    → All (λ s. b < length s) shards
    → b < length ps
    → get_or (accumulate row shards ps) b 0 ≡ bit_xor (get_or ps b 0) (dot row (column b shards))
unfolding accumulate dot
get_or-accumulate [] shards ps b hs hp = sym (xor-zero (get_or ps b 0))
get_or-accumulate (f ∷ row) [] ps b hs hp = sym (xor-zero (get_or ps b 0))
get_or-accumulate (f ∷ row) (ds ∷ shards) ps b hs hp =
    get_or-accumulate row shards (add_shard f ds ps) b hs.1
      (omega (arith, length-add_shard f ds ps))
    ∙ ap (λ (t : ℕ). bit_xor t (dot row (column b shards))) (get_or-add_shard f ds ps b hs.0 hp)
    ∙ xor_assoc (get_or ps b 0) (gf_mul f (get_or ds b 0)) (dot row (column b shards))

-- How many shards are at hand.
abbrev pub present {ℓ} : {A : Type ℓ} → List (Option A) → ℕ
present [] = 0
present (none ∷ shards) = present shards
present (some s ∷ shards) = suc (present shards)

-- The shards at hand, from index `i` on, are those of `code`.
abbrev pub From : (ℕ → List ℕ) → ℕ → List (Option (List ℕ)) → Type 0
From code i [] = Unit
From code i (none ∷ shards) = From code (suc i) shards
From code i (some s ∷ shards) = (s ≡ code i) × From code (suc i) shards

-- The indices of the shards that `select_shards` takes.
abbrev pub picked {ℓ} : {A : Type ℓ} → ℕ → ℕ → List (Option A) → List ℕ
picked i need [] = []
picked i zero (s ∷ shards) = []
picked i (suc need) (none ∷ shards) = picked (suc i) (suc need) shards
picked i (suc need) (some s ∷ shards) = i ∷ picked (suc i) need shards

pub select_shards-rows :
    (enc : Encoder) (i need : ℕ) (shards : List (Option (List ℕ)))
    → map (λ p. p.0) (select_shards enc i need shards)
      ≡ map (encoding_row enc) (picked i need shards)
unfolding select_shards
select_shards-rows enc i need [] = refl
select_shards-rows enc i zero (s ∷ shards) = refl
select_shards-rows enc i (suc need) (none ∷ shards) =
    select_shards-rows enc (suc i) (suc need) shards
select_shards-rows enc i (suc need) (some s ∷ shards) =
    ap (λ (t : List (List ℕ)). encoding_row enc i ∷ t) (select_shards-rows enc (suc i) need shards)

pub select_shards-shards :
    (enc : Encoder) (code : ℕ → List ℕ) (i need : ℕ) (shards : List (Option (List ℕ)))
    → From code i shards
    → map (λ p. p.1) (select_shards enc i need shards) ≡ map code (picked i need shards)
unfolding select_shards
select_shards-shards enc code i need [] h = refl
select_shards-shards enc code i zero (s ∷ shards) h = refl
select_shards-shards enc code i (suc need) (none ∷ shards) h =
    select_shards-shards enc code (suc i) (suc need) shards h
select_shards-shards enc code i (suc need) (some s ∷ shards) h =
    ap₂ (λ (s : List ℕ) (t : List (List ℕ)). s ∷ t) h.0
      (select_shards-shards enc code (suc i) need shards h.1)

pub length-picked :
    {A : Type 0} (i need : ℕ) (shards : List (Option A))
    → need ≤ present shards
    → length (picked i need shards) ≡ need
length-picked i need [] h = omega arith
length-picked i zero (s ∷ shards) h = refl
length-picked i (suc need) (none ∷ shards) h = length-picked (suc i) (suc need) shards h
length-picked i (suc need) (some s ∷ shards) h =
    ap suc (length-picked (suc i) need shards (omega arith))

Rising-weaken : (lo hi : ℕ) (is : List ℕ) → lo ≤ hi → Rising hi is → Rising lo is
Rising-weaken lo hi [] h r = tt
Rising-weaken lo hi (i ∷ is) h r = (omega (arith, r.0), r.1, r.2)

pub picked-Rising :
    {A : Type 0} (i need : ℕ) (shards : List (Option A))
    → i + length shards ≤ 255
    → Rising i (picked i need shards)
picked-Rising i need [] h = tt
picked-Rising i zero (s ∷ shards) h = tt
picked-Rising i (suc need) (none ∷ shards) h =
    Rising-weaken i (suc i) (picked (suc i) (suc need) shards) (omega arith)
      (picked-Rising (suc i) (suc need) shards (omega arith))
picked-Rising i (suc need) (some s ∷ shards) h =
    (omega arith, omega arith, picked-Rising (suc i) need shards (omega arith))

pub picked-bound :
    {A : Type 0} (i need : ℕ) (shards : List (Option A)) (t : ℕ)
    → t < length (picked i need shards)
    → get_or (picked i need shards) t 0 < i + length shards
picked-bound i need [] t h = absurd (omega arith)
picked-bound i zero (s ∷ shards) t h = absurd (omega arith)
picked-bound i (suc need) (none ∷ shards) t h =
    omega (arith, picked-bound (suc i) (suc need) shards t h)
picked-bound i (suc need) (some s ∷ shards) zero h = omega arith
picked-bound i (suc need) (some s ∷ shards) (suc t) h =
    omega (arith, picked-bound (suc i) need shards t (omega arith))

-- Every shard at hand has the given size.
abbrev pub Sized : ℕ → List (Option (List ℕ)) → Type 0
Sized size [] = Unit
Sized size (none ∷ shards) = Sized size shards
Sized size (some s ∷ shards) = (length s ≡ size) × Sized size shards

later : (n k : ℕ) → suc n + k ≡ n + suc k
later n k = omega arith

pub check_shards-Sized :
    (size : ℕ) (shards : List (Option (List ℕ))) (n : ℕ)
    → Sized size shards
    → check_shards size shards n ≡ ok (n + present shards)
unfolding check_shards
check_shards-Sized size [] n h = ap ok (omega arith)
check_shards-Sized size (none ∷ shards) n h = check_shards-Sized size shards n h
check_shards-Sized size (some s ∷ shards) n h =
    ap (λ (t : Bool). if not t then err shard_size else check_shards size shards (suc n))
      (ap (λ (t : ℕ). t == size) h.0 ∙ ==_refl size)
    ∙ check_shards-Sized size shards (suc n) h.1
    ∙ ap ok (later n (present shards))

same_size : (l size : ℕ) → l ≡ size → (if size == 0 then l else size) ≡ size
same_size l size h = ground arith

survey_fixed :
    (size : ℕ) (shards : List (Option (List ℕ))) (n : ℕ)
    → Sized size shards
    → survey shards size n ≡ (size, n + present shards)
unfolding survey
survey_fixed size [] n h = ap (λ (t : ℕ). (size, t)) (sym (add-zero n))
survey_fixed size (none ∷ shards) n h = survey_fixed size shards n h
survey_fixed size (some s ∷ shards) n h =
    ap (λ (t : ℕ). survey shards t (suc n)) (same_size (length s) size h.0)
    ∙ survey_fixed size shards (suc n) h.1
    ∙ ap (λ (t : ℕ). (size, t)) (later n (present shards))

-- The common size and the number of the shards at hand.
pub survey-Sized :
    (size : ℕ) (shards : List (Option (List ℕ))) (n : ℕ)
    → Sized size shards
    → 1 ≤ present shards
    → survey shards 0 n ≡ (size, n + present shards)
unfolding survey
survey-Sized size [] n h some_present = absurd (omega arith)
survey-Sized size (none ∷ shards) n h some_present = survey-Sized size shards n h some_present
survey-Sized size (some s ∷ shards) n h some_present =
    ap (λ (t : ℕ). survey shards t (suc n)) h.0
    ∙ survey_fixed size shards (suc n) h.1
    ∙ ap (λ (t : ℕ). (size, t)) (later n (present shards))
