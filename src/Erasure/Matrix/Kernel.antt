-- ===== src/Erasure/Matrix/Kernel.antt =====
-- The elimination keeps the vectors that every row multiplies to 0, in both directions.
use vyomanaut_v.Base.{
  ℕ, ◌<◌, ◌≡◌, ◌≢◌, ◌↔◌, sym, ap, ◌∙◌, List, [], arith, length, get_or, set, All, length-set,
  get_or-set_self, get_or-set_ne, ℕ_discrete, bit_xor,
}
use vyomanaut_v.Base.Xor.{xor-zero}
use vyomanaut_v.Erasure.Field.{IsByte, gf_mul}
use vyomanaut_v.Erasure.Field.Laws.{gf_mul-zero, gf_mul-ne-zero}
use vyomanaut_v.Erasure.Row.{
  Bytes, scale_row, add_scaled, dot, dot-IsByte, dot-scale_row, dot-add_scaled,
}
use vyomanaut_v.Erasure.Matrix.{Matrix, get_row, entry, swap_rows, eliminate_row, eliminate}
use vyomanaut_v.Erasure.Matrix.Rows.{
  IsRow, IsRow-of, entry-IsByte, swap_self, swap-first, swap-other, length-swap_rows,
  get_row-eliminate, length-eliminate,
}

abbrev pub Kills : List ℕ → Matrix → Type 0
Kills v m = (i : ℕ) → i < length m → dot (get_row m i) v ≡ 0

abbrev pub SameKernel : Matrix → Matrix → Type 0
SameKernel m m' = (v : List ℕ) → Bytes v → Kills v m ↔ Kills v m'

pub SameKernel-trans : (a b c : Matrix) → SameKernel a b → SameKernel b c → SameKernel a c
SameKernel-trans a b c f g v hv = (λ k. (g v hv).0 ((f v hv).0 k), λ k. (f v hv).1 ((g v hv).1 k))

kills_at : (v r s : List ℕ) → r ≡ s → dot s v ≡ 0 → dot r v ≡ 0
kills_at v r s e h = ap (λ (t : List ℕ). dot t v) e ∙ h

pub swap-Kills :
    (v : List ℕ) (m : Matrix) (i j : ℕ)
    → i < length m
    → j < length m
    → Kills v m
    → Kills v (swap_rows m i j)
swap-Kills v m i j hi hj h k hk = elim (ℕ_discrete j k) [
  | yes jk ↦
      kills_at v (get_row (swap_rows m i j) k) (get_row m i)
        (ap (get_row (swap_rows m i j)) (sym jk) ∙ swap_self m i j hj) (h i hi)
  | no nj ↦ elim (ℕ_discrete i k) [
    | yes ik ↦
        kills_at v (get_row (swap_rows m i j) k) (get_row m j)
          (ap (get_row (swap_rows m i j)) (sym ik) ∙ swap-first m i j hi (λ e. nj (sym e ∙ ik)))
          (h j hj)
    | no ni ↦
        kills_at v (get_row (swap_rows m i j) k) (get_row m k) (swap-other m i j k ni nj)
          (h k (omega (arith, length-swap_rows m i j)))
  ]
]

pub Kills-swap :
    (v : List ℕ) (m : Matrix) (i j : ℕ)
    → i < length m
    → j < length m
    → Kills v (swap_rows m i j)
    → Kills v m
Kills-swap v m i j hi hj h k hk =
    let at : (t : ℕ) → t < length m → dot (get_row (swap_rows m i j) t) v ≡ 0 =
      λ t ht. h t (omega (arith, length-swap_rows m i j)) in
    elim (ℕ_discrete i k) [
      | yes ik ↦
          kills_at v (get_row m k) (get_row (swap_rows m i j) j)
            (ap (get_row m) (sym ik) ∙ sym (swap_self m i j hj)) (at j hj)
      | no ni ↦ elim (ℕ_discrete j k) [
        | yes jk ↦
            kills_at v (get_row m k) (get_row (swap_rows m i j) i)
              (ap (get_row m) (sym jk) ∙ sym (swap-first m i j hi (λ e. ni (e ∙ jk)))) (at i hi)
        | no nj ↦
            kills_at v (get_row m k) (get_row (swap_rows m i j) k) (sym (swap-other m i j k ni nj))
              (at k hk)
      ]
    ]

-- Scaling a row by a byte other than 0.
pub scale-SameKernel :
    (w s c : ℕ) (m : Matrix)
    → All (IsRow w) m
    → c < length m
    → IsByte s
    → s ≢ 0
    → SameKernel m (set m c (scale_row s (get_row m c)))
scale-SameKernel w s c m h hc hs ns v hv = (forward, backward)
  where
    scaled : dot (scale_row s (get_row m c)) v ≡ gf_mul s (dot (get_row m c) v)
    scaled = dot-scale_row s (get_row m c) v hs (IsRow-of w c m h hc).1 hv

    forward : Kills v m → Kills v (set m c (scale_row s (get_row m c)))
    forward k i hi = elim (ℕ_discrete c i) [
      | yes ci ↦
          kills_at v _ _
            (ap (get_row (set m c (scale_row s (get_row m c)))) (sym ci)
              ∙ get_or-set_self m c (scale_row s (get_row m c)) [] hc)
            (scaled ∙ ap (gf_mul s) (k c hc) ∙ gf_mul-zero s)
      | no ni ↦
          kills_at v _ _ (get_or-set_ne m c i (scale_row s (get_row m c)) [] ni)
            (k i (omega (arith, length-set m c (scale_row s (get_row m c)))))
    ]

    backward : Kills v (set m c (scale_row s (get_row m c))) → Kills v m
    backward k i hi =
        let at = k i (omega (arith, length-set m c (scale_row s (get_row m c)))) in
        elim (ℕ_discrete c i) [
          | yes ci ↦ kills_at v _ _ (ap (get_row m) (sym ci)) (
              gf_mul-ne-zero s (dot (get_row m c) v) hs
                (dot-IsByte (get_row m c) v (IsRow-of w c m h hc).1 hv) ns
                (sym scaled
                  ∙ kills_at v _ _ (sym (get_or-set_self m c (scale_row s (get_row m c)) [] hc)) (
                      ap (λ (t : ℕ). dot (get_row (set m c (scale_row s (get_row m c))) t) v) ci
                      ∙ at)))
          | no ni ↦ kills_at v _ _ (sym (get_or-set_ne m c i (scale_row s (get_row m c)) [] ni)) at
        ]

pub eliminate_row_self : (c : ℕ) (p r : List ℕ) → eliminate_row c c p r ≡ r
unfolding eliminate_row
eliminate_row_self c p r = ground arith

eliminate_row-dot :
    (i c : ℕ) (p r v : List ℕ)
    → dot (add_scaled (get_or r c 0) p r) v ≡ dot r v
    → dot (eliminate_row i c p r) v ≡ dot r v
unfolding eliminate_row
eliminate_row-dot i c p r v e = ground arith

-- Adding multiples of the row at `c` to the other rows.
pub eliminate-SameKernel :
    (w c : ℕ) (m : Matrix)
    → All (IsRow w) m
    → c < length m
    → c < w
    → SameKernel m (eliminate 0 c (get_row m c) m)
eliminate-SameKernel w c m h hc hw v hv = (forward, backward)
  where
    p : List ℕ
    p = get_row m c

    row_at :
        (i : ℕ) → i < length m → get_row (eliminate 0 c p m) i ≡ eliminate_row i c p (get_row m i)
    row_at i hi =
        get_row-eliminate 0 c p m i hi
        ∙ ap (λ (t : ℕ). eliminate_row t c p (get_row m i)) (omega arith)

    killed :
        dot p v ≡ 0
        → (i : ℕ) → i < length m
        → dot (eliminate_row i c p (get_row m i)) v ≡ dot (get_row m i) v
    killed pz i hi = eliminate_row-dot i c p (get_row m i) v (
        dot-add_scaled (entry m i c) p (get_row m i) v (entry-IsByte w i c m h hi hw)
          (IsRow-of w c m h hc).1 (IsRow-of w i m h hi).1 hv
          ((IsRow-of w c m h hc).0 ∙ sym (IsRow-of w i m h hi).0)
        ∙ ap (λ (t : ℕ). bit_xor (dot (get_row m i) v) (gf_mul (entry m i c) t)) pz
        ∙ ap (bit_xor (dot (get_row m i) v)) (gf_mul-zero (entry m i c))
        ∙ xor-zero (dot (get_row m i) v))

    forward : Kills v m → Kills v (eliminate 0 c p m)
    forward k i hi =
        let hi' : i < length m = omega (arith, length-eliminate 0 c p m) in
        kills_at v _ _ (row_at i hi') (killed (k c hc) i hi' ∙ k i hi')

    backward : Kills v (eliminate 0 c p m) → Kills v m
    backward k i hi =
        let at = λ (t : ℕ) (ht : t < length m). k t (omega (arith, length-eliminate 0 c p m)) in
        let pz : dot p v ≡ 0 =
          kills_at v _ _ (sym (row_at c hc ∙ eliminate_row_self c p p)) (at c hc) in
        sym (killed pz i hi) ∙ kills_at v _ _ (sym (row_at i hi)) (at i hi)
