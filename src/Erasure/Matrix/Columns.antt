-- ===== src/Erasure/Matrix/Columns.antt =====
-- The elimination turns one more column into a unit column each round.
use vyomanaut_v.Base.{
  ℕ, suc, ◌<◌, ◌≤◌, ◌≡◌, ◌≢◌, sym, ap, ap₂, ◌∙◌, List, [], arith, length, get_or, set, All, ◌==◌,
  if◌then◌else◌, length-set, get_or-set_self, get_or-set_ne, ℕ_discrete, bit_xor,
}
use vyomanaut_v.Base.Xor.{xor-zero, xor_self}
use vyomanaut_v.Erasure.Field.{IsByte, gf_mul}
use vyomanaut_v.Erasure.Field.Laws.{gf_mul-zero, zero-gf_mul, one-gf_mul, gf_mul_comm}
use vyomanaut_v.Erasure.Row.{scale_row, get_or-scale_row, get_or-add_scaled, length-scale_row}
use vyomanaut_v.Erasure.Matrix.{Matrix, get_row, entry, swap_rows, eliminate_row, eliminate}
use vyomanaut_v.Erasure.Matrix.Rows.{
  IsRow, IsRow-of, entry-IsByte, swap_self, swap-first, swap-other, get_row-eliminate,
}
use vyomanaut_v.Erasure.Matrix.Kernel.{eliminate_row_self}

abbrev pub delta : ℕ → ℕ → ℕ
delta i j = if i == j then 1 else 0

pub delta_ne : (i j : ℕ) → i ≢ j → delta i j ≡ 0
delta_ne i j h = ground arith

pub delta_self : (i : ℕ) → delta i i ≡ 1
delta_self i = ground arith

-- The first `c` columns, over the first `n` rows, are those of the identity.
abbrev pub UnitBelow : ℕ → ℕ → Matrix → Type 0
UnitBelow n c m = (i j : ℕ) → i < n → j < c → entry m i j ≡ delta i j

entry_of : (r s : List ℕ) (j : ℕ) → r ≡ s → get_or r j 0 ≡ get_or s j 0
entry_of r s j e = ap (λ (t : List ℕ). get_or t j 0) e

pub swap-UnitBelow :
    (n c p : ℕ) (m : Matrix)
    → length m ≡ n
    → c ≤ p
    → p < n
    → UnitBelow n c m
    → UnitBelow n c (swap_rows m c p)
swap-UnitBelow n c p m l cp pn u i j hi hj = elim (ℕ_discrete p i) [
  | yes pi ↦
      entry_of _ _ j (ap (get_row (swap_rows m c p)) (sym pi) ∙ swap_self m c p (omega arith))
      ∙ u c j (omega arith) hj
      ∙ delta_ne c j (omega arith)
      ∙ sym (delta_ne i j (omega arith))
  | no np ↦ elim (ℕ_discrete c i) [
    | yes ci ↦
        entry_of _ _ j (
          ap (get_row (swap_rows m c p)) (sym ci)
          ∙ swap-first m c p (omega arith) (λ e. np (sym e ∙ ci)))
        ∙ u p j pn hj
        ∙ delta_ne p j (omega arith)
        ∙ sym (delta_ne i j (omega arith))
    | no nc ↦ entry_of _ _ j (swap-other m c p i nc np) ∙ u i j hi hj
  ]
]

-- What `reduce_column` returns, with `s` the inverse of the pivot.
abbrev pub reduced : ℕ → ℕ → Matrix → Matrix
reduced c s m = eliminate 0 c (scale_row s (get_row m c)) (set m c (scale_row s (get_row m c)))

reduced-row_self :
    (c s : ℕ) (m : Matrix) → c < length m → get_row (reduced c s m) c ≡ scale_row s (get_row m c)
reduced-row_self c s m h =
    let p = scale_row s (get_row m c) in
    get_row-eliminate 0 c p (set m c p) c (omega (arith, length-set m c p))
    ∙ ap₂ (λ (t : ℕ) (r : List ℕ). eliminate_row t c p r) (omega arith) (get_or-set_self m c p [] h)
    ∙ eliminate_row_self c p p

reduced-row_other :
    (c s : ℕ) (m : Matrix) (i : ℕ)
    → i < length m
    → c ≢ i
    → get_row (reduced c s m) i ≡ eliminate_row i c (scale_row s (get_row m c)) (get_row m i)
reduced-row_other c s m i h ne =
    let p = scale_row s (get_row m c) in
    get_row-eliminate 0 c p (set m c p) i (omega (arith, length-set m c p))
    ∙ ap₂ (λ (t : ℕ) (r : List ℕ). eliminate_row t c p r) (omega arith)
        (get_or-set_ne m c i p [] ne)

eliminate_row-entry :
    (i c : ℕ) (p r : List ℕ) (j : ℕ)
    → i ≢ c
    → length p ≡ length r
    → get_or (eliminate_row i c p r) j 0
      ≡ bit_xor (get_or r j 0) (gf_mul (get_or r c 0) (get_or p j 0))
unfolding eliminate_row
eliminate_row-entry i c p r j ne l = ground (
  arith,
  get_or-add_scaled (get_or r c 0) p r j,
  zero-gf_mul (get_or p j 0),
  xor-zero (get_or r j 0),
)

module _ (w n c s : ℕ) (m : Matrix) (rows : All (IsRow w) m) (l : length m ≡ n) (cn : c < n)
    (nw : n ≤ w) (u : UnitBelow n c m) (inverse : gf_mul (entry m c c) s ≡ 1) where
  -- The scaled pivot row is that of the identity, up to column `c`.
  pivot_entry : (j : ℕ) → j < suc c → get_or (scale_row s (get_row m c)) j 0 ≡ delta c j
  pivot_entry j hj = get_or-scale_row s (get_row m c) j ∙ elim (ℕ_discrete c j) [
    | yes cj ↦
        ap (λ (t : ℕ). gf_mul (entry m c t) s) (sym cj)
        ∙ inverse
        ∙ sym (ap (delta c) (sym cj) ∙ delta_self c)
    | no nj ↦
        ap (λ (t : ℕ). gf_mul t s) (u c j cn (omega arith) ∙ delta_ne c j nj)
        ∙ zero-gf_mul s
        ∙ sym (delta_ne c j nj)
  ]

  other_entry :
      (i j : ℕ)
      → i < n
      → j < suc c
      → c ≢ i
      → bit_xor (entry m i j) (gf_mul (entry m i c) (delta c j)) ≡ delta i j
  other_entry i j hi hj ne = elim (ℕ_discrete c j) [
    | yes cj ↦
        let x : ℕ = entry m i c in
        let byte : IsByte x = entry-IsByte w i c m rows (omega arith) (omega arith) in
        ap₂ (λ (t d : ℕ). bit_xor (entry m i t) (gf_mul x d)) (sym cj)
          (ap (delta c) (sym cj) ∙ delta_self c)
        ∙ ap (bit_xor x) (gf_mul_comm x 1 ∙ one-gf_mul x byte)
        ∙ xor_self x
        ∙ sym (delta_ne i j (λ e. ne (cj ∙ sym e)))
    | no nj ↦
        ap (λ (d : ℕ). bit_xor (entry m i j) (gf_mul (entry m i c) d)) (delta_ne c j nj)
        ∙ ap (bit_xor (entry m i j)) (gf_mul-zero (entry m i c))
        ∙ xor-zero (entry m i j)
        ∙ u i j hi (omega arith)
  ]

  pub reduced-UnitBelow : UnitBelow n (suc c) (reduced c s m)
  reduced-UnitBelow i j hi hj = elim (ℕ_discrete c i) [
    | yes ci ↦
        entry_of _ _ j
          (ap (get_row (reduced c s m)) (sym ci) ∙ reduced-row_self c s m (omega arith))
        ∙ pivot_entry j hj
        ∙ ap (λ (t : ℕ). delta t j) ci
    | no ne ↦
        entry_of _ _ j (reduced-row_other c s m i (omega arith) ne)
        ∙ eliminate_row-entry i c (scale_row s (get_row m c)) (get_row m i) j (λ e. ne (sym e))
            (length-scale_row s (get_row m c)
              ∙ (IsRow-of w c m rows (omega arith)).0
              ∙ sym (IsRow-of w i m rows (omega arith)).0)
        ∙ ap (λ (t : ℕ). bit_xor (entry m i j) (gf_mul (entry m i c) t)) (pivot_entry j hj)
        ∙ other_entry i j hi hj ne
  ]
