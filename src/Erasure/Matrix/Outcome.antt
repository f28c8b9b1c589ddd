-- ===== src/Erasure/Matrix/Outcome.antt =====
-- The whole elimination: it ends with the identity on the left, or at a column with no pivot.
use vyomanaut_v.Base.{
  ℕ, zero, suc, ◌+◌, ◌-◌, ◌<◌, ◌≤◌, ◌≡◌, ◌≢◌, inl, inr, refl, sym, ap, ◌∙◌, List, none, some, arith,
  length, get_or, set, All, length-set, All-set, Option-cases, subst, get_or-set_self, [],
  ℕ_discrete,
}
use vyomanaut_v.Base.Result.{Result, ok, err, ◌>>=◌}
use native.Mathlib.Nat.{zero-add}
use vyomanaut_v.Erasure.Field.{IsByte, gf_mul, gf_inv}
use vyomanaut_v.Erasure.Field.Laws.{gf_mul-zero, gf_inv_lem}
use vyomanaut_v.Erasure.Row.{scale_row}
use vyomanaut_v.Erasure.Matrix.{
  Matrix, get_row, entry, Error, singular, find_pivot, swap_rows, eliminate, reduce_column,
  gauss_round, gauss,
}
use vyomanaut_v.Erasure.Matrix.Rows.{
  IsRow, IsRow-of, entry-IsByte, swap_self, swap-first, length-swap_rows, swap_rows-IsRow,
  scale_row-IsRow, length-eliminate, eliminate-IsRow, find_pivot-some, find_pivot-none,
}
use vyomanaut_v.Erasure.Matrix.Kernel.{
  SameKernel, SameKernel-trans, swap-Kills, Kills-swap, scale-SameKernel, eliminate-SameKernel,
}
use vyomanaut_v.Erasure.Matrix.Columns.{UnitBelow, reduced, swap-UnitBelow, reduced-UnitBelow}

gauss_step :
    (k n c : ℕ) (m m' : Matrix)
    → gauss_round n c m ≡ ok m'
    → gauss (suc k) c n m ≡ gauss k (suc c) n m'
unfolding gauss
gauss_step k n c m m' e = ap (λ r. r >>= λ next. gauss k (suc c) n next) e

gauss_stop :
    (k n c : ℕ) (m : Matrix) (x : Error) → gauss_round n c m ≡ err x → gauss (suc k) c n m ≡ err x
unfolding gauss
gauss_stop k n c m x e = ap (λ r. r >>= λ next. gauss k (suc c) n next) e

-- A matrix before round `c`, with the kernel of the one that the elimination began with.
pub record Before (w n c : ℕ) (start m : Matrix) : Type 0 where
  pub kept : SameKernel start m
  pub size : length m ≡ n
  pub rows : All (IsRow w) m
  pub unit : UnitBelow n c m

pub data Outcome (w n : ℕ) (start : Matrix) (r : Result Error Matrix) : Type 0 where
  done : (m : Matrix) → r ≡ ok m → Before w n n start m → Outcome w n start r
  stuck :
      (c : ℕ) (m : Matrix)
      → c < n
      → r ≡ err (singular c)
      → Before w n c start m
      → ((i : ℕ) → c ≤ i → i < n → entry m i c ≡ 0)
      → Outcome w n start r

-- `reduce_column` at a pivot that is not 0.
reduce_column_lem :
    (c : ℕ) (m : Matrix) (s : ℕ)
    → gf_inv (entry m c c) ≡ some s
    → reduce_column c m ≡ ok (reduced c s m)
unfolding reduce_column
reduce_column_lem c m s e = rw (e, reduce_column)

gauss_round_found :
    (n c p : ℕ) (m : Matrix)
    → find_pivot (n - c) c c m ≡ some p
    → gauss_round n c m ≡ reduce_column c (swap_rows m c p)
unfolding gauss_round
gauss_round_found n c p m e = rw (e, gauss_round)

gauss_round_singular :
    (n c : ℕ) (m : Matrix) → find_pivot (n - c) c c m ≡ none → gauss_round n c m ≡ err (singular c)
unfolding gauss_round
gauss_round_singular n c m e = rw (e, gauss_round)

module _ (w n c : ℕ) (start : Matrix) (cn : c < n) (nw : n ≤ w) where
  reduced-Before :
      (m : Matrix) (s : ℕ)
      → Before w n c start m
      → IsByte s
      → gf_mul (entry m c c) s ≡ 1
      → Before w n (suc c) start (reduced c s m)
  reduced-Before m s b hs inverse = record {
    kept = SameKernel-trans start m (reduced c s m) b.kept (
        SameKernel-trans m m1 (reduced c s m) (scale-SameKernel w s c m b.rows inside hs nonzero) (
          subst_pivot (
            eliminate-SameKernel w c m1 rows1 (omega (arith, length-set m c p, b.size))
              (omega arith))));
    size = length-eliminate 0 c p m1 ∙ length-set m c p ∙ b.size;
    rows = eliminate-IsRow w 0 c p m1 (omega arith) ok_p rows1;
    unit = reduced-UnitBelow w n c s m b.rows b.size cn nw b.unit inverse;
  }
    where
      p : List ℕ
      p = scale_row s (get_row m c)

      m1 : Matrix
      m1 = set m c p

      inside : c < length m
      inside = omega (arith, b.size)

      ok_p : IsRow w p
      ok_p = scale_row-IsRow w s (get_row m c) hs (IsRow-of w c m b.rows inside)

      rows1 : All (IsRow w) m1
      rows1 = All-set (IsRow w) m c p b.rows ok_p

      nonzero : s ≢ 0
      nonzero z = omega (arith, inverse, ap (gf_mul (entry m c c)) z ∙ gf_mul-zero (entry m c c))

      subst_pivot : SameKernel m1 (eliminate 0 c (get_row m1 c) m1) → SameKernel m1 (reduced c s m)
      subst_pivot h =
          subst (λ (t : List ℕ). SameKernel m1 (eliminate 0 c t m1))
            (get_or-set_self m c p [] inside) h

  swap-Before :
      (m : Matrix) (p : ℕ)
      → Before w n c start m
      → c ≤ p
      → p < n
      → Before w n c start (swap_rows m c p)
  swap-Before m p b cp pn = record {
    kept = SameKernel-trans start m (swap_rows m c p) b.kept (λ v hv. (
      swap-Kills v m c p (omega (arith, b.size)) (omega (arith, b.size)),
      Kills-swap v m c p (omega (arith, b.size)) (omega (arith, b.size)),
    ));
    size = length-swap_rows m c p ∙ b.size;
    rows = swap_rows-IsRow w m c p b.rows (omega (arith, b.size)) (omega (arith, b.size));
    unit = swap-UnitBelow n c p m b.size cp pn b.unit;
  }

  swapped_pivot :
      (m : Matrix) (p : ℕ) → c < length m → p < length m → entry (swap_rows m c p) c c ≡ entry m p c
  swapped_pivot m p hc h = elim (ℕ_discrete c p) [
    | yes cp ↦
        ap (λ (t : ℕ). get_or (get_row (swap_rows m c p) t) c 0) cp
        ∙ ap (λ (r : List ℕ). get_or r c 0) (swap_self m c p h)
        ∙ ap (λ (t : ℕ). entry m t c) cp
    | no ne ↦ ap (λ (r : List ℕ). get_or r c 0) (swap-first m c p hc ne)
  ]

  -- A round with a pivot succeeds, and makes column `c` a unit column.
  gauss_round-some :
      (m : Matrix) (p : ℕ)
      → Before w n c start m
      → find_pivot (n - c) c c m ≡ some p
      → (m' : Matrix) × (gauss_round n c m ≡ ok m') × Before w n (suc c) start m'
  gauss_round-some m p b found =
      let (cp, pn, pivot) = find_pivot-some (n - c) c c m p found in
      let below : p < n = omega arith in
      let m1 = swap_rows m c p in
      let b1 = swap-Before m p b cp below in
      let same = swapped_pivot m p (omega (arith, b.size)) (omega (arith, b.size)) in
      let (s, found_s, hs, inverse) =
        gf_inv_lem (entry m1 c c)
          (entry-IsByte w c c m1 b1.rows (omega (arith, b1.size)) (omega arith))
          (λ z. pivot (sym same ∙ z)) in
      (
        reduced c s m1,
        gauss_round_found n c p m found ∙ reduce_column_lem c m1 s found_s,
        reduced-Before m1 s b1 hs inverse,
      )

pub gauss-Outcome :
    (w n k c : ℕ) (start m : Matrix)
    → k + c ≡ n
    → n ≤ w
    → Before w n c start m
    → Outcome w n start (gauss k c n m)
gauss-Outcome w n zero c start m e nw b =
    done m (unfold gauss in refl) (subst (λ (t : ℕ). Before w n t start m) (sym (zero-add c) ∙ e) b)
gauss-Outcome w n (suc k) c start m e nw b = elim (Option-cases (find_pivot (n - c) c c m)) [
  | inl missing ↦
      stuck c m (omega arith) (gauss_stop k n c m (singular c) (gauss_round_singular n c m missing))
        b (λ i ci hi. find_pivot-none (n - c) c c m i missing ci (omega arith))
  | inr (p, found) ↦
      let (m', good, b') = gauss_round-some w n c start (omega arith) nw m p b found in
      subst (Outcome w n start) (sym (gauss_step k n c m m' good))
        (gauss-Outcome w n k (suc c) start m' (omega arith) nw b')
]
