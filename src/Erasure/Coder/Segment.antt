-- ===== src/Erasure/Coder/Segment.antt =====
-- The data shards with the parity shards of `encode` (rs_internal.go): each is its row of the encoding
-- matrix times the data.
use vyomanaut_v.Base.{
  ℕ, suc, ◌+◌, ◌-◌, ◌<◌, ◌≤◌, ◌≡◌, refl, sym, ap, ◌∙◌, List, [], ◌∷◌, ◌++◌, map, arith, bit_xor,
  length, get_or, replicate, All, length-map, length-replicate, get_or-replicate, get_or-map,
  dec_lt, get_or-append, get_or-append_left, subst, All-get_or, list-ext,
}
use vyomanaut_v.Base.Xor.{zero-xor}
use vyomanaut_v.Base.Result.{ok}
use vyomanaut_v.Erasure.Field.{IsByte}
use vyomanaut_v.Erasure.Row.{Bytes, dot, dot-IsByte}
use vyomanaut_v.Erasure.Row.Parts.{unit, get_or-unit, dot_of_unit}
use vyomanaut_v.Erasure.Matrix.{Matrix, get_row, invert_matrix}
use vyomanaut_v.Erasure.Matrix.Rows.{IsRow}
use vyomanaut_v.Erasure.Matrix.Inverse.{Maps, invert_matrix-Maps}
use vyomanaut_v.Erasure.Coder.{Encoder, accumulate, encode, encoding_row}
use vyomanaut_v.Erasure.Coder.Built.{IsBuilt, encoding_row-data, length-unit}
use vyomanaut_v.Erasure.Coder.Shards.{column, length-accumulate, get_or-accumulate}
use vyomanaut_v.Erasure.Coder.Codeword.{
  get_row-map_rows, column-Bytes, longer, length-gen, encoding_row-gen, encoding_row-IsRow,
}

module _ (d p : ℕ) (enc : Encoder) (b : IsBuilt d p enc) where
  -- A coded segment: the data shards and the parity shards that `encode` makes of them.
  module _ (size : ℕ) (data_list : List (List ℕ)) (count : length data_list ≡ d)
      (sized : All (IsRow size) data_list) where
    pub code : ℕ → List ℕ
    code i = get_or (data_list ++ encode enc size data_list) i []

    pub get_or-code : (i : ℕ) → get_or (data_list ++ encode enc size data_list) i [] ≡ code i
    unfolding code
    get_or-code i = refl

    pub code-data : (i : ℕ) → i < d → code i ≡ get_or data_list i []
    unfolding code
    code-data i h =
        get_or-append_left data_list (encode enc size data_list) i [] (omega (arith, count))

    code-parity :
        (i : ℕ)
        → d ≤ i
        → i < d + p
        → code i ≡ accumulate (encoding_row enc i) data_list (replicate size 0)
    unfolding code encode
    code-parity i h hi =
        let f : List ℕ → List ℕ = λ row. accumulate row data_list (replicate size 0) in
        ap (λ (t : ℕ). get_or (data_list ++ map f enc.gen) t []) {x = i}
          {y = length data_list + (i - d)} (omega (arith, count))
        ∙ get_or-append data_list (map f enc.gen) (i - d) []
        ∙ get_or-map f enc.gen (i - d) [] [] (omega (arith, length-gen d p enc b))
        ∙ ap f (sym (encoding_row-gen d p enc b i h))

    pub length-code : (i : ℕ) → i < d + p → length (code i) ≡ size
    length-code i hi = elim (dec_lt i d) [
      | yes h ↦
          ap (λ (s : List ℕ). length s) (code-data i h)
          ∙ (All-get_or (IsRow size) data_list i [] sized (omega (arith, count))).0
      | no h ↦
          ap (λ (s : List ℕ). length s) (code-parity i (omega arith) hi)
          ∙ length-accumulate (encoding_row enc i) data_list (replicate size 0)
          ∙ length-replicate size 0
    ]

    column-IsRow : (t : ℕ) → t < size → IsRow d (column t data_list)
    column-IsRow t h =
        (length-map (λ s. get_or s t 0) data_list ∙ count, column-Bytes size t data_list sized h)

    -- Byte `t` of every shard is its row of the encoding matrix times column `t` of the data.
    pub code-column :
        (i t : ℕ)
        → i < d + p
        → t < size
        → get_or (code i) t 0 ≡ dot (encoding_row enc i) (column t data_list)
    code-column i t hi ht = elim (dec_lt i d) [
      | yes h ↦
          ap (λ (s : List ℕ). get_or s t 0) (code-data i h)
          ∙ sym (get_or-map (λ s. get_or s t 0) data_list i [] 0 (omega (arith, count)))
          ∙ sym (
              dot_of_unit i (unit d i) (column t data_list) (column-IsRow t ht).1
                (omega (arith, length-unit d p enc b d i))
                (length-unit d p enc b d i ∙ sym (column-IsRow t ht).0)
                (λ j hj. get_or-unit d i j h))
          ∙ ap (λ (r : List ℕ). dot r (column t data_list)) (sym (encoding_row-data d p enc b i h))
      | no h ↦
          ap (λ (s : List ℕ). get_or s t 0) (code-parity i (omega arith) hi)
          ∙ get_or-accumulate (encoding_row enc i) data_list (replicate size 0) t
              (longer size t data_list sized ht) (omega (arith, length-replicate {A = ℕ} size 0))
          ∙ ap (λ (u : ℕ). bit_xor u (dot (encoding_row enc i) (column t data_list)))
              (get_or-replicate size 0 t)
          ∙ zero-xor (dot (encoding_row enc i) (column t data_list))
    ]

    codes-Bytes :
        (is : List ℕ) (t : ℕ)
        → ((k : ℕ) → k < length is → get_or is k 0 < d + p)
        → t < size
        → Bytes (column t (map code is))
    codes-Bytes [] t below ht = tt
    codes-Bytes (i ∷ is) t below ht = (
      subst IsByte (sym (code-column i t (below 0 (omega arith)) ht)) (
          dot-IsByte (encoding_row enc i) (column t data_list)
            (encoding_row-IsRow d p enc b i (below 0 (omega arith))).1 (column-IsRow t ht).1),
      codes-Bytes is t (λ k hk. below (suc k) (omega arith)) ht,
    )

    codes_longer :
        (is : List ℕ) (t : ℕ)
        → ((k : ℕ) → k < length is → get_or is k 0 < d + p)
        → t < size
        → All (λ s. t < length s) (map code is)
    codes_longer [] t below ht = tt
    codes_longer (i ∷ is) t below ht = (
      omega (arith, length-code i (below 0 (omega arith))),
      codes_longer is t (λ k hk. below (suc k) (omega arith)) ht,
    )

    -- The rows of the shards at hand map a column of the data to the column of those shards.
    picked-Maps :
        (is : List ℕ) (t : ℕ)
        → length is ≡ d
        → ((k : ℕ) → k < length is → get_or is k 0 < d + p)
        → t < size
        → Maps d (map (encoding_row enc) is) (column t data_list) (column t (map code is))
    picked-Maps is t li below ht k hk =
        let k_in : k < length is = omega (arith, li) in
        ap (λ (r : List ℕ). dot r (column t data_list))
          (get_row-map_rows (encoding_row enc) is k k_in)
        ∙ sym (code-column (get_or is k 0) t (below k k_in) ht)
        ∙ sym (
            get_or-map (λ s. get_or s t 0) (map code is) k [] 0 (omega (arith, length-map code is))
            ∙ ap (λ (s : List ℕ). get_or s t 0) (get_or-map code is k 0 [] k_in))

    -- The shard that the inverse of those rows gives for a data index is the data shard.
    pub filled_shard :
        (is : List ℕ) (inverse : Matrix) (i : ℕ)
        → length is ≡ d
        → ((k : ℕ) → k < length is → get_or is k 0 < d + p)
        → invert_matrix (map (encoding_row enc) is) d ≡ ok inverse
        → i < d
        → accumulate (get_row inverse i) (map code is) (replicate size 0) ≡ code i
    filled_shard is inverse i li below inverts hi =
        let sub : List (List ℕ) = map code is in
        let len : length (accumulate (get_row inverse i) sub (replicate size 0)) ≡ size =
          length-accumulate (get_row inverse i) sub (replicate size 0) ∙ length-replicate size 0 in
        list-ext (accumulate (get_row inverse i) sub (replicate size 0)) (code i) 0
          (len ∙ sym (length-code i (omega arith)))
          (λ t ht.
            let t_in : t < size = omega (arith, len) in
            get_or-accumulate (get_row inverse i) sub (replicate size 0) t
              (codes_longer is t below t_in) (omega (arith, length-replicate {A = ℕ} size 0))
            ∙ ap (λ (u : ℕ). bit_xor u (dot (get_row inverse i) (column t sub)))
                (get_or-replicate size 0 t)
            ∙ zero-xor (dot (get_row inverse i) (column t sub))
            ∙ (invert_matrix-Maps d (map (encoding_row enc) is)
                  (length-map (encoding_row enc) is ∙ li)
                  (λ k hk.
                    subst (IsRow d)
                      (sym (get_row-map_rows (encoding_row enc) is k (omega (arith, li))))
                      (encoding_row-IsRow d p enc b (get_or is k 0) (below k (omega (arith, li)))))
                  inverse (column t data_list) (column t sub) inverts (column-IsRow t t_in)
                  (
                    length-map (λ s. get_or s t 0) sub ∙ length-map code is ∙ li,
                    codes-Bytes is t below t_in,
                  )).0
                (picked-Maps is t li below t_in) i hi
            ∙ get_or-map (λ s. get_or s t 0) data_list i [] 0 (omega (arith, count))
            ∙ ap (λ (s : List ℕ). get_or s t 0) (sym (code-data i hi)))
