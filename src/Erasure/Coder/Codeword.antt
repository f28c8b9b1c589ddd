-- ===== src/Erasure/Coder/Codeword.antt =====
-- The rows of the encoding matrix (rs_internal.go) are rows of bytes, and any `data_shards` of them can
-- be inverted.
use vyomanaut_v.Base.{
  ℕ, zero, suc, ◌+◌, ◌-◌, ◌<◌, ◌≤◌, ◌≡◌, refl, sym, ap, ◌∙◌, List, [], ◌∷◌, map, Option, arith,
  bit_xor, length, get_or, replicate, drop, All, length-map, get_or-replicate, get_or-map, dec_lt,
  le→ltb, subst, All-get_or, length-drop, All-set,
}
use vyomanaut_v.Base.Xor.{zero-xor, xor-lt}
use vyomanaut_v.Base.Result.{ok}
use vyomanaut_v.Erasure.Field.{IsByte, gf_mul}
use vyomanaut_v.Erasure.Field.Laws.{gf_mul-zero, gf_mul-IsByte}
use vyomanaut_v.Erasure.Row.{Bytes, dot}
use vyomanaut_v.Erasure.Polynomial.{value}
use vyomanaut_v.Erasure.Matrix.{Matrix, get_row, invert_matrix}
use vyomanaut_v.Erasure.Matrix.Rows.{IsRow}
use vyomanaut_v.Erasure.Matrix.Total.{invert_matrix-IsRegular}
use vyomanaut_v.Erasure.Coder.{
  Encoder, encoding_row, generator_entry, generator_row, vandermonde_row, vandermonde,
}
use vyomanaut_v.Erasure.Coder.Generator.{point, length-vandermonde, vandermonde_row-IsRow}
use vyomanaut_v.Erasure.Coder.Systematic.{zero_of_rows}
use vyomanaut_v.Erasure.Coder.Built.{
  IsBuilt, image, image-IsRow, inverse-IsRow, image-value, encoding_row-value, encoding_row-data,
  encoding_row-parity, length-unit,
}
use vyomanaut_v.Erasure.Coder.Shards.{
  column, picked, present, length-picked, picked-Rising, picked-bound,
}

generator_entry-IsByte :
    (row : List ℕ) (m : Matrix) (c acc n : ℕ)
    → Bytes row
    → All (IsRow n) m
    → c < n
    → IsByte acc
    → IsByte (generator_entry row m c acc)
unfolding generator_entry
generator_entry-IsByte [] m c acc n hr hm h ha = ha
generator_entry-IsByte (x ∷ row) [] c acc n hr hm h ha = ha
generator_entry-IsByte (x ∷ row) (r ∷ m) c acc n hr hm h ha =
    generator_entry-IsByte row m c (bit_xor acc (gf_mul x (get_or r c 0))) n hr.1 hm.1 h (
      xor-lt 8 acc (gf_mul x (get_or r c 0)) ha (
        gf_mul-IsByte x (get_or r c 0) hr.0
          (All-get_or IsByte r c 0 hm.0.1 (omega (arith, hm.0.0)))))

generator_row-IsRow :
    (k c n : ℕ) (row : List ℕ) (m : Matrix)
    → c + k ≡ n
    → Bytes row
    → All (IsRow n) m
    → IsRow k (generator_row k c row m)
unfolding generator_row
generator_row-IsRow zero c n row m e hr hm = (refl, tt)
generator_row-IsRow (suc k) c n row m e hr hm =
    let (l, bytes) = generator_row-IsRow k (suc c) n row m (omega arith) hr hm in
    (ap suc l, (generator_entry-IsByte row m c 0 n hr hm (omega arith) (omega arith), bytes))

zeros-Bytes : (n : ℕ) → Bytes (replicate n 0)
zeros-Bytes zero = tt
zeros-Bytes (suc n) = (omega arith, zeros-Bytes n)

pub get_row-map_rows :
    (f : ℕ → List ℕ) (is : List ℕ) (t : ℕ)
    → t < length is
    → get_row (map f is) t ≡ f (get_or is t 0)
get_row-map_rows f is t h = get_or-map f is t 0 [] h

value_of_zeros : (ys : List ℕ) (p : ℕ) → ((j : ℕ) → get_or ys j 0 ≡ 0) → value ys p ≡ 0
unfolding value
value_of_zeros [] p h = refl
value_of_zeros (y ∷ ys) p h =
    rw (h 0, value_of_zeros ys p (λ j. h (suc j)), gf_mul-zero p) (zero-xor 0)

pub column-Bytes :
    (size t : ℕ) (shards : List (List ℕ))
    → All (IsRow size) shards
    → t < size
    → Bytes (column t shards)
column-Bytes size t [] h ht = tt
column-Bytes size t (s ∷ shards) h ht =
    (All-get_or IsByte s t 0 h.0.1 (omega (arith, h.0.0)), column-Bytes size t shards h.1 ht)

pub longer :
    (size t : ℕ) (shards : List (List ℕ))
    → All (IsRow size) shards
    → t < size
    → All (λ s. t < length s) shards
longer size t [] h ht = tt
longer size t (s ∷ shards) h ht = (omega (arith, h.0.0), longer size t shards h.1 ht)

module _ (d p : ℕ) (enc : Encoder) (b : IsBuilt d p enc) where
  pub length-gen : length enc.gen ≡ p
  length-gen =
      ap (λ (m : Matrix). length m) b.gen_field
      ∙ length-map (λ row. generator_row d 0 row b.inverse) (drop d (vandermonde (d + p) d 0))
      ∙ omega (arith, length-drop d (vandermonde (d + p) d 0), length-vandermonde (d + p) d 0)

  pub encoding_row-gen : (i : ℕ) → d ≤ i → encoding_row enc i ≡ get_row enc.gen (i - d)
  unfolding encoding_row
  encoding_row-gen i h = rw (b.data_field, le→ltb i d h) refl

  pub encoding_row-IsRow : (i : ℕ) → i < d + p → IsRow d (encoding_row enc i)
  encoding_row-IsRow i hi = elim (dec_lt i d) [
    | yes h ↦ subst (IsRow d) (sym (encoding_row-data d p enc b i h)) (
      length-unit d p enc b d i,
      All-set IsByte (replicate d 0) i 1 (zeros-Bytes d) (omega arith),
    )
    | no h ↦ subst (IsRow d) (sym (encoding_row-parity d p enc b i (omega arith) hi)) (
        generator_row-IsRow d 0 d (vandermonde_row d i 0) b.inverse (omega arith)
          (vandermonde_row-IsRow d i).1 (inverse-IsRow d p enc b).1)
  ]

  -- For an encoder as `new_rs_encoder` makes it (`IsBuilt`: up to 255 shards), the rows of the encoding
  -- matrix that `reconstruct` picks can be inverted when `d` of the `d + p` shards are at hand.
  pub rows-invert :
      (A : Type 0) (shards : List (Option A))
      → d ≤ present shards
      → length shards ≡ d + p
      → (inverse : Matrix) × (invert_matrix (map (encoding_row enc) (picked 0 d shards)) d
          ≡ ok inverse)
  rows-invert A shards enough l =
      let is : List ℕ = picked 0 d shards in
      let li : length is ≡ d = length-picked 0 d shards enough in
      let below : (t : ℕ) → t < length is → get_or is t 0 < d + p =
        λ t h. omega (arith, picked-bound 0 d shards t h) in
      invert_matrix-IsRegular d (map (encoding_row enc) is) (length-map (encoding_row enc) is ∙ li)
        (λ t ht.
          subst (IsRow d) (sym (get_row-map_rows (encoding_row enc) is t (omega (arith, li))))
            (encoding_row-IsRow (get_or is t 0) (below t (omega (arith, li)))))
        (λ x hx maps j hj.
          let ys : List ℕ = image d p enc b x in
          let hy : IsRow d ys = image-IsRow d p enc b x hx.1 in
          sym (image-value d p enc b x j hx hj)
          ∙ value_of_zeros ys (point j) (
              zero_of_rows ys is 0 (hy.0 ∙ sym li) hy.1
                (picked-Rising 0 d shards (omega (arith, b.small)))
                (λ t ht.
                  sym (encoding_row-value d p enc b x (get_or is t 0) hx (below t ht))
                  ∙ ap (λ (r : List ℕ). dot r x) (sym (get_row-map_rows (encoding_row enc) is t ht))
                  ∙ maps t (omega (arith, li))
                  ∙ get_or-replicate d 0 t)))
