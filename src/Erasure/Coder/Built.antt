-- ===== src/Erasure/Coder/Built.antt =====
-- An encoder that `newRSEncoder` made: every row of its encoding matrix evaluates one polynomial.
use vyomanaut_v.Base.{
  ℕ, ◌+◌, ◌-◌, ◌<◌, ◌≤◌, ◌≡◌, refl, sym, ap, ◌∙◌, List, [], map, Bool, le→ltb, arith, ltb, lt→ltb,
  length, get_or, take, drop, replicate, set, All, get_or-drop, length-map, length-drop,
  if◌then◌else◌, length-set, length-replicate, dec_lt,
}
use vyomanaut_v.Base.Result.{ok}
use vyomanaut_v.Erasure.Row.{Bytes, dot}
use vyomanaut_v.Erasure.Row.Parts.{dot_of_unit, unit, get_or-unit}
use vyomanaut_v.Erasure.Polynomial.{value}
use vyomanaut_v.Erasure.Matrix.{Matrix, get_row, invert_matrix}
use vyomanaut_v.Erasure.Matrix.Rows.{IsRow}
use vyomanaut_v.Erasure.Matrix.Inverse.{invert_matrix-Maps, invert_matrix-IsRow}
use vyomanaut_v.Erasure.Coder.{
  Encoder, vandermonde_row, vandermonde, generator_row, encoding_row, new_rs_encoder,
}
use vyomanaut_v.Erasure.Coder.Generator.{
  point, vandermonde_row-IsRow, vandermonde_row-value, get_row-vandermonde, length-vandermonde,
  generator_row-dot,
}
use vyomanaut_v.Erasure.Coder.Systematic.{
  top, length-top, get_row-top, top-IsRow, build_generator_matrix_lem, get_or-map-dot,
  map-dot-Bytes, get_row-map,
}

-- An encoder as `newRSEncoder` makes it.
pub record IsBuilt (d p : ℕ) (enc : Encoder) : Type 0 where
  pub some_parity : 1 ≤ p
  pub some_data : 1 ≤ d
  pub small : d + p ≤ 255
  pub data_field : enc.data_shards ≡ d
  pub parity_field : enc.parity ≡ p
  pub inverse : Matrix
  pub inverts : invert_matrix (take d (vandermonde (d + p) d 0)) d ≡ ok inverse
  pub gen_field :
      enc.gen ≡ map (λ row. generator_row d 0 row inverse) (drop d (vandermonde (d + p) d 0))

-- For up to 255 shards the encoder is built.
pub new_rs_encoder-IsBuilt :
    (d p : ℕ)
    → 1 ≤ d
    → 1 ≤ p
    → d + p ≤ 255
    → (enc : Encoder) × (new_rs_encoder d p ≡ ok enc) × IsBuilt d p enc
unfolding new_rs_encoder
new_rs_encoder-IsBuilt d p hd hp small =
    let (inverse, inverts, built) = build_generator_matrix_lem d p small in
    (
      record {
        data_shards = d;
        parity = p;
        gen = map (λ row. generator_row d 0 row inverse) (drop d (vandermonde (d + p) d 0));
      },
      ground (arith, built),
      record {
        some_parity = hp;
        some_data = hd;
        small = small;
        data_field = refl;
        parity_field = refl;
        inverse = inverse;
        inverts = inverts;
        gen_field = refl;
      },
    )

module _ (d p : ℕ) (enc : Encoder) (b : IsBuilt d p enc) where
  pub inverse-IsRow : (length b.inverse ≡ d) × All (IsRow d) b.inverse
  inverse-IsRow =
      invert_matrix-IsRow d (top d p b.small) (length-top d p b.small) (top-IsRow d p b.small)
        b.inverse b.inverts

  -- The polynomial of a data vector.
  pub image : List ℕ → List ℕ
  image x = map (λ r. dot r x) b.inverse

  pub image-IsRow : (x : List ℕ) → Bytes x → IsRow d (image x)
  unfolding image
  image-IsRow x hx =
      let (l, rows) = inverse-IsRow in
      (length-map (λ r. dot r x) b.inverse ∙ l, map-dot-Bytes d b.inverse x rows hx)

  -- The polynomial takes the value x_i at point i, for the data rows.
  pub image-value :
      (x : List ℕ) (i : ℕ) → IsRow d x → i < d → value (image x) (point i) ≡ get_or x i 0
  unfolding image
  image-value x i hx hi =
      let hy : IsRow d (image x) = image-IsRow x hx.1 in
      let (l, rows) = inverse-IsRow in
      sym (vandermonde_row-value d i (image x) hy)
      ∙ ap (λ (r : List ℕ). dot r (image x)) (sym (get_row-top d p b.small i hi))
      ∙ (invert_matrix-Maps d (top d p b.small) (length-top d p b.small) (top-IsRow d p b.small)
            b.inverse (image x) x b.inverts hy hx).1
          (λ k hk. sym (get_or-map-dot b.inverse x k (omega arith))) i hi

  pub length-unit : (n i : ℕ) → length (unit n i) ≡ n
  length-unit n i = length-set (replicate n 0) i 1 ∙ length-replicate n 0

  pub encoding_row-data : (i : ℕ) → i < d → encoding_row enc i ≡ unit d i
  unfolding encoding_row
  encoding_row-data i h = rw (b.data_field, lt→ltb i d h) refl

  pub encoding_row-parity :
      (i : ℕ)
      → d ≤ i
      → i < d + p
      → encoding_row enc i ≡ generator_row d 0 (vandermonde_row d i 0) b.inverse
  unfolding encoding_row
  encoding_row-parity i h hi =
      let v : Matrix = vandermonde (d + p) d 0 in
      ap (λ (k : ℕ). if ltb i k then set (replicate k 0) i 1 else get_row enc.gen (i - k))
        b.data_field
      ∙ ap (λ (t : Bool). if t then unit d i else get_row enc.gen (i - d)) (le→ltb i d h)
      ∙ ap (λ (m : Matrix). get_row m (i - d)) b.gen_field
      ∙ get_row-map (λ row. generator_row d 0 row b.inverse) (drop d v) (i - d)
          (omega (arith, length-drop d v, length-vandermonde (d + p) d 0))
      ∙ ap (λ (row : List ℕ). generator_row d 0 row b.inverse)
          (get_or-drop d v (i - d) []
            ∙ get_row-vandermonde (d + p) d 0 (d + (i - d)) (omega arith)
            ∙ ap (λ (t : ℕ). vandermonde_row d t 0) {x = 0 + (d + (i - d))} {y = i} (omega arith))

  -- Every row of the encoding matrix evaluates the polynomial at its point.
  pub encoding_row-value :
      (x : List ℕ) (i : ℕ)
      → IsRow d x
      → i < d + p
      → dot (encoding_row enc i) x ≡ value (image x) (point i)
  encoding_row-value x i hx hi = elim (dec_lt i d) [
    | yes h ↦
        ap (λ (r : List ℕ). dot r x) (encoding_row-data i h)
        ∙ dot_of_unit i (unit d i) x hx.1 (omega (arith, length-unit d i))
            (length-unit d i ∙ sym hx.0) (λ j hj. get_or-unit d i j h)
        ∙ sym (image-value x i hx h)
    | no h ↦
        ap (λ (r : List ℕ). dot r x) (encoding_row-parity i (omega arith) hi)
        ∙ generator_row-dot d (vandermonde_row d i 0) b.inverse x hx (vandermonde_row-IsRow d i).1
            inverse-IsRow.1
        ∙ ap (λ (y : List ℕ). dot (vandermonde_row d i 0) y) {y = image x} (unfold image in refl)
        ∙ vandermonde_row-value d i (image x) (image-IsRow x hx.1)
  ]
