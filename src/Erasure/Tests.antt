-- ===== src/Erasure/Tests.antt =====
-- Runs of the erasure code on short shards, at which its theorems apply.
use vyomanaut_v.Base.{
  ℕ, zero, suc, ◌≡◌, refl, List, [], ◌∷◌, map, Option, none, some, arith, bit_xor, length, take,
  All, ◌<◌, ◌↔◌,
}
use vyomanaut_v.Base.Result.{ok}
use vyomanaut_v.Erasure.Field.{IsByte, gf_mul, gf_exp, gf_log, gf_inv, gf_pow, gf_mul_table, double}
use vyomanaut_v.Erasure.Field.Laws.{gf_mul_assoc, gf_mul-xor, gf_inv_lem}
use vyomanaut_v.Erasure.Row.{add_scaled, scale_row}
use vyomanaut_v.Erasure.Matrix.{
  Matrix, get_row, invert_matrix, gauss, gauss_round, find_pivot, augment, augmented_row,
  reduce_column, swap_rows, eliminate, eliminate_row,
}
use vyomanaut_v.Erasure.Matrix.Rows.{IsRow}
use vyomanaut_v.Erasure.Matrix.Inverse.{Maps, invert_matrix-Maps}
use vyomanaut_v.Erasure.Coder.{
  Profile, Engine, new_engine, encode_segment, decode_segment, split_package, encode, accumulate,
  xor_table, build_generator_matrix, vandermonde, vandermonde_row, generator_entry, generator_row,
  new_rs_encoder, encoding_row, profile_consistency_check,
}
use vyomanaut_v.Erasure.Coder.Built.{new_rs_encoder-IsBuilt}
use vyomanaut_v.Erasure.Coder.Shards.{picked}
use vyomanaut_v.Erasure.Coder.Codeword.{rows-invert}
use vyomanaut_v.Erasure.Coder.Roundtrip.{decode_segment-encode_segment}
use vyomanaut_v.Erasure.Coder.Outcomes.{
  IsConsistent, new_engine-ok_iff, concatenated, encode_segment-shape,
}

-- Two data shards and two parity shards of two bytes.
abbrev small_profile : Profile
small_profile = record { data_shards = 2; parity_shards = 2; total_shards = 4; shard_size = 2 }

abbrev small_engine : Engine
small_engine = record {
  data_shards = 2;
  parity_shards = 2;
  total_shards = 4;
  enc = record { data_shards = 2; parity = 2; gen = (2 ∷ 3 ∷ []) ∷ (6 ∷ 7 ∷ []) ∷ [] };
}

abbrev content : List ℕ
content = 1 ∷ 2 ∷ 3 ∷ 4 ∷ []

abbrev sent : List (List ℕ)
sent = (1 ∷ 2 ∷ []) ∷ (3 ∷ 4 ∷ []) ∷ (7 ∷ 8 ∷ []) ∷ (15 ∷ 16 ∷ []) ∷ []

abbrev parity_only : List (Option (List ℕ))
parity_only = none ∷ none ∷ some (7 ∷ 8 ∷ []) ∷ some (15 ∷ 16 ∷ []) ∷ []

small_engine-made : new_engine 2 small_profile ≡ ok small_engine
unfolding new_engine profile_consistency_check new_rs_encoder build_generator_matrix gf_mul gf_exp
    gf_log gf_pow gf_inv double invert_matrix gauss gauss_round find_pivot augment augmented_row
    reduce_column swap_rows eliminate eliminate_row add_scaled scale_row vandermonde vandermonde_row
    generator_entry generator_row
small_engine-made = refl

sent-made : encode_segment 2 small_engine content ≡ ok sent
unfolding encode_segment split_package encode accumulate xor_table gf_mul_table gf_mul gf_exp gf_log
    double
sent-made = refl

decode_segment-encode_segment_example : decode_segment 2 small_engine parity_only ≡ ok content
decode_segment-encode_segment_example =
    decode_segment-encode_segment 2 small_profile small_engine content sent parity_only
      (omega arith) small_engine-made (omega arith, (omega arith, (omega arith, (omega arith, tt))))
      sent-made (refl, (refl, tt)) (omega arith)

encode_segment-shape_example :
    (concatenated (take 2 sent) ≡ content) × (length sent ≡ 4) × All (λ s. length s ≡ 2) sent
encode_segment-shape_example =
    encode_segment-shape 2 small_profile small_engine content sent (omega arith) small_engine-made
      sent-made

new_engine-ok_iff_example :
    ((e : Engine) × (new_engine 2 small_profile ≡ ok e)) ↔ IsConsistent 2 small_profile
new_engine-ok_iff_example = new_engine-ok_iff 2 small_profile (omega arith)

rows-invert_example :
    (inverse : Matrix) × (invert_matrix
        (map
          (encoding_row (new_rs_encoder-IsBuilt 2 2 (omega arith) (omega arith) (omega arith)).0)
          (picked {A = ℕ} 0 2 (none ∷ some 0 ∷ none ∷ some 0 ∷ [])))
        2
      ≡ ok inverse)
rows-invert_example =
    rows-invert 2 2 (new_rs_encoder-IsBuilt 2 2 (omega arith) (omega arith) (omega arith)).0
      (new_rs_encoder-IsBuilt 2 2 (omega arith) (omega arith) (omega arith)).2 ℕ
      (none ∷ some 0 ∷ none ∷ some 0 ∷ []) (omega arith) refl

gf_mul_assoc_example : gf_mul (gf_mul 7 9) 200 ≡ gf_mul 7 (gf_mul 9 200)
gf_mul_assoc_example = gf_mul_assoc 7 9 200 (omega arith) (omega arith) (omega arith)

gf_mul-xor_example : gf_mul 7 (bit_xor 9 200) ≡ bit_xor (gf_mul 7 9) (gf_mul 7 200)
gf_mul-xor_example = gf_mul-xor 7 9 200 (omega arith) (omega arith) (omega arith)

gf_inv_lem_example : (y : ℕ) × (gf_inv 7 ≡ some y) × IsByte y × (gf_mul 7 y ≡ 1)
gf_inv_lem_example = gf_inv_lem 7 (omega arith) (λ e. omega arith)

abbrev two_rows : Matrix
two_rows = (1 ∷ 1 ∷ []) ∷ (1 ∷ 2 ∷ []) ∷ []

abbrev two_rows_inverse : Matrix
two_rows_inverse = (245 ∷ 244 ∷ []) ∷ (244 ∷ 244 ∷ []) ∷ []

two_rows-IsRow : (j : ℕ) → j < 2 → IsRow 2 (get_row two_rows j)
two_rows-IsRow zero h = (refl, (omega arith, (omega arith, tt)))
two_rows-IsRow (suc zero) h = (refl, (omega arith, (omega arith, tt)))
two_rows-IsRow (suc (suc j)) h = absurd (omega arith)

two_rows_inverse-made : invert_matrix two_rows 2 ≡ ok two_rows_inverse
unfolding invert_matrix gauss gauss_round find_pivot augment augmented_row reduce_column swap_rows
    eliminate eliminate_row add_scaled scale_row gf_inv gf_mul gf_exp gf_log double
two_rows_inverse-made = refl

invert_matrix-Maps_example :
    Maps 2 two_rows (5 ∷ 6 ∷ []) (3 ∷ 9 ∷ []) ↔ Maps 2 two_rows_inverse (3 ∷ 9 ∷ []) (5 ∷ 6 ∷ [])
invert_matrix-Maps_example =
    invert_matrix-Maps 2 two_rows refl two_rows-IsRow two_rows_inverse (5 ∷ 6 ∷ []) (3 ∷ 9 ∷ [])
      two_rows_inverse-made (refl, (omega arith, (omega arith, tt)))
      (refl, (omega arith, (omega arith, tt)))
