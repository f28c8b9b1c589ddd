-- ===== src/Erasure/Coder.antt =====
-- internal/erasure: `buildGeneratorMatrix`, `rsEncoder` (rs_internal.go), `profileConsistencyCheck`
-- (params.go) and the engine (engine.go). A shard is a list of bytes and a nil shard is `none`.
-- `size` stands for the constant ShardSize (262144), so that a test can run on short shards.
pub mod Generator
pub mod Systematic
pub mod Built
pub mod Shards
pub mod Codeword
pub mod Segment
pub mod Survivors
pub mod Reconstruct
pub mod Roundtrip
pub mod Outcomes
use vyomanaut_v.Base.{
  ℕ, zero, suc, ◌+◌, ◌-◌, ◌*◌, Bool, true, false, ◌||◌, ◌&&◌, not, ◌==◌, ltb, if◌then◌else◌, List,
  [], ◌∷◌, ◌++◌, map, Option, none, some, is_some, bit_xor, length, get_or, set, take, drop,
  replicate,
}
use vyomanaut_v.Base.Result.{Result, ok, err, ◌>>=◌, ◌>>◌}
use vyomanaut_v.Erasure.Field.{gf_mul, gf_pow, gf_mul_table}
use vyomanaut_v.Erasure.Matrix.{
  Matrix, get_row, entry, invert_matrix, Error, data_shards_zero, total_shards_mismatch,
  shard_size_mismatch, too_few_shards, shard_size, shard_count, package_size, bad_parameters,
}

abbrev pub primitive_element : ℕ
primitive_element = 2

-- `vm[r][c] = gfPow(2, r*c)`, from column `c` on, with `k` columns left.
unfoldable pub vandermonde_row : ℕ → ℕ → ℕ → List ℕ
vandermonde_row zero r c = []
vandermonde_row (suc k) r c = gf_pow primitive_element (r * c) ∷ vandermonde_row k r (suc c)

-- The rows `r`, `r+1`, …, of `data` columns.
unfoldable pub vandermonde : ℕ → ℕ → ℕ → Matrix
vandermonde zero data_shards r = []
vandermonde (suc k) data_shards r =
    vandermonde_row data_shards r 0 ∷ vandermonde k data_shards (suc r)

-- `acc ^= gfMul(row[k], inv[k][c])` over the rows of the inverse.
unfoldable pub generator_entry : List ℕ → Matrix → ℕ → ℕ → ℕ
generator_entry [] inverse c acc = acc
generator_entry (x ∷ row) [] c acc = acc
generator_entry (x ∷ row) (r ∷ inverse) c acc =
    generator_entry row inverse c (bit_xor acc (gf_mul x (get_or r c 0)))

-- `gen[r][c]` from column `c` on, with `k` columns left.
unfoldable pub generator_row : ℕ → ℕ → List ℕ → Matrix → List ℕ
generator_row zero c row inverse = []
generator_row (suc k) c row inverse =
    generator_entry row inverse c 0 ∷ generator_row k (suc c) row inverse

unfoldable pub build_generator_matrix : ℕ → ℕ → Result Error Matrix
build_generator_matrix data_shards parity =
    let vm = vandermonde (data_shards + parity) data_shards 0 in
    invert_matrix (take data_shards vm) data_shards >>= λ inverse.
    ok (map (λ row. generator_row data_shards 0 row inverse) (drop data_shards vm))

pub record Encoder : Type 0 where
  pub data_shards : ℕ
  pub parity : ℕ
  pub gen : Matrix

unfoldable pub new_rs_encoder : ℕ → ℕ → Result Error Encoder
new_rs_encoder data_shards parity =
    if ltb data_shards 1 || ltb parity 1
    then err bad_parameters
    else build_generator_matrix data_shards parity >>= λ gen.
        ok (record { data_shards = data_shards; parity = parity; gen = gen })

-- `ps[i] ^= table[ds[i]]` for every index of `ps`.
unfoldable pub xor_table : (ℕ → ℕ) → List ℕ → List ℕ → List ℕ
xor_table table ds [] = []
xor_table table [] (p ∷ ps) = p ∷ ps
xor_table table (d ∷ ds) (p ∷ ps) = bit_xor p (table d) ∷ xor_table table ds ps

-- The loop over the factors of a row and the shards, with its `continue` at 0.
unfoldable pub accumulate : List ℕ → List (List ℕ) → List ℕ → List ℕ
accumulate [] shards ps = ps
accumulate (factor ∷ row) [] ps = ps
accumulate (factor ∷ row) (ds ∷ shards) ps =
    accumulate row shards (if factor == 0 then ps else xor_table (gf_mul_table factor) ds ps)

-- The parity shards of `encode`, each set to 0 first.
unfoldable pub encode : Encoder → ℕ → List (List ℕ) → List (List ℕ)
encode enc size shards = map (λ row. accumulate row shards (replicate size 0)) enc.gen

-- Row `i` of the full encoding matrix.
unfoldable pub encoding_row : Encoder → ℕ → List ℕ
encoding_row enc i =
    if ltb i enc.data_shards
    then set (replicate enc.data_shards 0) i 1
    else get_row enc.gen (i - enc.data_shards)

-- The first `need` shards at hand, from index `i` on, with their rows.
unfoldable pub select_shards : Encoder → ℕ → ℕ → List (Option (List ℕ)) → List (List ℕ × List ℕ)
select_shards enc i need [] = []
select_shards enc i zero (s ∷ shards) = []
select_shards enc i (suc need) (none ∷ shards) = select_shards enc (suc i) (suc need) shards
select_shards enc i (suc need) (some s ∷ shards) =
    (encoding_row enc i, s) ∷ select_shards enc (suc i) need shards

-- The length of the first shard at hand that is not empty, and how many are at hand.
unfoldable pub survey : List (Option (List ℕ)) → ℕ → ℕ → ℕ × ℕ
survey [] size non_nil = (size, non_nil)
survey (none ∷ shards) size non_nil = survey shards size non_nil
survey (some s ∷ shards) size non_nil =
    survey shards (if size == 0 then length s else size) (suc non_nil)

-- Whether the first `k` shards are at hand.
unfoldable pub all_present : ℕ → List (Option (List ℕ)) → Bool
all_present zero shards = true
all_present (suc k) [] = false
all_present (suc k) (s ∷ shards) = is_some s && all_present k shards

-- The loop over the first `k` shards that fills the missing ones, from index `i` on.
unfoldable pub fill_missing :
    ℕ → ℕ → ℕ → Matrix → List (List ℕ) → List (Option (List ℕ)) → List (Option (List ℕ))
fill_missing k i size inverse sub [] = []
fill_missing zero i size inverse sub (s ∷ shards) = s ∷ shards
fill_missing (suc k) i size inverse sub (some s ∷ shards) =
    some s ∷ fill_missing k (suc i) size inverse sub shards
fill_missing (suc k) i size inverse sub (none ∷ shards) =
    some (accumulate (get_row inverse i) sub (replicate size 0))
    ∷ fill_missing k (suc i) size inverse sub shards

unfoldable pub reconstruct :
    Encoder → List (Option (List ℕ)) → Result Error (List (Option (List ℕ)))
reconstruct enc shards =
    if not (length shards == enc.data_shards + enc.parity)
    then err shard_count
    else let (size, non_nil) = survey shards 0 0 in
      if ltb non_nil enc.data_shards
      then err too_few_shards
      else if all_present enc.data_shards shards
      then ok shards
      else let selected = select_shards enc 0 enc.data_shards shards in
        invert_matrix (map (λ p. p.0) selected) enc.data_shards >>= λ inverse.
        ok (fill_missing enc.data_shards 0 size inverse (map (λ p. p.1) selected) shards)

-- The fields of `config.NetworkProfile` that the content reads.
pub record Profile : Type 0 where
  pub data_shards : ℕ
  pub parity_shards : ℕ
  pub total_shards : ℕ
  pub shard_size : ℕ

pub record Engine : Type 0 where
  pub data_shards : ℕ
  pub parity_shards : ℕ
  pub total_shards : ℕ
  pub enc : Encoder

-- The shard size of the source.
abbrev pub shard_size_bytes : ℕ
shard_size_bytes = 262144

-- The first `k` shards one after the other; a nil shard appends nothing.
unfoldable pub concat_shards : ℕ → List (Option (List ℕ)) → List ℕ
concat_shards zero shards = []
concat_shards (suc k) [] = []
concat_shards (suc k) (none ∷ shards) = concat_shards k shards
concat_shards (suc k) (some s ∷ shards) = s ++ concat_shards k shards

module _ (size : ℕ) where
  unfoldable pub profile_consistency_check : Profile → Result Error (Unit {0})
  profile_consistency_check p =
      if ltb p.data_shards 1
      then err data_shards_zero
      else if not (p.total_shards == p.data_shards + p.parity_shards)
      then err total_shards_mismatch
      else if not (p.shard_size == size)
      then err shard_size_mismatch
      else ok tt

  unfoldable pub new_engine : Profile → Result Error Engine
  new_engine p =
      profile_consistency_check p
      >> (new_rs_encoder p.data_shards p.parity_shards >>= λ enc. ok (record {
        data_shards = p.data_shards;
        parity_shards = p.parity_shards;
        total_shards = p.total_shards;
        enc = enc;
      }))

  -- `aontPackage[i*ShardSize : (i+1)*ShardSize]` for `k` shards.
  unfoldable pub split_package : ℕ → List ℕ → List (List ℕ)
  split_package zero content = []
  split_package (suc k) content = take size content ∷ split_package k (drop size content)

  unfoldable pub encode_segment : Engine → List ℕ → Result Error (List (List ℕ))
  encode_segment e content =
      if not (length content == e.data_shards * size)
      then err package_size
      else let shards = split_package e.data_shards content in
        ok (shards ++ encode e.enc size shards)

  -- The sizes and the number of the shards at hand.
  unfoldable pub check_shards : List (Option (List ℕ)) → ℕ → Result Error ℕ
  check_shards [] non_nil = ok non_nil
  check_shards (none ∷ shards) non_nil = check_shards shards non_nil
  check_shards (some s ∷ shards) non_nil =
      if not (length s == size) then err shard_size else check_shards shards (suc non_nil)

  unfoldable pub decode_segment : Engine → List (Option (List ℕ)) → Result Error (List ℕ)
  decode_segment e shards =
      if not (length shards == e.total_shards)
      then err shard_count
      else check_shards shards 0 >>= λ non_nil.
          if ltb non_nil e.data_shards
          then err too_few_shards
          else reconstruct e.enc shards >>= λ filled. ok (concat_shards e.data_shards filled)
