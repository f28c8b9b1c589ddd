-- ===== src/Audit/Signing.antt =====
-- The signed bytes of internal/audit/challenge.go and validate.go. HMAC-SHA256 and the check of a
-- signature are parameters. A timestamp is the bit pattern of an int64.
use vyomanaut_v.Base.{
  ℕ, ◌+◌, ◌^◌, ◌<◌, ◌≡◌, refl, sym, ap, ◌∙◌, Bool, [], ◌∷◌, ◌++◌, Option, none, some, ◌==◌,
  if◌then◌else◌, length, drop, get_or, ap₂, ◌≢◌, arith, length-append,
}
use vyomanaut_v.Base.Bytes.{Bytes, be_bytes, be_value, length-be_bytes, be_value-be_bytes}
use vyomanaut_v.Base.Result.{Result, ok, err}

pub data SigningError : Type 0 where
  invalid_signature : SigningError

abbrev pub server_secret_size : ℕ
server_secret_size = 32

-- A panic is `none`.
unfoldable pub challenge_nonce : (Bytes → Bytes → Bytes) → Bytes → ℕ → Bytes → ℕ → Option Bytes
challenge_nonce hmac server_secret version chunk_id server_ts_ms =
    if length server_secret == server_secret_size
    then some (version ∷ hmac server_secret (chunk_id ++ be_bytes 8 server_ts_ms))
    else none

unfoldable pub response_input : Bytes → Bytes → ℕ → Bytes → Bytes
response_input response_hash nonce ts provider_id =
    response_hash ++ (nonce ++ (be_bytes 8 ts ++ provider_id))

unfoldable pub fail_input : ℕ → Bytes → ℕ → Bytes → Bytes
fail_input status nonce ts provider_id = status ∷ (nonce ++ (be_bytes 8 ts ++ provider_id))

module _ (verify_bytes : Bytes → Bytes → Bytes → Bool) where
  unfoldable pub validate_response :
      Bytes → Bytes → ℕ → Bytes → Bytes → Bytes → Result SigningError (Unit {0})
  validate_response nonce response_hash ts provider_id provider_sig public_key =
      if verify_bytes public_key (response_input response_hash nonce ts provider_id) provider_sig
      then ok tt
      else err invalid_signature

  unfoldable pub validate_fail_response :
      ℕ → Bytes → ℕ → Bytes → Bytes → Bytes → Result SigningError (Unit {0})
  validate_fail_response status nonce ts provider_id provider_sig public_key =
      if verify_bytes public_key (fail_input status nonce ts provider_id) provider_sig
      then ok tt
      else err invalid_signature

append-injective :
    (xs ys us vs : Bytes) → length xs ≡ length us → xs ++ ys ≡ us ++ vs → (xs ≡ us) × (ys ≡ vs)
append-injective [] ys [] vs l e = (refl, e)
append-injective [] ys (u ∷ us) vs l e = absurd (omega arith)
append-injective (x ∷ xs) ys [] vs l e = absurd (omega arith)
append-injective (x ∷ xs) ys (u ∷ us) vs l e =
    let (same_tail, rest) = append-injective xs ys us vs (omega arith) (ap (drop 1) e) in
    (ap₂ (λ (a : ℕ) (l : Bytes). a ∷ l) (ap (λ (l : Bytes). get_or l 0 0) e) same_tail, rest)

be_bytes-injective : (s t : ℕ) → s < 2 ^ 64 → t < 2 ^ 64 → be_bytes 8 s ≡ be_bytes 8 t → s ≡ t
be_bytes-injective s t hs ht e =
    omega (arith, be_value-be_bytes 8 s 0, be_value-be_bytes 8 t 0, ap (be_value 0) e)

-- The fields of an answer that a provider signs.
pub record Signed : Type 0 where
  pub response_hash : Bytes
  pub nonce : Bytes
  pub ts : ℕ
  pub provider_id : Bytes

-- The lengths of the code's arrays.
pub record IsSized (a : Signed) : Type 0 where
  pub hash_length : length a.response_hash ≡ 32
  pub nonce_length : length a.nonce ≡ 33
  pub ts_is_word : a.ts < 2 ^ 64
  pub id_length : length a.provider_id ≡ 16

abbrev pub signed_input : Signed → Bytes
signed_input a = response_input a.response_hash a.nonce a.ts a.provider_id

-- Two answers with the same signed bytes are the same in every field.
pub response_input-injective :
    (a b : Signed)
    → IsSized a
    → IsSized b
    → signed_input a ≡ signed_input b
    → (a.response_hash ≡ b.response_hash)
      × (a.nonce ≡ b.nonce)
      × (a.ts ≡ b.ts)
      × (a.provider_id ≡ b.provider_id)
unfolding response_input
response_input-injective a b ha hb e =
    let (same_hash, rest) =
      append-injective a.response_hash (a.nonce ++ (be_bytes 8 a.ts ++ a.provider_id))
        b.response_hash (b.nonce ++ (be_bytes 8 b.ts ++ b.provider_id))
        (ha.hash_length ∙ sym hb.hash_length) e in
    let (same_nonce, last) =
      append-injective a.nonce (be_bytes 8 a.ts ++ a.provider_id) b.nonce
        (be_bytes 8 b.ts ++ b.provider_id) (ha.nonce_length ∙ sym hb.nonce_length) rest in
    let (same_ts, same_id) =
      append-injective (be_bytes 8 a.ts) a.provider_id (be_bytes 8 b.ts) b.provider_id refl last in
    (
      same_hash,
      same_nonce,
      be_bytes-injective a.ts b.ts ha.ts_is_word hb.ts_is_word same_ts,
      same_id,
    )

length-input :
    (nonce : Bytes) (ts : ℕ) (provider_id : Bytes)
    → length (nonce ++ (be_bytes 8 ts ++ provider_id)) ≡ length nonce + 8 + length provider_id
length-input nonce ts provider_id = omega (
  arith,
  length-append nonce (be_bytes 8 ts ++ provider_id),
  length-append (be_bytes 8 ts) provider_id,
  length-be_bytes 8 ts,
)

-- A signature of a failure report is never one of an answer: their signed bytes differ for all fields.
pub fail_input-response_input :
    (a : Signed) (status : ℕ) (nonce : Bytes) (ts : ℕ) (provider_id : Bytes)
    → IsSized a
    → length nonce ≡ 33
    → length provider_id ≡ 16
    → fail_input status nonce ts provider_id ≢ signed_input a
unfolding fail_input response_input
fail_input-response_input a status nonce ts provider_id ha hn hp e = omega (
  arith,
  ap length e,
  length-input nonce ts provider_id,
  length-input a.nonce a.ts a.provider_id,
  length-append a.response_hash (a.nonce ++ (be_bytes 8 a.ts ++ a.provider_id)),
)
