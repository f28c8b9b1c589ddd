-- ===== src/Erasure/Coder/Roundtrip.antt =====
-- `DecodeSegment` gives back what `EncodeSegment` took (engine.go), from any `data_shards` shards.
use vyomanaut_v.Base.{
  ℕ, ◌+◌, ◌*◌, ◌≤◌, ◌≡◌, refl, sym, ap, ◌∙◌, List, Option, arith, length, le→ltb, ==_refl, subst,
}
use vyomanaut_v.Base.Result.{ok, ◌>>=◌, >>=-eq-ok, ok-injective}
use vyomanaut_v.Erasure.Row.{Bytes}
use vyomanaut_v.Erasure.Coder.{
  Encoder, new_rs_encoder, Profile, Engine, profile_consistency_check, new_engine, encode_segment,
  decode_segment,
}
use vyomanaut_v.Erasure.Coder.Built.{IsBuilt, new_rs_encoder-IsBuilt}
use vyomanaut_v.Erasure.Coder.Shards.{present}
use vyomanaut_v.Erasure.Coder.Survivors.{Survives}
use vyomanaut_v.Erasure.Coder.Reconstruct.{sent, reconstruct-joined}

module _ (d p size : ℕ) where
  -- The profile of the engine.
  abbrev pub profile : Profile
  profile = record { data_shards = d; parity_shards = p; total_shards = d + p; shard_size = size }

  abbrev pub built : Encoder → Engine
  built enc = record { data_shards = d; parity_shards = p; total_shards = d + p; enc = enc }

  pub new_engine-built :
      1 ≤ d
      → 1 ≤ p
      → d + p ≤ 255
      → (enc : Encoder) × (new_engine size profile ≡ ok (built enc)) × IsBuilt d p enc
  unfolding new_engine profile_consistency_check
  new_engine-built hd hp small =
      let (enc, made, b) = new_rs_encoder-IsBuilt d p hd hp small in
      (enc, rw (==_refl (d + p), ==_refl size, le→ltb d 1 hd, made) refl, b)

  pub encode_segment-sent :
      (enc : Encoder) (content : List ℕ)
      → length content ≡ d * size
      → (b : IsBuilt d p enc)
      → encode_segment size (built enc) content ≡ ok (sent d p size enc b content)
  unfolding encode_segment sent
  encode_segment-sent enc content l b = rw (l, ==_refl (d * size)) refl

  decode_segment-built :
      (enc : Encoder) (content : List ℕ) (b : IsBuilt d p enc) (received : List (Option (List ℕ)))
      → length content ≡ d * size
      → Bytes content
      → Survives (sent d p size enc b content) received
      → d ≤ present received
      → decode_segment size (built enc) received ≡ ok content
  unfolding decode_segment
  decode_segment-built enc content b received l h survives enough =
      let (filled, e, joins, length_in, checked) =
        reconstruct-joined d p size enc b content received l h survives enough in
      rw
        (
          length_in,
          ==_refl (d + p),
          checked,
          le→ltb (0 + present received) d (omega (arith, enough)),
          e,
          joins,
        )
        refl

pub new_rs_encoder-guards :
    (d p : ℕ) (enc : Encoder) → new_rs_encoder d p ≡ ok enc → (1 ≤ d) × (1 ≤ p)
unfolding new_rs_encoder
new_rs_encoder-guards d p enc h = ground (arith, h)

pub profile_consistency_check-guards :
    (size : ℕ) (p : Profile)
    → profile_consistency_check size p ≡ ok tt
    → (p.total_shards ≡ p.data_shards + p.parity_shards) × (p.shard_size ≡ size)
unfolding profile_consistency_check
profile_consistency_check-guards size p h = ground (arith, h)

-- An engine that `new_engine` gives.
pub new_engine-inverts :
    (size : ℕ) (p : Profile) (e : Engine)
    → p.data_shards + p.parity_shards ≤ 255
    → new_engine size p ≡ ok e
    → (enc : Encoder) × (e ≡ built p.data_shards p.parity_shards size enc)
      × IsBuilt p.data_shards p.parity_shards enc
unfolding new_engine
new_engine-inverts size p e small h =
    let make : Encoder → Engine = λ enc. record {
      data_shards = p.data_shards;
      parity_shards = p.parity_shards;
      total_shards = p.total_shards;
      enc = enc;
    } in
    let (u, checked, made) =
      >>=-eq-ok (profile_consistency_check size p)
        (λ _. new_rs_encoder p.data_shards p.parity_shards >>= λ enc. ok (make enc)) h in
    let (enc, ready, same) =
      >>=-eq-ok (new_rs_encoder p.data_shards p.parity_shards) (λ enc. ok (make enc)) made in
    let (hd, hp) = new_rs_encoder-guards p.data_shards p.parity_shards enc ready in
    let (enc2, ready2, b) = new_rs_encoder-IsBuilt p.data_shards p.parity_shards hd hp small in
    (
      enc,
      ok-injective (sym same)
          ∙ ap
              (λ (t : ℕ). record {
                data_shards = p.data_shards;
                parity_shards = p.parity_shards;
                total_shards = t;
                enc = enc;
              })
              (profile_consistency_check-guards size p checked).0,
      subst (IsBuilt p.data_shards p.parity_shards) (ok-injective (sym ready2 ∙ ready)) b,
    )

pub encode_segment-guard :
    (size : ℕ) (e : Engine) (content : List ℕ) (shards : List (List ℕ))
    → encode_segment size e content ≡ ok shards
    → length content ≡ e.data_shards * size
unfolding encode_segment
encode_segment-guard size e content shards h = ground (arith, h)

-- Whatever shards of an encoded segment are lost, as long as `data_shards` of them are left,
-- `decode_segment` succeeds and gives back the content. The engine is one that `new_engine` gave for
-- a profile of at most 255 shards, and the content consists of bytes.
pub decode_segment-encode_segment :
    (size : ℕ) (p : Profile) (e : Engine) (content : List ℕ) (shards : List (List ℕ))
    (received : List (Option (List ℕ)))
    → p.data_shards + p.parity_shards ≤ 255
    → new_engine size p ≡ ok e
    → Bytes content
    → encode_segment size e content ≡ ok shards
    → Survives shards received
    → e.data_shards ≤ present received
    → decode_segment size e received ≡ ok content
decode_segment-encode_segment size p e content shards received small made h encoded survives
      enough =
    let (enc, same, b) = new_engine-inverts size p e small made in
    let d : ℕ = p.data_shards in
    let l : length content ≡ d * size =
      encode_segment-guard size e content shards encoded
      ∙ ap (λ (t : Engine). t.data_shards * size) same in
    let is_sent : sent d p.parity_shards size enc b content ≡ shards = ok-injective (
      sym (encode_segment-sent d p.parity_shards size enc content l b)
      ∙ ap (λ (t : Engine). encode_segment size t content) (sym same)
      ∙ encoded) in
    ap (λ (t : Engine). decode_segment size t received) same
    ∙ decode_segment-built d p.parity_shards size enc content b received l h
        (subst (λ (t : List (List ℕ)). Survives t received) (sym is_sent) survives)
        (subst (λ (t : Engine). t.data_shards ≤ present received) same enough)
