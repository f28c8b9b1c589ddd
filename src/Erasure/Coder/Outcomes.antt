-- ===== src/Erasure/Coder/Outcomes.antt =====
-- What `NewEngine`, `EncodeSegment` and `DecodeSegment` accept and what they refuse (engine.go).
use vyomanaut_v.Base.{
  ℕ, zero, suc, ◌+◌, ◌*◌, ◌≤◌, ◌≡◌, ◌↔◌, refl, sym, ap, ap₂, ◌∙◌, Bool, true, List, [], ◌∷◌, ◌++◌,
  map, Option, none, some, arith, length, replicate, take, drop, All, if◌then◌else◌, ◌==◌, lt→ltb,
  not, ==_refl, ==_ne, subst, ℕ_discrete, take-append, take-append-drop, length-drop, length-take,
  ◌<◌, length-map, length-replicate, length-append, All-append,
}
use vyomanaut_v.Base.Result.{ok, err, ◌>>=◌, >>=-eq-ok, ok-injective}
use vyomanaut_v.Erasure.Matrix.{package_size, too_few_shards, shard_size}
use vyomanaut_v.Erasure.Coder.{
  Profile, Engine, accumulate, encode, profile_consistency_check, new_rs_encoder, new_engine,
  split_package, encode_segment, check_shards, decode_segment,
}
use vyomanaut_v.Erasure.Coder.Shards.{present, Sized, check_shards-Sized, length-accumulate}
use vyomanaut_v.Erasure.Coder.Codeword.{length-gen}
use vyomanaut_v.Erasure.Coder.Roundtrip.{
  new_engine-inverts, new_engine-built, built, encode_segment-guard, new_rs_encoder-guards,
  profile_consistency_check-guards,
}

-- What a profile needs for an engine.
abbrev pub IsConsistent : ℕ → Profile → Type 0
IsConsistent size p =
    (1 ≤ p.data_shards)
    × (1 ≤ p.parity_shards)
    × (p.total_shards ≡ p.data_shards + p.parity_shards)
    × (p.shard_size ≡ size)

new_engine-IsConsistent :
    (size : ℕ) (p : Profile) (e : Engine) → new_engine size p ≡ ok e → IsConsistent size p
unfolding new_engine
new_engine-IsConsistent size p e h =
    let (u, checked, made) =
      >>=-eq-ok (profile_consistency_check size p)
        (λ _. new_rs_encoder p.data_shards p.parity_shards >>= λ enc. ok (record {
          data_shards = p.data_shards;
          parity_shards = p.parity_shards;
          total_shards = p.total_shards;
          enc = enc;
        }))
        h in
    let (enc, ready, same) =
      >>=-eq-ok (new_rs_encoder p.data_shards p.parity_shards)
        (λ enc. ok (record {
          data_shards = p.data_shards;
          parity_shards = p.parity_shards;
          total_shards = p.total_shards;
          enc = enc;
        }))
        made in
    let (hd, hp) = new_rs_encoder-guards p.data_shards p.parity_shards enc ready in
    let (total, same_size) = profile_consistency_check-guards size p checked in
    (hd, hp, total, same_size)

new_engine_total :
    (size : ℕ) (p : Profile)
    → p.data_shards + p.parity_shards ≤ 255
    → IsConsistent size p
    → (e : Engine) × (new_engine size p ≡ ok e)
new_engine_total size p small (hd, hp, total, same_size) =
    let (enc, made, b) = new_engine-built p.data_shards p.parity_shards size hd hp small in
    (
      built p.data_shards p.parity_shards size enc,
      ap₂
            (λ (t s : ℕ). new_engine size (record {
              data_shards = p.data_shards;
              parity_shards = p.parity_shards;
              total_shards = t;
              shard_size = s;
            }))
            total same_size
          ∙ made,
    )

-- For a profile of at most 255 shards `new_engine` succeeds exactly if there is a data shard and a
-- parity shard, their sum is the total and the profile's shard size is the constant.
pub new_engine-ok_iff :
    (size : ℕ) (p : Profile)
    → p.data_shards + p.parity_shards ≤ 255
    → ((e : Engine) × (new_engine size p ≡ ok e)) ↔ IsConsistent size p
new_engine-ok_iff size p small =
    (λ e. new_engine-IsConsistent size p e.0 e.1, new_engine_total size p small)

sized-encode :
    (size : ℕ) (shards rows : List (List ℕ))
    → All (λ s. length s ≡ size) (map (λ row. accumulate row shards (replicate size 0)) rows)
sized-encode size shards [] = tt
sized-encode size shards (row ∷ rows) = (
  length-accumulate row shards (replicate size 0) ∙ length-replicate size 0,
  sized-encode size shards rows,
)

split_sized :
    (size k : ℕ) (content : List ℕ)
    → length content ≡ k * size
    → (length (split_package size k content) ≡ k)
      × All (λ s. length s ≡ size) (split_package size k content)
unfolding split_package
split_sized size zero content l = (refl, tt)
split_sized size (suc k) content l =
    let (n, rows) =
      split_sized size k (drop size content) (length-drop size content ∙ omega arith) in
    (ap suc n, (length-take size content ∙ omega arith, rows))

-- The bytes of the shards, one shard after the other.
abbrev pub concatenated : List (List ℕ) → List ℕ
concatenated [] = []
concatenated (s ∷ shards) = s ++ concatenated shards

nothing_left : (content : List ℕ) → length content ≡ 0 → [] ≡ content
nothing_left [] l = refl
nothing_left (x ∷ content) l = absurd (omega (arith, l))

concatenated-split_package :
    (size k : ℕ) (content : List ℕ)
    → length content ≡ k * size
    → concatenated (split_package size k content) ≡ content
unfolding split_package
concatenated-split_package size zero content l = nothing_left content (l ∙ omega arith)
concatenated-split_package size (suc k) content l =
    ap (λ (t : List ℕ). take size content ++ t)
      (concatenated-split_package size k (drop size content)
        (length-drop size content ∙ omega arith))
    ∙ take-append-drop size content

-- The first `data_shards` shards of an encoded segment, one after the other, are the content itself;
-- there are as many shards as the engine's total, each of the shard size. The engine is one that `new_engine`
-- gave for a profile of at most 255 shards.
pub encode_segment-shape :
    (size : ℕ) (p : Profile) (e : Engine) (content : List ℕ) (shards : List (List ℕ))
    → p.data_shards + p.parity_shards ≤ 255
    → new_engine size p ≡ ok e
    → encode_segment size e content ≡ ok shards
    → (concatenated (take e.data_shards shards) ≡ content)
      × (length shards ≡ e.total_shards)
      × All (λ s. length s ≡ size) shards
unfolding encode_segment encode
encode_segment-shape size p e content shards small made encoded =
    let l = encode_segment-guard size e content shards encoded in
    let (enc, same, b) = new_engine-inverts size p e small made in
    let data_list : List (List ℕ) = split_package size e.data_shards content in
    let (n, sized) = split_sized size e.data_shards content l in
    let parity_list : List (List ℕ) =
      map (λ row. accumulate row data_list (replicate size 0)) e.enc.gen in
    let shape : data_list ++ parity_list ≡ shards = ok-injective (
      ap (λ (t : Bool). if not t then err package_size else ok (data_list ++ parity_list))
        {x = true} {y = length content == e.data_shards * size}
        (sym (ap (λ (t : ℕ). t == e.data_shards * size) l ∙ ==_refl (e.data_shards * size)))
      ∙ encoded) in
    let parity_count : length e.enc.gen ≡ p.parity_shards =
      ap (λ (t : Engine). length t.enc.gen) same ∙ length-gen p.data_shards p.parity_shards enc b in
    (
      ap concatenated (
            ap (λ (t : List (List ℕ)). take e.data_shards t) (sym shape)
            ∙ ap (λ (t : ℕ). take t (data_list ++ parity_list)) (sym n)
            ∙ take-append data_list parity_list)
          ∙ concatenated-split_package size e.data_shards content l,
      ap (λ (t : List (List ℕ)). length t) (sym shape)
          ∙ length-append data_list parity_list
          ∙ ap₂ (λ (a b : ℕ). a + b) (n ∙ ap (λ (t : Engine). t.data_shards) same)
              (length-map (λ row. accumulate row data_list (replicate size 0)) e.enc.gen
                ∙ parity_count)
          ∙ sym (ap (λ (t : Engine). t.total_shards) same),
      subst (All (λ s. length s ≡ size)) shape (
          All-append (λ s. length s ≡ size) data_list parity_list sized
            (sized-encode size data_list e.enc.gen)),
    )

-- With the right number of shards, all of the shard size, but fewer than `data_shards` of them,
-- `decode_segment` fails with the error for too few shards.
decode_segment-too_few :
    (size : ℕ) (e : Engine) (received : List (Option (List ℕ)))
    → length received ≡ e.total_shards
    → Sized size received
    → present received < e.data_shards
    → decode_segment size e received ≡ err too_few_shards
unfolding decode_segment
decode_segment-too_few size e received l sized few =
    rw
      (
        l,
        ==_refl e.total_shards,
        check_shards-Sized size received 0 sized,
        lt→ltb (0 + present received) e.data_shards (omega (arith, few)),
      )
      refl

check_shards-unsized :
    (size : ℕ) (received : List (Option (List ℕ))) (n : ℕ)
    → ¬ Sized size received
    → check_shards size received n ≡ err shard_size
unfolding check_shards
check_shards-unsized size [] n h = absurd (h tt)
check_shards-unsized size (none ∷ received) n h = check_shards-unsized size received n h
check_shards-unsized size (some s ∷ received) n h = elim (ℕ_discrete (length s) size) [
  | yes e ↦ rw (e, ==_refl size) (check_shards-unsized size received (suc n) (λ rest. h (e, rest)))
  | no e ↦ rw (==_ne (length s) size e) refl
]

-- A shard of another size, whatever its place, makes `decode_segment` fail with the size error
-- when the number of shards is right.
pub decode_segment-unsized :
    (size : ℕ) (e : Engine) (received : List (Option (List ℕ)))
    → length received ≡ e.total_shards
    → ¬ Sized size received
    → decode_segment size e received ≡ err shard_size
unfolding decode_segment
decode_segment-unsized size e received l unsized =
    rw (l, ==_refl e.total_shards, check_shards-unsized size received 0 unsized) refl
