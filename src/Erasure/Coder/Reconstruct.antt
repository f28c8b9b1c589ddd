-- ===== src/Erasure/Coder/Reconstruct.antt =====
-- The branches of `reconstruct` (rs_internal.go), and what it fills in.
use vyomanaut_v.Base.{
  ℕ, ◌+◌, ◌*◌, ◌<◌, ◌≤◌, ◌≡◌, refl, sym, ap, ap₂, ◌∙◌, true, false, List, ◌++◌, map, Option, arith,
  length, replicate, length-map, lt→ltb, le→ltb, Bool-cases, inl, inr, ==_refl, subst,
  length-append,
}
use vyomanaut_v.Base.Result.{ok, err}
use vyomanaut_v.Erasure.Row.{Bytes}
use vyomanaut_v.Erasure.Matrix.{too_few_shards, Matrix, invert_matrix}
use vyomanaut_v.Erasure.Coder.{
  Encoder, accumulate, encode, select_shards, fill_missing, all_present, reconstruct, split_package,
  check_shards, concat_shards, survey,
}
use vyomanaut_v.Erasure.Coder.Built.{IsBuilt}
use vyomanaut_v.Erasure.Coder.Shards.{
  From, Sized, picked, present, select_shards-rows, select_shards-shards, length-picked,
  picked-bound, check_shards-Sized, survey-Sized,
}
use vyomanaut_v.Erasure.Coder.Codeword.{length-gen, rows-invert}
use vyomanaut_v.Erasure.Coder.Segment.{get_or-code, code, code-data, length-code, filled_shard}
use vyomanaut_v.Erasure.Coder.Survivors.{
  Survives, length-Survives, From-Survives, Sized-From, joined, joined_split, split_package-IsRow,
  concat_present, concat_filled,
}

-- The branches of `reconstruct`.
reconstruct_missing :
    (d size n : ℕ) (enc : Encoder) (inverse : Matrix) (received : List (Option (List ℕ)))
    → enc.data_shards ≡ d
    → length received ≡ d + enc.parity
    → survey received 0 0 ≡ (size, n)
    → d ≤ n
    → all_present d received ≡ false
    → invert_matrix (map (λ s. s.0) (select_shards enc 0 d received)) d ≡ ok inverse
    → reconstruct enc received
      ≡ ok
          (fill_missing d 0 size inverse (map (λ s. s.1) (select_shards enc 0 d received)) received)
unfolding reconstruct
reconstruct_missing d size n enc inverse received same =
    subst
      (λ (k : ℕ).
        length received ≡ k + enc.parity
        → survey received 0 0 ≡ (size, n)
        → k ≤ n
        → all_present k received ≡ false
        → invert_matrix (map (λ s. s.0) (select_shards enc 0 k received)) k ≡ ok inverse
        → reconstruct enc received
          ≡ ok (
              fill_missing k 0 size inverse (map (λ s. s.1) (select_shards enc 0 k received))
                received))
      same
      (λ l found h e inverts.
        rw
          (l, found, ==_refl (enc.data_shards + enc.parity), le→ltb n enc.data_shards h, e, inverts)
          refl)

module _ (d p size n : ℕ) (enc : Encoder) (b : IsBuilt d p enc) (received : List (Option (List ℕ)))
    (length_in : length received ≡ d + p) (found : survey received 0 0 ≡ (size, n)) where
  reconstruct_few : n < d → reconstruct enc received ≡ err too_few_shards
  unfolding reconstruct
  reconstruct_few h =
      rw (b.data_field, b.parity_field, length_in, found, ==_refl (d + p), lt→ltb n d h) refl

  reconstruct_present :
      d ≤ n → all_present d received ≡ true → reconstruct enc received ≡ ok received
  unfolding reconstruct
  reconstruct_present h e =
      rw (b.data_field, b.parity_field, length_in, found, ==_refl (d + p), le→ltb n d h, e) refl

module _ (d p size : ℕ) (enc : Encoder) (b : IsBuilt d p enc) (content : List ℕ) where
  unfoldable pub sent : List (List ℕ)
  sent = split_package size d content ++ encode enc size (split_package size d content)

  pub length-sent : length content ≡ d * size → Bytes content → length sent ≡ d + p
  unfolding sent encode
  length-sent l h =
      let data_list : List (List ℕ) = split_package size d content in
      length-append data_list (encode enc size data_list)
      ∙ ap₂ (λ (x y : ℕ). x + y) (split_package-IsRow size d content l h).0
          (length-map (λ row. accumulate row data_list (replicate size 0)) enc.gen
            ∙ length-gen d p enc b)

  -- `reconstruct` fills every missing data shard.
  pub reconstruct-joined :
      (received : List (Option (List ℕ)))
      → length content ≡ d * size
      → Bytes content
      → Survives sent received
      → d ≤ present received
      → (filled : List (Option (List ℕ))) × (reconstruct enc received ≡ ok filled)
        × (concat_shards d filled ≡ content)
        × (length received ≡ d + p)
        × (check_shards size received 0 ≡ ok (0 + present received))
  unfolding sent
  reconstruct-joined received l h survives enough =
      let data_list : List (List ℕ) = split_package size d content in
      let (count, sized) = split_package-IsRow size d content l h in
      let f : ℕ → List ℕ = code d p enc b size data_list count sized in
      let length_in : length received ≡ d + p =
        length-Survives sent received survives ∙ length-sent l h in
      let from : From f 0 received =
        From-Survives f 0 sent received
          (λ k hk.
            get_or-code d p enc b size data_list count sized k
            ∙ ap f {x = k} {y = 0 + k} (omega arith))
          survives in
      let same : joined f d 0 ≡ content = joined_split f size d 0 content l (λ j hj.
        ap f {x = 0 + j} {y = j} (omega arith)
        ∙ code-data d p enc b size data_list count sized j hj) in
      let fits : Sized size received =
        Sized-From f size 0 received
          (λ j hj. length-code d p enc b size data_list count sized j (omega arith)) from in
      let (inverse, inverts) = rows-invert d p enc b (List ℕ) received enough length_in in
      let is : List ℕ = picked 0 d received in
      let checked = check_shards-Sized size received 0 fits in
      let found = survey-Sized size received 0 fits (omega (arith, b.some_data)) in
      elim (Bool-cases (all_present d received)) [
        | inl e ↦ (
          received,
          reconstruct_present d p size (0 + present received) enc b received length_in found
              (omega arith) e,
          concat_present f d 0 received from e ∙ same,
          length_in,
          checked,
        )
        | inr e ↦ (
          fill_missing d 0 size inverse (map f is) received,
          reconstruct_missing d size (0 + present received) enc inverse received b.data_field
                (length_in ∙ ap (λ (t : ℕ). d + t) (sym b.parity_field)) found (omega arith) e
                (ap (λ (m : Matrix). invert_matrix m d) (select_shards-rows enc 0 d received)
                  ∙ inverts)
              ∙ ap (λ (m : List (List ℕ)). ok (fill_missing d 0 size inverse m received))
                  (select_shards-shards enc f 0 d received from),
          concat_filled f size d 0 inverse (map f is) received from (omega (arith, length_in))
                (λ j hj.
                  filled_shard d p enc b size data_list count sized is inverse j
                    (length-picked 0 d received enough)
                    (λ k hk. omega (arith, picked-bound 0 d received k hk)) inverts (omega arith))
              ∙ same,
          length_in,
          checked,
        )
      ]
