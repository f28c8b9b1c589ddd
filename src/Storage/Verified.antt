-- ===== src/Storage/Verified.antt =====
-- What LookupChunk of internal/storage/vlog.go gives, whatever the index and the file hold.
use vyomanaut_v.Base.{
  ℕ, ◌≡◌, inl, inr, sym, ap, ◌∙◌, Bool, true, false, length, drop, arith, length-take, length-drop,
  Bool-cases, ltb,
}
use vyomanaut_v.Base.Bytes.{Bytes, same, same→≡}
use vyomanaut_v.Base.Result.{Result, ok, err, ok-injective}
use vyomanaut_v.Storage.{
  Platform, Calls, StorageError, vlog_read, content_hash_mismatch, vlog_entry_size,
}
use vyomanaut_v.Storage.Index.{index_get}
use vyomanaut_v.Storage.Vlog.{
  Store, read_at, verify_chunk, entry_data, read_from_vlog, read_indexed, lookup_chunk,
}

module _ (p : Platform) where
  pub IsVerified : Bytes → Bytes → Type 0
  IsVerified id data_bytes = (p.sha256 data_bytes ≡ id) × (length data_bytes ≡ p.chunk_data_size)

  length-entry_data :
      (buf : Bytes)
      → ltb (length buf) (vlog_entry_size p) ≡ false
      → length (entry_data p buf) ≡ p.chunk_data_size
  unfolding entry_data
  length-entry_data buf h =
      ground (arith, length-take p.chunk_data_size (drop 36 buf), length-drop 36 buf)

  -- the outcomes of the check on what was read
  data Verdict (id buf : Bytes) : Result StorageError Bytes → Type 0 where
    refused : (reason : StorageError) → Verdict id buf (err reason)
    verified :
        ltb (length buf) (vlog_entry_size p) ≡ false
        → same (p.sha256 (entry_data p buf)) id ≡ true
        → Verdict id buf (ok (entry_data p buf))

  verify_chunk-Verdict : (id : Bytes) (r : Bytes × Bool) → Verdict id r.0 (verify_chunk p id r)
  unfolding verify_chunk
  verify_chunk-Verdict id (buf, true) = refused vlog_read
  verify_chunk-Verdict id (buf, false) = elim (Bool-cases (ltb (length buf) (vlog_entry_size p))) [
    | inl few ↦ rw few (refused vlog_read)
    | inr all ↦ elim (Bool-cases (same (p.sha256 (entry_data p buf)) id)) [
      | inl equal ↦ rw (all, equal) (verified all equal)
      | inr other ↦ rw (all, other) (refused content_hash_mismatch)
    ]
  ]

  Verdict-IsVerified :
      {id buf chunk : Bytes} {r : Result StorageError Bytes}
      → Verdict id buf r
      → r ≡ ok chunk
      → IsVerified id chunk
  unfolding IsVerified
  Verdict-IsVerified (refused reason) e = cc
  Verdict-IsVerified {id} {buf} {chunk} (verified all equal) e = (
    ap p.sha256 (sym (ok-injective e)) ∙ same→≡ (p.sha256 (entry_data p buf)) id equal,
    ap length (sym (ok-injective e)) ∙ length-entry_data buf all,
  )

  read_indexed-IsVerified :
      (io : Calls) (s : Store p) (id : Bytes) {chunk : Bytes} (place : Result StorageError (ℕ × ℕ))
      → read_indexed p io s id place ≡ ok chunk
      → IsVerified id chunk
  unfolding read_indexed read_from_vlog
  read_indexed-IsVerified io s id (err reason) h = cc
  read_indexed-IsVerified io s id (ok (offset, size)) h =
      Verdict-IsVerified
        (verify_chunk-Verdict id (read_at io.read s.vlog offset (vlog_entry_size p))) h

  -- A chunk that a lookup returns hashes to the id that was asked for and has the chunk size, whatever
  -- the index and the file hold and whichever calls fail.
  pub lookup_chunk-IsVerified :
      (io : Calls) (s : Store p) (id : Bytes) {chunk : Bytes}
      → lookup_chunk p io s id ≡ ok chunk
      → IsVerified id chunk
  unfolding lookup_chunk
  lookup_chunk-IsVerified io s id h = read_indexed-IsVerified io s id (index_get p io s.index id) h
