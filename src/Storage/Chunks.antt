-- ===== src/Storage/Chunks.antt =====
-- What internal/storage promises its clients: a set of chunks that their ids address. `logged` are the
-- ids of the value log's entries in their order, `held` the ids that the index has.
pub mod Append
pub mod Replay
pub mod Recovery
pub mod Cut
pub mod Collection
pub mod Kept
pub mod Trace
pub mod Crash
use vyomanaut_v.Base.{
  ℕ, zero, suc, ltb, le→ltb, ◌+◌, ◌*◌, ◌^◌, ◌<◌, ◌≤◌, ◌≡◌, refl, sym, ap, ◌∙◌, Bool, true, false,
  List, [], ◌∷◌, ◌++◌, Option, none, some, length, take, drop, arith, get_elem?, All, if◌then◌else◌,
  subst, length-append, length-take, length-drop, lt→ltb,
}
use native.Mathlib.Nat.{suc-mul, mul-le-mul_right}
use vyomanaut_v.Base.Bytes.{Bytes, same, same_refl}
use vyomanaut_v.Base.Result.{Result, ok, err}
use vyomanaut_v.Storage.{Platform, StorageError, chunk_not_found, vlog_entry_size, calm}
use vyomanaut_v.Storage.Index.{index_value, index_location, index_location-index_value, index_get}
use vyomanaut_v.Storage.Vlog.{
  Store, read_at, verify_chunk, read_from_vlog, read_indexed, lookup_chunk, entry_data,
}
use vyomanaut_v.Storage.Vlog.Entries.{
  some-injective, IsChunk, entry_of, log_bytes, length-entry_of, entry_data-entry_of,
  length-log_bytes, read-log_bytes,
}

pub record Chunks : Type 0 where
  pub logged : List Bytes
  pub held : Bytes → Bool

abbrev pub found : (Bytes → Bytes) → Bytes → Bool → Result StorageError Bytes
found content id true = ok (content id)
found content id false = err chunk_not_found

module _ (p : Platform) (content : Bytes → Bytes) where
  -- An id is in the index with the place of an entry of the log that has it, or not at all.
  pub data Located (db : p.Db) (logged : List Bytes) (id : Bytes) : Bool → Type 0 where
    absent : p.get db id ≡ none → Located db logged id false
    present :
        (k : ℕ)
        → p.get db id ≡ some (index_value (k * vlog_entry_size p) p.chunk_data_size)
        → get_elem? logged k ≡ some id
        → Located db logged id true

  -- The value log has the entries of the ids, and bytes after them that are no whole entry of the log.
  pub record Readable (s : Store p) (c : Chunks) (tail : Bytes) : Type 0 where
    pub vlog_is : s.vlog ≡ log_bytes p content c.logged ++ tail
    pub chunks : All (IsChunk p content) c.logged
    pub fits : length s.vlog < 2 ^ 63
    pub located : (id : Bytes) → Located s.index c.logged id (c.held id)

  pub record Implements (s : Store p) (c : Chunks) : Type 0 where
    pub readable : Readable s c []
    pub head_is : s.vlog_head ≡ length s.vlog

  position_fits :
      (logged : List Bytes) (k : ℕ) {id : Bytes}
      → get_elem? logged k ≡ some id
      → suc k ≤ length logged
  position_fits [] k e = cc
  position_fits (x ∷ xs) zero e = omega arith
  position_fits (x ∷ xs) (suc k) e = omega (arith, position_fits xs k e)

  pub offset_fits :
      (logged : List Bytes) (k : ℕ) {id : Bytes}
      → All (IsChunk p content) logged
      → get_elem? logged k ≡ some id
      → k * vlog_entry_size p + vlog_entry_size p ≤ length (log_bytes p content logged)
  offset_fits logged k h e = omega (
    arith,
    length-log_bytes p content logged h,
    suc-mul k (vlog_entry_size p),
    mul-le-mul_right (vlog_entry_size p) (position_fits logged k e),
  )

  pub IsChunk-at :
      (logged : List Bytes) (k : ℕ) {id : Bytes}
      → All (IsChunk p content) logged
      → get_elem? logged k ≡ some id
      → IsChunk p content id
  IsChunk-at [] k h e = cc
  IsChunk-at (x ∷ xs) zero h e = subst (λ (t : Bytes). IsChunk p content t) (some-injective e) h.0
  IsChunk-at (x ∷ xs) (suc k) h e = IsChunk-at xs k h.1 e

  verify-entry_of :
      (id : Bytes)
      → IsChunk p content id
      → verify_chunk p id (entry_of p content id, false) ≡ ok (content id)
  unfolding verify_chunk
  verify-entry_of id h =
      rw
        (
          length-entry_of p content id h,
          le→ltb (vlog_entry_size p) (vlog_entry_size p) (omega arith),
          entry_data-entry_of p content id h,
          h.id_is_hash,
          same_refl id,
        )
        refl

  -- The read of a whole entry at its place in the log.
  pub read_at-entry :
      (s : Store p) (c : Chunks) (tail : Bytes) (k : ℕ) {id : Bytes}
      → Readable s c tail
      → get_elem? c.logged k ≡ some id
      → read_at none s.vlog (k * vlog_entry_size p) (vlog_entry_size p)
        ≡ (entry_of p content id, false)
  unfolding read_at
  read_at-entry s c tail k {id} h e =
      rw
        (
          lt→ltb (k * vlog_entry_size p) (2 ^ 63) (
              omega (
                arith,
                offset_fits c.logged k h.chunks e,
                h.fits,
                ap length h.vlog_is,
                length-append (log_bytes p content c.logged) tail,
              )),
          h.vlog_is,
          read-log_bytes p content c.logged tail k h.chunks e,
        )
        refl

  read-present :
      (s : Store p) (c : Chunks) (tail : Bytes) (id : Bytes) (k : ℕ)
      → Readable s c tail
      → get_elem? c.logged k ≡ some id
      → read_from_vlog p calm s id (k * vlog_entry_size p) ≡ ok (content id)
  unfolding read_from_vlog
  read-present s c tail id k h e =
      ap (verify_chunk p id) (read_at-entry s c tail k h e)
      ∙ verify-entry_of id (IsChunk-at c.logged k h.chunks e)

  lookup-Located :
      (s : Store p) (c : Chunks) (tail : Bytes) (id : Bytes) {held : Bool}
      → Readable s c tail
      → Located s.index c.logged id held
      → lookup_chunk p calm s id ≡ found content id held
  unfolding lookup_chunk index_get index_location read_indexed
  lookup-Located s c tail id h (absent e) = rw e refl
  lookup-Located s c tail id h (present k e g) =
      ap (λ (o : Option Bytes). read_indexed p calm s id (index_location o)) e
      ∙ ap (read_indexed p calm s id) (
          index_location-index_value (k * vlog_entry_size p) p.chunk_data_size
            (omega (
              arith,
              offset_fits c.logged k h.chunks g,
              h.fits,
              ap length h.vlog_is,
              length-append (log_bytes p content c.logged) tail,
            ))
            p.size_small)
      ∙ read-present s c tail id k h g

  -- A lookup gives the data of an id that is held, and an error for any other.
  pub lookup_chunk-found :
      (s : Store p) (c : Chunks) (tail : Bytes) (id : Bytes)
      → Readable s c tail
      → lookup_chunk p calm s id ≡ found content id (c.held id)
  lookup_chunk-found s c tail id h = lookup-Located s c tail id h (h.located id)
