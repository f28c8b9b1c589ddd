-- ===== src/Storage/Vlog.antt =====
-- internal/storage/vlog.go: the value log, whose file is a list of bytes opened with O_APPEND, and the
-- operations of wiskeyStore on it and on the index. An operation gives the store back beside its error.
pub mod Entries
pub mod Recover
pub mod Collect
pub mod Ends
use vyomanaut_v.Base.{
  ℕ, ◌+◌, ◌%◌, ◌^◌, Bool, true, false, List, [], ◌∷◌, ◌++◌, Option, none, some, ltb, ◌==◌,
  if◌then◌else◌, length, take, drop, ◌||◌,
}
use vyomanaut_v.Base.Bytes.{Bytes, same, be_bytes}
use vyomanaut_v.Base.Result.{Result, ok, err}
use vyomanaut_v.Storage.{
  Platform, Calls, StorageError, vlog_fsync, vlog_read, content_hash_mismatch, panicked,
  vlog_entry_size,
}
use vyomanaut_v.Storage.Index.{index_put, index_get, index_delete}

pub record Store (p : Platform) : Type 0 where
  pub index : p.Db
  pub vlog : Bytes
  pub vlog_head : ℕ

-- ReadAt: the bytes, and whether an error other than the end of the file came with them. An offset
-- of 2^63 or more is negative as the int64 that the call takes.
unfoldable pub read_at : Option ℕ → Bytes → ℕ → ℕ → Bytes × Bool
read_at none file offset size =
    if ltb offset (2 ^ 63) then (take size (drop offset file), false) else ([], true)
read_at (some got) file offset size = (take got (take size (drop offset file)), true)

module _ (p : Platform) where
  unfoldable pub vlog_entry : Bytes → Bytes → Bytes
  vlog_entry id chunk = id ++ (be_bytes 4 p.chunk_data_size ++ (chunk ++ p.sha256 chunk))

  unfoldable pub entry_data : Bytes → Bytes
  entry_data buf = take p.chunk_data_size (drop 36 buf)

  unfoldable pub append_to_vlog : Calls → Store p → Bytes → Bytes → Result StorageError ℕ × Store p
  append_to_vlog io s id chunk = elim io.write [
    | some got ↦ (err vlog_fsync, record s { vlog = s.vlog ++ take got (vlog_entry id chunk) })
    | none ↦
        if io.sync then (err vlog_fsync, record s { vlog = s.vlog ++ vlog_entry id chunk }) else (
          ok s.vlog_head,
          record s {
            vlog = s.vlog ++ vlog_entry id chunk;
            vlog_head = (s.vlog_head + vlog_entry_size p) % 2 ^ 64;
          },
        )
  ]

  unfoldable pub verify_chunk : Bytes → Bytes × Bool → Result StorageError Bytes
  verify_chunk id (buf, failed) =
      if failed || ltb (length buf) (vlog_entry_size p)
      then err vlog_read
      else if same (p.sha256 (entry_data buf)) id
      then ok (entry_data buf)
      else err content_hash_mismatch

  unfoldable pub read_from_vlog : Calls → Store p → Bytes → ℕ → Result StorageError Bytes
  read_from_vlog io s id offset =
      verify_chunk id (read_at io.read s.vlog offset (vlog_entry_size p))

  unfoldable pub index_chunk :
      Calls → Bytes → Result StorageError ℕ × Store p → Result StorageError ℕ × Store p
  index_chunk io id (err reason, s) = (err reason, s)
  index_chunk io id (ok offset, s) = elim (index_put p io s.index id offset p.chunk_data_size) [
    | err reason ↦ (err reason, s)
    | ok db ↦ (ok offset, record s { index = db })
  ]

  unfoldable pub append_chunk : Calls → Store p → Bytes → Bytes → Result StorageError ℕ × Store p
  append_chunk io s id chunk =
      if length chunk == p.chunk_data_size
      then index_chunk io id (append_to_vlog io s id chunk)
      else (err panicked, s)

  unfoldable pub read_indexed :
      Calls → Store p → Bytes → Result StorageError (ℕ × ℕ) → Result StorageError Bytes
  read_indexed io s id (err reason) = err reason
  read_indexed io s id (ok (offset, size)) = read_from_vlog io s id offset

  unfoldable pub lookup_chunk : Calls → Store p → Bytes → Result StorageError Bytes
  lookup_chunk io s id = read_indexed io s id (index_get p io s.index id)

  unfoldable pub delete_chunk : Calls → Store p → Bytes → Result StorageError (Unit {0}) × Store p
  delete_chunk io s id = elim (index_delete p io s.index id) [
    | err reason ↦ (err reason, s)
    | ok db ↦ (ok tt, record s { index = db })
  ]
