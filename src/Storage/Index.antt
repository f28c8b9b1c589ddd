-- ===== src/Storage/Index.antt =====
-- The chunk index of internal/storage/engine_rocksdb.go: the twelve-byte value and the operations.
use vyomanaut_v.Base.{
  ℕ, ◌^◌, ◌<◌, ◌≡◌, ap₂, ◌∙◌, List, ◌++◌, map, Option, none, some, arith, if◌then◌else◌, take, drop,
  replicate,
}
use vyomanaut_v.Base.Bytes.{Bytes, be_bytes, be_value, be_value-be_bytes}
use vyomanaut_v.Base.Result.{Result, ok, err}
use vyomanaut_v.Storage.{
  Platform, Calls, StorageError, rocksdb_insert, rocksdb_delete, chunk_not_found, vlog_read,
}

unfoldable pub index_value : ℕ → ℕ → Bytes
index_value offset size = be_bytes 8 offset ++ be_bytes 4 size

unfoldable pub index_location : Option Bytes → Result StorageError (ℕ × ℕ)
index_location none = err chunk_not_found
index_location (some d) = ok (be_value 0 (take 8 d), be_value 0 (take 4 (drop 8 d)))

-- Go's copy into a [32]byte.
unfoldable pub as_id : Bytes → Bytes
as_id key = take 32 (key ++ replicate 32 0)

module _ (p : Platform) where
  unfoldable pub index_put : Calls → p.Db → Bytes → ℕ → ℕ → Result StorageError p.Db
  index_put io db id offset size =
      if io.index_put then err rocksdb_insert else ok (p.put db id (index_value offset size))

  unfoldable pub index_get : Calls → p.Db → Bytes → Result StorageError (ℕ × ℕ)
  index_get io db id = if io.index_get then err vlog_read else index_location (p.get db id)

  unfoldable pub index_delete : Calls → p.Db → Bytes → Result StorageError p.Db
  index_delete io db id = if io.index_delete then err rocksdb_delete else ok (p.delete db id)

  unfoldable pub all_chunk_ids : p.Db → List Bytes
  all_chunk_ids db = map as_id (p.keys db)

  -- ListChunks, whose iterator may end with an error.
  unfoldable pub list_chunk_ids : Calls → p.Db → Result StorageError (List Bytes)
  list_chunk_ids io db = if io.index_get then err vlog_read else ok (map as_id (p.keys db))

-- An index value is twelve bytes, and reading it gives back a 64-bit offset and a 32-bit size.
pub index_location-index_value :
    (offset size : ℕ)
    → offset < 2 ^ 64
    → size < 2 ^ 32
    → index_location (some (index_value offset size)) ≡ ok (offset, size)
unfolding index_location index_value
index_location-index_value offset size ho hs =
    ap₂ (λ (a b : ℕ). ok (a, b)) (be_value-be_bytes 8 offset 0 ∙ omega arith)
      (be_value-be_bytes 4 size 0 ∙ omega arith)
