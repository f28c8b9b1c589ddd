-- ===== src/Storage.antt =====
-- internal/storage: what the chunk store uses of the operating system, of SHA-256 and of RocksDB.
-- One chunk has `chunk_data_size` bytes, 262144 in store.go.
pub mod Index
pub mod Vlog
pub mod Chunks
pub mod Verified
mod Tests
use vyomanaut_v.Base.{
  ℕ, ◌+◌, ◌^◌, ◌≤◌, ◌<◌, ◌≡◌, ◌≢◌, Bool, true, false, List, Option, none, some, is_some, All,
  length, [], ◌∷◌, if◌then◌else◌,
}
use vyomanaut_v.Base.Bytes.{Bytes, same}

pub data StorageError : Type 0 where
  vlog_fsync rocksdb_insert rocksdb_delete chunk_not_found content_hash_mismatch vlog_read :
      StorageError
  panicked cancelled gc_failed : StorageError

abbrev pub contains : Bytes → List Bytes → Bool
contains key [] = false
contains key (x ∷ xs) = if same x key then true else contains key xs

-- A database of RocksDB holds a value for each key, and its iterator gives every key once.
pub record Platform : Type 1 where
  pub Db : Type 0
  pub get : Db → Bytes → Option Bytes
  pub put : Db → Bytes → Bytes → Db
  pub delete : Db → Bytes → Db
  pub keys : Db → List Bytes
  pub get-put_self : (db : Db) (key value : Bytes) → get (put db key value) key ≡ some value
  pub get-put_ne :
      (db : Db) (key value other : Bytes)
      → key ≢ other
      → get (put db key value) other ≡ get db other
  pub get-delete_self : (db : Db) (key : Bytes) → get (delete db key) key ≡ none
  pub get-delete_ne :
      (db : Db) (key other : Bytes) → key ≢ other → get (delete db key) other ≡ get db other
  pub keys_sound : (db : Db) → All (λ key. is_some (get db key) ≡ true) (keys db)
  pub keys_complete :
      (db : Db) (key : Bytes) → is_some (get db key) ≡ true → contains key (keys db) ≡ true
  pub sha256 : Bytes → Bytes
  pub length-sha256 : (bytes : Bytes) → length (sha256 bytes) ≡ 32
  pub chunk_data_size : ℕ
  pub size_small : chunk_data_size < 2 ^ 32

-- What the system's calls of one step give: a read or a write may fail after some bytes, the other
-- calls fail where the field says true.
pub record Calls : Type 0 where
  pub read : Option ℕ
  pub write : Option ℕ
  pub sync : Bool
  pub index_get : Bool
  pub index_put : Bool
  pub index_delete : Bool
  pub is_cancelled : Bool

abbrev pub calm : Calls
calm = record {
  read = none;
  write = none;
  sync = false;
  index_get = false;
  index_put = false;
  index_delete = false;
  is_cancelled = false;
}

abbrev pub vlog_entry_size : Platform → ℕ
vlog_entry_size p = 68 + p.chunk_data_size
