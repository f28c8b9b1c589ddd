-- ===== src/Storage/Vlog/Recover.antt =====
-- RecoverFromCrash of internal/storage/vlog.go. The n-th turn of the loop makes the n-th of the calls.
use vyomanaut_v.Base.{
  ℕ, zero, suc, ◌+◌, ◌%◌, ◌^◌, Bool, Option, none, some, ltb, if◌then◌else◌, length, take, drop,
}
use vyomanaut_v.Base.Bytes.{Bytes, same}
use vyomanaut_v.Base.Result.{Result, ok, err}
use vyomanaut_v.Storage.{Platform, Calls, StorageError, chunk_not_found, vlog_entry_size}
use vyomanaut_v.Storage.Index.{index_put, index_get}
use vyomanaut_v.Storage.Vlog.{Store, read_at, entry_data}

-- What one turn of the loop does: leave it, leave it with an error, or go on with an index.
pub data Turn (D : Type 0) : Type 0 where
  stop : Turn D
  abort : StorageError → Turn D
  next : D → Turn D

module _ (p : Platform) where
  unfoldable pub reinserted : Result StorageError p.Db → Turn p.Db
  reinserted (err reason) = abort reason
  reinserted (ok db) = next db

  unfoldable pub reindex : Calls → p.Db → Bytes → ℕ → Result StorageError (ℕ × ℕ) → Turn p.Db
  reindex io db id offset (ok location) = next db
  reindex io db id offset (err chunk_not_found) =
      reinserted (index_put p io db id offset p.chunk_data_size)
  reindex io db id offset (err reason) = abort reason

  unfoldable pub content_hash : Bytes → Bytes
  content_hash buf = take 32 (drop (36 + p.chunk_data_size) buf)

  unfoldable pub recover_turn : Calls → p.Db → ℕ → Bytes × Bool → Turn p.Db
  recover_turn io db offset (buf, failed) =
      if ltb (length buf) (vlog_entry_size p)
      then stop
      else if failed
      then stop
      else if same (p.sha256 (entry_data p buf)) (content_hash buf)
      then reindex io db (take 32 buf) offset (index_get p io db (take 32 buf))
      else stop

  -- The end of the loop: an error or none, the index and the offset reached.
  unfoldable pub recover_loop :
      ℕ → (ℕ → Calls) → ℕ → Bytes → p.Db → ℕ → Option {0} (Option StorageError × (p.Db × ℕ))
  recover_loop zero calls turn file db offset = none
  recover_loop (suc fuel) calls turn file db offset =
      elim (recover_turn (calls turn) db offset
        (read_at (calls turn).read file offset (vlog_entry_size p))) [
          | stop ↦ some (none, (db, offset))
          | abort reason ↦ some (some reason, (db, offset))
          | next grown ↦
              recover_loop fuel calls (suc turn) file grown ((offset + vlog_entry_size p) % 2 ^ 64)
        ]

  unfoldable pub recovered :
      Store p
      → Option {0} (Option StorageError × (p.Db × ℕ))
      → Option (Result StorageError (Unit {0}) × Store p)
  recovered s none = none
  recovered s (some (some reason, (db, offset))) = some (err reason, record s { index = db })
  recovered s (some (none, (db, offset))) =
      some (ok tt, record s { index = db; vlog_head = offset })

  -- A turn for each byte of the file is more than enough.
  unfoldable pub recover_from_crash :
      (ℕ → Calls) → Store p → Option (Result StorageError (Unit {0}) × Store p)
  recover_from_crash calls s =
      recovered s (recover_loop (suc (length s.vlog)) calls 0 s.vlog s.index 0)
