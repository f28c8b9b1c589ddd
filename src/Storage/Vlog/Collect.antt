-- ===== src/Storage/Vlog/Collect.antt =====
-- RunGC of internal/storage/vlog.go. The n-th turn of the loop makes the n-th of the calls.
use vyomanaut_v.Base.{
  ℕ, zero, suc, ◌+◌, ◌%◌, ◌^◌, Bool, List, [], ◌++◌, Option, none, some, ltb, if◌then◌else◌, length,
  take, is_some, ◌||◌,
}
use vyomanaut_v.Base.Bytes.{Bytes}
use vyomanaut_v.Base.Result.{Result, ok, err}
use vyomanaut_v.Storage.{
  Platform, Calls, StorageError, cancelled, gc_failed, contains, vlog_entry_size,
}
use vyomanaut_v.Storage.Index.{index_put, all_chunk_ids}
use vyomanaut_v.Storage.Vlog.{Store, read_at}

-- The calls before and after the loop, which fail where the field says true.
pub record FileCalls : Type 0 where
  pub open_read : Bool
  pub create : Bool
  pub sync : Bool
  pub close : Bool
  pub rename : Bool
  pub reopen : Bool

-- How the loop ends: at the end of the file, cancelled, or with an error.
pub data Ending : Type 0 where
  finished was_cancelled had_error : Ending

module _ (p : Platform) where
  -- The index, the compacted file and its length in newHead.
  pub record Compacted : Type 0 where
    pub index : p.Db
    pub file : Bytes
    pub new_head : ℕ

  pub data GcTurn : Type 0 where
    leave : Ending → Compacted → GcTurn
    go_on : Compacted → GcTurn

  unfoldable pub relocated : Compacted → Bytes → Result StorageError p.Db → GcTurn
  relocated c buf (err reason) = leave had_error (record c { file = c.file ++ buf })
  relocated c buf (ok db) = go_on (record {
    index = db;
    file = c.file ++ buf;
    new_head = (c.new_head + vlog_entry_size p) % 2 ^ 64;
  })

  unfoldable pub copy_live : Calls → Compacted → Bytes → GcTurn
  copy_live io c buf =
      if is_some io.write
      then leave had_error c
      else relocated c buf (index_put p io c.index (take 32 buf) c.new_head p.chunk_data_size)

  unfoldable pub gc_turn : Calls → List Bytes → Compacted → Bytes × Bool → GcTurn
  gc_turn io live c (buf, failed) =
      if io.is_cancelled
      then leave was_cancelled c
      else if ltb (length buf) (vlog_entry_size p)
      then leave finished c
      else if failed
      then leave had_error c
      else if contains (take 32 buf) live
      then copy_live io c buf
      else go_on c

  unfoldable pub gc_loop :
      ℕ → (ℕ → Calls) → List Bytes → ℕ → Bytes → Compacted → ℕ → Option (Ending × Compacted)
  gc_loop zero calls live turn file c offset = none
  gc_loop (suc fuel) calls live turn file c offset =
      elim (gc_turn (calls turn) live c
        (read_at (calls turn).read file offset (vlog_entry_size p))) [
          | leave ending last ↦ some (ending, last)
          | go_on more ↦
              gc_loop fuel calls live (suc turn) file more ((offset + vlog_entry_size p) % 2 ^ 64)
        ]

  -- The index keeps what the loop wrote to it, whatever becomes of the compacted file. A store whose
  -- file could not be opened again keeps its handle on the old one.
  unfoldable pub replace_vlog :
      FileCalls → Store p → Ending × Compacted → Result StorageError (Unit {0}) × Store p
  replace_vlog fc s (was_cancelled, c) = (err cancelled, record s { index = c.index })
  replace_vlog fc s (had_error, c) = (err gc_failed, record s { index = c.index })
  replace_vlog fc s (finished, c) =
      if fc.sync || fc.close || fc.rename || fc.reopen
      then (err gc_failed, record s { index = c.index })
      else (ok tt, record { index = c.index; vlog = c.file; vlog_head = c.new_head })

  unfoldable pub collected :
      FileCalls
      → Store p
      → Option (Ending × Compacted)
      → Option (Result StorageError (Unit {0}) × Store p)
  collected fc s none = none
  collected fc s (some ending) = some (replace_vlog fc s ending)

  unfoldable pub run_gc :
      FileCalls → (ℕ → Calls) → Store p → Option (Result StorageError (Unit {0}) × Store p)
  run_gc fc calls s =
      if fc.open_read || fc.create
      then some (err gc_failed, s)
      else collected fc s (
          gc_loop (suc (length s.vlog)) calls (all_chunk_ids p s.index) 0 s.vlog
            (record { index = s.index; file = []; new_head = 0 }) 0)
