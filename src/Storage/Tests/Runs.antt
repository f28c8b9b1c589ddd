-- ===== src/Storage/Tests/Runs.antt =====
-- Runs and witnesses of the chunk store of internal/storage on the small platform.
use vyomanaut_v.Base.{
  ℕ, ◌+◌, ◌≡◌, ◌⊎◌, refl, false, List, [], ◌∷◌, ◌++◌, Option, none, some, length, take, drop, All,
  replicate, ltb, if◌then◌else◌, arith,
}
use vyomanaut_v.Base.Bytes.{Bytes}
use vyomanaut_v.Base.Result.{Result, ok, err}
use vyomanaut_v.Storage.{Calls, StorageError, content_hash_mismatch, vlog_read, contains, calm}
use vyomanaut_v.Storage.Index.{
  index_value, index_location, index_get, index_put, index_delete, all_chunk_ids, as_id,
}
use vyomanaut_v.Storage.Vlog.{
  Store, read_at, vlog_entry, entry_data, append_to_vlog, index_chunk, append_chunk, delete_chunk,
  verify_chunk, read_from_vlog, read_indexed, lookup_chunk,
}
use vyomanaut_v.Storage.Vlog.Recover.{recover_from_crash}
use vyomanaut_v.Storage.Vlog.Collect.{
  run_gc, gc_loop, gc_turn, copy_live, relocated, collected, replace_vlog,
}
use vyomanaut_v.Storage.Vlog.Ends.{Gives, recover_from_crash_ends, run_gc_ends}
use vyomanaut_v.Storage.Vlog.Entries.{IsChunk, entry_of, log_bytes}
use vyomanaut_v.Storage.Verified.{IsVerified, lookup_chunk-IsVerified}
use vyomanaut_v.Storage.Chunks.{Chunks, absent, Readable, Implements, found}
use vyomanaut_v.Storage.Chunks.Crash.{
  recover_from_crash-found, append_chunk_then_recover, append_chunk_after_tail,
}
use vyomanaut_v.Storage.Chunks.Collection.Gc.{collect_ids, calm_files, run_gc_keeps}
use vyomanaut_v.Storage.Chunks.Trace.{
  Command, append, delete, recover, collect, apply_all, execute_all, execute_all_refines,
  IsAppendable,
}
use vyomanaut_v.Storage.Tests.{platform}

abbrev content : Bytes → Bytes
content id = take 2 id

abbrev first : Bytes
first = 7 ∷ 9 ∷ replicate 30 0

abbrev second : Bytes
second = 5 ∷ 3 ∷ replicate 30 0

first-IsChunk : IsChunk platform content first
first-IsChunk = record { id_length = refl; data_length = refl; id_is_hash = refl }

second-IsChunk : IsChunk platform content second
second-IsChunk = record { id_length = refl; data_length = refl; id_is_hash = refl }

abbrev fresh : Store platform
fresh = record { index = []; vlog = []; vlog_head = 0 }

abbrev nothing : Chunks
nothing = record { logged = []; held = λ id. false }

fresh-Readable : Readable platform content fresh nothing []
unfolding log_bytes
fresh-Readable = record {
  vlog_is = refl;
  chunks = tt;
  fits = omega arith;
  located = λ id. absent refl;
}

fresh-Implements : Implements platform content fresh nothing
fresh-Implements = record { readable = fresh-Readable; head_is = refl }

abbrev both : Store platform
both =
    (append_chunk platform calm (append_chunk platform calm fresh first (content first)).1 second
      (content second)).1

-- A read error in the middle of a collection is taken for the end of the file: the collection reports
-- no error, and the second chunk is lost.
abbrev second_read_fails : ℕ → Calls
second_read_fails turn = record calm { read = if ltb turn 1 then none else some 10 }

abbrev lookup_after :
    Option (Result StorageError (Unit {0}) × Store platform) → Bytes → Result StorageError Bytes
lookup_after none id = err vlog_read
lookup_after (some (result, s)) id = lookup_chunk platform calm s id

collection_with_read_error :
    lookup_after (run_gc platform calm_files second_read_fails both) second ≡ err vlog_read
unfolding run_gc gc_loop gc_turn copy_live relocated collected replace_vlog all_chunk_ids as_id
    append_chunk append_to_vlog index_chunk vlog_entry lookup_chunk read_indexed read_from_vlog
    verify_chunk read_at index_get index_put index_location index_value entry_data
collection_with_read_error = refl

-- A cancelled collection leaves the index with places in a compacted file that is gone.
abbrev cancelled_at_end : ℕ → Calls
cancelled_at_end turn = record calm { is_cancelled = ltb 1 turn }

abbrev one_deleted : Store platform
one_deleted = (delete_chunk platform calm both first).1

cancelled_collection :
    lookup_after (run_gc platform calm_files cancelled_at_end one_deleted) second
    ≡ err content_hash_mismatch
unfolding run_gc gc_loop gc_turn copy_live relocated collected replace_vlog all_chunk_ids as_id
    append_chunk append_to_vlog index_chunk vlog_entry delete_chunk index_delete lookup_chunk
    read_indexed read_from_vlog verify_chunk read_at index_get index_put index_location index_value
    entry_data
cancelled_collection = refl

abbrev script : List Command
script = append first ∷ append second ∷ delete first ∷ collect ∷ recover ∷ []

script-IsAppendable : All (IsAppendable platform content) script
unfolding IsAppendable
script-IsAppendable = (first-IsChunk, (second-IsChunk, (tt, (tt, (tt, tt)))))

execute_all_refines_example :
    (after : Store platform) × (execute_all platform content fresh script ≡ some after)
    × Implements platform content after (apply_all nothing script)
    × ((id : Bytes)
        → lookup_chunk platform calm after id
          ≡ found content id ((apply_all nothing script).held id))
execute_all_refines_example =
    execute_all_refines platform content fresh nothing script fresh-Implements script-IsAppendable
      (omega arith)

abbrev cut_short : Calls
cut_short = record calm { write = some 40 }

append_chunk_then_recover_example :
    (after : Store platform) × (logged : List Bytes) × (recover_from_crash platform
        (λ n. calm)
        (append_chunk platform cut_short fresh first (content first)).1
      ≡ some (ok tt, after))
    × ((logged ≡ []) ⊎ (logged ≡ [] ++ first ∷ []))
    × ((other : Bytes)
        → lookup_chunk platform calm after other ≡ found content other (contains other logged))
append_chunk_then_recover_example =
    append_chunk_then_recover platform content cut_short fresh nothing first fresh-Implements
      first-IsChunk (omega arith)

abbrev torn : Store platform
torn = record { index = []; vlog = 1 ∷ 2 ∷ 3 ∷ []; vlog_head = 0 }

torn-Readable : Readable platform content torn nothing (1 ∷ 2 ∷ 3 ∷ [])
unfolding log_bytes
torn-Readable = record {
  vlog_is = refl;
  chunks = tt;
  fits = omega arith;
  located = λ id. absent refl;
}

append_chunk_after_tail_example :
    (after : Store platform) × (recover_from_crash platform (λ n. calm) torn ≡ some (ok tt, after))
    × (let last = (append_chunk platform calm after first (content first)).1 in
        let offset = length (log_bytes platform content []) in
        (platform.get last.index first ≡ some (index_value offset 2))
        × (drop (offset + 3) last.vlog ≡ entry_of platform content first))
append_chunk_after_tail_example =
    append_chunk_after_tail platform content torn nothing (1 ∷ 2 ∷ 3 ∷ []) first torn-Readable
      (omega arith) first-IsChunk (omega arith)

recover_from_crash-found_example :
    (after : Store platform) × (recover_from_crash platform (λ n. calm) torn ≡ some (ok tt, after))
    × ((id : Bytes) → lookup_chunk platform calm after id ≡ found content id (contains id []))
recover_from_crash-found_example =
    recover_from_crash-found platform content torn nothing (1 ∷ 2 ∷ 3 ∷ []) torn-Readable
      (omega arith)

run_gc_keeps_example :
    (after : Store platform) × (run_gc platform calm_files (λ n. calm) fresh ≡ some (ok tt, after))
    × Implements platform content after (collect_ids nothing)
run_gc_keeps_example = run_gc_keeps platform content fresh nothing fresh-Implements

recover_from_crash_ends_example : Gives (recover_from_crash platform second_read_fails torn)
recover_from_crash_ends_example = recover_from_crash_ends platform second_read_fails torn

run_gc_ends_example : Gives (run_gc platform calm_files second_read_fails torn)
run_gc_ends_example = run_gc_ends platform calm_files second_read_fails torn

lookup_first : lookup_chunk platform calm both first ≡ ok (7 ∷ 9 ∷ [])
unfolding append_chunk append_to_vlog index_chunk vlog_entry lookup_chunk read_indexed
    read_from_vlog verify_chunk read_at index_get index_put index_location index_value entry_data
lookup_first = refl

lookup_chunk-IsVerified_example : IsVerified platform first (7 ∷ 9 ∷ [])
lookup_chunk-IsVerified_example = lookup_chunk-IsVerified platform calm both first lookup_first
