-- ===== src/Storage/Chunks/Trace.antt =====
-- Sequences of operations of the chunk store of internal/storage, whose calls do not fail, against the
-- set of chunks.
use vyomanaut_v.Base.{
  ℕ, suc, ◌+◌, ◌*◌, ◌^◌, ◌<◌, ◌≤◌, ◌≡◌, refl, ap, List, [], ◌∷◌, Option, none, some, length, arith,
  All, length-append,
}
use native.Mathlib.Nat.{mul-le-mul_right, add-mul}
use vyomanaut_v.Base.Bytes.{Bytes}
use vyomanaut_v.Storage.{Platform, calm, vlog_entry_size}
use vyomanaut_v.Storage.Vlog.{Store, append_chunk, delete_chunk, lookup_chunk}
use vyomanaut_v.Storage.Vlog.Recover.{recover_from_crash}
use vyomanaut_v.Storage.Vlog.Collect.{run_gc}
use vyomanaut_v.Storage.Vlog.Entries.{IsChunk, log_bytes, length-log_bytes}
use vyomanaut_v.Storage.Chunks.{Chunks, Implements, found, lookup_chunk-found}
use vyomanaut_v.Storage.Chunks.Append.{
  append_id, delete_id, append_chunk_adds, delete_chunk_removes,
}
use vyomanaut_v.Storage.Chunks.Kept.{length-kept}
use vyomanaut_v.Storage.Chunks.Replay.{logged-hold_all, recover_ids}
use vyomanaut_v.Storage.Chunks.Recovery.{recover_from_crash_holds}
use vyomanaut_v.Storage.Chunks.Collection.Gc.{collect_ids, run_gc_keeps, calm_files}

pub data Command : Type 0 where
  append : Bytes → Command
  delete : Bytes → Command
  recover collect : Command

-- The specification: what each operation does to the set.
unfoldable pub apply : Chunks → Command → Chunks
apply c (append id) = append_id c id
apply c (delete id) = delete_id c id
apply c recover = recover_ids c
apply c collect = collect_ids c

unfoldable pub apply_all : Chunks → List Command → Chunks
apply_all c [] = c
apply_all c (command ∷ rest) = apply_all (apply c command) rest

abbrev store_after {ℓ} : {E : Type 0} {S : Type ℓ} → Option (E × S) → Option S
store_after none = none
store_after (some (reason, s)) = some s

length-apply :
    (c : Chunks) (command : Command) → length (apply c command).logged ≤ length c.logged + 1
unfolding apply append_id delete_id recover_ids collect_ids
length-apply c (append id) = omega (arith, length-append c.logged (id ∷ []))
length-apply c (delete id) = omega arith
length-apply c recover = omega (arith, ap length (logged-hold_all c c.logged))
length-apply c collect = omega (arith, length-kept c.held c.logged)

some_rest : (m n : ℕ) → m + 1 ≤ m + suc n
some_rest m n = omega arith

shorter : (k m n : ℕ) → k ≤ m + 1 → k + n ≤ m + suc n
shorter k m n h = omega arith

module _ (p : Platform) (content : Bytes → Bytes) where
  unfoldable pub execute : Store p → Command → Option (Store p)
  execute s (append id) = some (append_chunk p calm s id (content id)).1
  execute s (delete id) = some (delete_chunk p calm s id).1
  execute s recover = store_after (recover_from_crash p (λ n. calm) s)
  execute s collect = store_after (run_gc p calm_files (λ n. calm) s)

  unfoldable pub execute_all : Store p → List Command → Option (Store p)
  execute_all s [] = some s
  execute_all s (command ∷ rest) = elim (execute s command) [
    | none ↦ none
    | some after ↦ execute_all after rest
  ]

  -- The ids that the commands append are those of chunks.
  unfoldable pub IsAppendable : Command → Type 0
  IsAppendable (append id) = IsChunk p content id
  IsAppendable (delete id) = Unit
  IsAppendable recover = Unit
  IsAppendable collect = Unit

  length-vlog :
      (s : Store p) (c : Chunks)
      → Implements p content s c
      → length s.vlog ≡ length c.logged * vlog_entry_size p
  length-vlog s c h = omega (
    arith,
    ap length h.readable.vlog_is,
    length-append (log_bytes p content c.logged) [],
    length-log_bytes p content c.logged h.readable.chunks,
  )

  execute_refines :
      (s : Store p) (c : Chunks) (command : Command)
      → Implements p content s c
      → IsAppendable command
      → (length c.logged + 1) * vlog_entry_size p < 2 ^ 63
      → (after : Store p) × (execute s command ≡ some after)
        × Implements p content after (apply c command)
  unfolding execute apply IsAppendable
  execute_refines s c (append id) h chunk fits = (
    (append_chunk p calm s id (content id)).1,
    refl,
    (append_chunk_adds p content s c id h chunk
        (omega (arith, length-vlog s c h, add-mul (length c.logged) 1 (vlog_entry_size p)))).1,
  )
  execute_refines s c (delete id) h done fits =
      ((delete_chunk p calm s id).1, refl, delete_chunk_removes p content s c id h)
  execute_refines s c recover h done fits =
      let (after, run, readable, head) =
        recover_from_crash_holds p content s c [] h.readable (omega arith) in
      (after, ap store_after run, record { readable = readable; head_is = omega (arith, head) })
  execute_refines s c collect h done fits =
      let (after, run, implements) = run_gc_keeps p content s c h in
      (after, ap store_after run, implements)

  -- Whatever sequence of operations a store executes, it implements the set that the specification
  -- gives, as long as the log stays below 2^63 bytes.
  pub execute_all_refines :
      (s : Store p) (c : Chunks) (commands : List Command)
      → Implements p content s c
      → All IsAppendable commands
      → (length c.logged + length commands) * vlog_entry_size p < 2 ^ 63
      → (after : Store p) × (execute_all s commands ≡ some after)
        × Implements p content after (apply_all c commands)
        × ((id : Bytes)
            → lookup_chunk p calm after id ≡ found content id ((apply_all c commands).held id))
  unfolding execute_all apply_all
  execute_all_refines s c [] h done fits =
      (s, refl, h, λ id. lookup_chunk-found p content s c [] id h.readable)
  execute_all_refines s c (command ∷ rest) h done fits =
      let size = vlog_entry_size p in
      let (next, step, middle) =
        execute_refines s c command h done.0 (
          omega (arith, fits, mul-le-mul_right size (some_rest (length c.logged) (length rest)))) in
      let (last, run, implements, lookups) =
        execute_all_refines next (apply c command) rest middle done.1 (
          omega (
            arith,
            fits,
            mul-le-mul_right size (
                shorter (length (apply c command).logged) (length c.logged) (length rest)
                  (length-apply c command)),
          )) in
      (last, rw (execute_all, step) run, implements, lookups)
