-- ===== src/Storage/Chunks/Crash.antt =====
-- AppendChunk of internal/storage/vlog.go cut short by any failing call, and the restart after it.
use vyomanaut_v.Base.{
  ℕ, ◌+◌, ◌^◌, ◌<◌, ◌≡◌, ◌⊎◌, inl, inr, refl, ap, ◌∙◌, Bool, true, false, List, [], ◌∷◌, ◌++◌, some,
  length, take, drop, arith, if◌then◌else◌, length-append, length-take, Bool-cases, ltb, ltb→lt,
}
use vyomanaut_v.Base.Bytes.{Bytes}
use vyomanaut_v.Base.Result.{ok}
use vyomanaut_v.Storage.{Platform, Calls, vlog_entry_size, calm, contains}
use vyomanaut_v.Storage.Index.{index_value}
use vyomanaut_v.Storage.Vlog.{Store, lookup_chunk, append_chunk}
use vyomanaut_v.Storage.Vlog.Recover.{recover_from_crash}
use vyomanaut_v.Storage.Vlog.Entries.{
  IsChunk, entry_of, log_bytes, length-entry_of, take_all, drop_exact,
}
use vyomanaut_v.Storage.Chunks.{
  Chunks, Located, absent, present, Readable, Implements, found, lookup_chunk-found,
}
use vyomanaut_v.Storage.Chunks.Append.{append_id, appended, appended-Implements, append_calm}
use vyomanaut_v.Storage.Chunks.Kept.{contains-get_elem?}
use vyomanaut_v.Storage.Chunks.Replay.{hold_id, hold_all, logged-hold_all, recover_ids}
use vyomanaut_v.Storage.Chunks.Recovery.{recover_from_crash_holds}
use vyomanaut_v.Storage.Chunks.Cut.{
  append_leaves, Readable-same, with_entry, Readable-with_entry, Readable-cut,
}

held-hold_all :
    (c : Chunks) (ids : List Bytes) (id : Bytes)
    → (hold_all c ids).held id ≡ (if contains id ids then true else c.held id)
unfolding hold_all hold_id
held-hold_all c [] id = refl
held-hold_all c (x ∷ ids) id = ground (arith, held-hold_all (hold_id c x) ids id)

if_self : (b : Bool) → (if b then true else false) ≡ b
if_self true = refl
if_self false = refl

held-recover_ids :
    (c : Chunks) (id : Bytes)
    → (recover_ids c).held id ≡ (if contains id c.logged then true else c.held id)
unfolding recover_ids
held-recover_ids c id = held-hold_all c c.logged id

module _ (p : Platform) (content : Bytes → Bytes) where
  held-recovered :
      (db : p.Db) (logged : List Bytes) (id : Bytes) {held : Bool}
      → Located p content db logged id held
      → (if contains id logged then true else held) ≡ contains id logged
  held-recovered db logged id (absent e) = if_self (contains id logged)
  held-recovered db logged id (present k e g) = rw (contains-get_elem? logged k id g) refl

  -- After a recovery a lookup gives the data of exactly the ids that the log has.
  pub recover_from_crash-found :
      (s : Store p) (c : Chunks) (tail : Bytes)
      → Readable p content s c tail
      → length tail < vlog_entry_size p
      → (after : Store p) × (recover_from_crash p (λ n. calm) s ≡ some (ok tt, after))
        × ((id : Bytes) → lookup_chunk p calm after id ≡ found content id (contains id c.logged))
  recover_from_crash-found s c tail h short =
      let (after, run, readable, head) = recover_from_crash_holds p content s c tail h short in
      (
        after,
        run,
        λ id.
            lookup_chunk-found p content after (recover_ids c) tail id readable
            ∙ ap (found content id)
                (held-recover_ids c id ∙ held-recovered s.index c.logged id (h.located id)),
      )

  -- An append during which any of the calls may fail, and the recovery after it: lookups give the chunks
  -- of the log as it was, or those and the new one.
  pub append_chunk_then_recover :
      (io : Calls) (s : Store p) (c : Chunks) (id : Bytes)
      → Implements p content s c
      → IsChunk p content id
      → length s.vlog + vlog_entry_size p < 2 ^ 63
      → (after : Store p) × (logged : List Bytes) × (recover_from_crash p
            (λ n. calm)
            (append_chunk p io s id (content id)).1
          ≡ some (ok tt, after))
        × ((logged ≡ c.logged) ⊎ (logged ≡ c.logged ++ id ∷ []))
        × ((other : Bytes)
            → lookup_chunk p calm after other ≡ found content other (contains other logged))
  unfolding with_entry append_id
  append_chunk_then_recover io s c id h chunk fits =
      let t = (append_chunk p io s id (content id)).1 in
      elim (append_leaves p content io s id chunk) [
        | inr (ei, ev) ↦
            let (after, run, lookups) =
              recover_from_crash-found t (append_id c id) []
                (Readable-same p content (appended p content s id) t (append_id c id) [] ei ev
                  (appended-Implements p content s c id h chunk fits).readable)
                (omega arith) in
            (after, c.logged ++ id ∷ [], run, inr refl, lookups)
        | inl (ei, (got, ev)) ↦ elim (Bool-cases (ltb got (vlog_entry_size p))) [
          | inl few ↦
              let (after, run, lookups) =
                recover_from_crash-found t c (take got (entry_of p content id))
                  (Readable-cut p content s t c (take got (entry_of p content id)) h.readable
                    (omega (
                      arith,
                      length-take got (entry_of p content id),
                      length-entry_of p content id chunk,
                    ))
                    ei ev)
                  (omega (
                    arith,
                    length-take got (entry_of p content id),
                    ltb→lt got (vlog_entry_size p) few,
                  )) in
              (after, c.logged, run, inl refl, lookups)
          | inr all ↦
              let (after, run, lookups) =
                recover_from_crash-found t (with_entry c id) []
                  (Readable-with_entry p content s t c id h.readable chunk fits ei (
                    ev
                    ∙ ap (λ (b : Bytes). s.vlog ++ b)
                        (take_all got (entry_of p content id)
                          (ground (arith, length-entry_of p content id chunk)))))
                  (omega arith) in
              (after, c.logged ++ id ∷ [], run, inr refl, lookups)
        ]
      ]

  -- The recovery keeps the bytes of a cut entry, and the next append goes after them, while its index
  -- value counts from the last whole entry.
  pub append_chunk_after_tail :
      (s : Store p) (c : Chunks) (tail : Bytes) (id : Bytes)
      → Readable p content s c tail
      → length tail < vlog_entry_size p
      → IsChunk p content id
      → length s.vlog + vlog_entry_size p < 2 ^ 63
      → (after : Store p) × (recover_from_crash p (λ n. calm) s ≡ some (ok tt, after))
        × (let last = (append_chunk p calm after id (content id)).1 in
            let offset = length (log_bytes p content c.logged) in
            (p.get last.index id ≡ some (index_value offset p.chunk_data_size))
            × (drop (offset + length tail) last.vlog ≡ entry_of p content id))
  unfolding recover_ids
  append_chunk_after_tail s c tail id h short chunk fits =
      let (after, run, readable, head) = recover_from_crash_holds p content s c tail h short in
      let log = log_bytes p content c.logged in
      let bytes : after.vlog ≡ log ++ tail =
        readable.vlog_is
        ∙ ap (λ (l : List Bytes). log_bytes p content l ++ tail) (logged-hold_all c c.logged) in
      let place : after.vlog_head ≡ length log =
        omega (arith, head, ap length bytes, length-append log tail) in
      let step =
        append_calm p content after id chunk
          (omega (arith, place, fits, ap length h.vlog_is, length-append log tail)) in
      (
        after,
        run,
        rw step (
          p.get-put_self after.index id (index_value after.vlog_head p.chunk_data_size)
              ∙ ap (λ (n : ℕ). some (index_value n p.chunk_data_size)) place,
          ap (λ (b : Bytes). drop (length log + length tail) (b ++ entry_of p content id)) bytes
              ∙ drop_exact (length log + length tail) (log ++ tail) (entry_of p content id)
                  (length-append log tail),
        ),
      )
