-- ===== src/Storage/Chunks/Collection/Gc.antt =====
-- RunGC of internal/storage/vlog.go on the set of chunks: the whole collection.
use vyomanaut_v.Base.{
  All-map, ℕ, zero, suc, ◌+◌, ◌*◌, ◌^◌, ◌<◌, ◌≡◌, inl, inr, refl, sym, ap, ◌∙◌, Bool, true, false,
  List, [], ◌∷◌, ◌++◌, none, some, length, arith, get_elem?, subst, is_some, lt→ltb, length-append,
  Bool-cases, append-nil, append_assoc,
}
use native.Mathlib.Nat.{mul-le-mul_right, zero-mul}
use vyomanaut_v.Base.Bytes.{Bytes}
use vyomanaut_v.Base.Result.{ok}
use vyomanaut_v.Storage.{Platform, contains, vlog_entry_size, calm}
use vyomanaut_v.Storage.Index.{all_chunk_ids}
use vyomanaut_v.Storage.Vlog.{Store, read_at}
use vyomanaut_v.Storage.Vlog.Collect.{
  finished, Compacted, leave, gc_turn, gc_loop, FileCalls, replace_vlog, collected, run_gc,
}
use vyomanaut_v.Storage.Vlog.Entries.{IsChunk, log_bytes, length-log_bytes, get_elem?-append_last}
use vyomanaut_v.Storage.Chunks.{
  Chunks, Located, absent, present, Readable, Implements, read_at-entry, IsChunk-at, offset_fits,
}
use vyomanaut_v.Storage.Chunks.Kept.{
  kept, kept_ext, length-kept, All-kept, All-contains, contains-get_elem?, map-as_id,
}
use vyomanaut_v.Storage.Chunks.Recovery.{read_at-end, next_offset, enough_turns}
use vyomanaut_v.Storage.Chunks.Collection.{Compacts, turn-Compacts}

-- The log has the entries of the held ids.
unfoldable pub collect_ids : Chunks → Chunks
collect_ids c = record c { logged = kept c.held c.logged }

abbrev pub calm_files : FileCalls
calm_files = record {
  open_read = false;
  create = false;
  sync = false;
  close = false;
  rename = false;
  reopen = false;
}

module _ (p : Platform) (content : Bytes → Bytes) where
  key_length :
      (s : Store p) (c : Chunks) (key : Bytes) {held : Bool}
      → Readable p content s c []
      → Located p content s.index c.logged key held
      → is_some (p.get s.index key) ≡ true
      → length key ≡ 32
  key_length s c key h (absent e) some_value = absurd (cc (ap is_some e, some_value))
  key_length s c key h (present k e g) some_value =
      (IsChunk-at p content c.logged k h.chunks g).id_length

  contains-keys :
      (db : p.Db) (logged : List Bytes) (key : Bytes) {held : Bool}
      → Located p content db logged key held
      → contains key (p.keys db) ≡ held
  contains-keys db logged key (present k e g) = p.keys_complete db key (ap is_some e)
  contains-keys db logged key (absent e) = elim (Bool-cases (contains key (p.keys db))) [
    | inr none_there ↦ none_there
    | inl there ↦ absurd (
        cc (
          All-contains (λ id. is_some (p.get db id) ≡ true) key (p.keys db) (p.keys_sound db) there,
          ap is_some e,
        ))
  ]

  contains-all_chunk_ids :
      (s : Store p) (c : Chunks) (key : Bytes)
      → Readable p content s c []
      → contains key (all_chunk_ids p s.index) ≡ c.held key
  unfolding all_chunk_ids
  contains-all_chunk_ids s c key h =
      ap (contains key) (
        map-as_id (p.keys s.index) (
          All-map (λ id e. key_length s c id h (h.located id) e) (p.keys s.index)
            (p.keys_sound s.index)))
      ∙ contains-keys s.index c.logged key (h.located key)

  turn_past :
      (live : List Bytes) (c : Compacted p) (r : Bytes × Bool)
      → length r.0 < vlog_entry_size p
      → gc_turn p calm live c r ≡ leave finished c
  unfolding gc_turn
  turn_past live c (buf, failed) h = rw (lt→ltb (length buf) (vlog_entry_size p) h) refl

  kept_fits :
      (s : Store p) (c : Chunks) (test : Bytes → Bool) (before rest : List Bytes) (id : Bytes)
      → Readable p content s c []
      → c.logged ≡ before ++ id ∷ rest
      → length (kept test before) * vlog_entry_size p + vlog_entry_size p < 2 ^ 63
  kept_fits s c test before rest id h e =
      let at =
        subst (λ (t : List Bytes). get_elem? t (length before) ≡ some id) (sym e)
          (get_elem?-append_last before rest id) in
      omega (
        arith,
        offset_fits p content c.logged (length before) h.chunks at,
        h.fits,
        ap length h.vlog_is,
        length-append (log_bytes p content c.logged) [],
        mul-le-mul_right (vlog_entry_size p) (length-kept test before),
      )

  gc_loop-logged :
      (fuel turn : ℕ) (s : Store p) (c : Chunks) (live before rest : List Bytes) (g : Compacted p)
      → Readable p content s c []
      → c.logged ≡ before ++ rest
      → Compacts p content live s.index before g
      → length rest < fuel
      → (last : Compacted p) × (gc_loop p fuel
            (λ n. calm)
            live
            turn
            s.vlog
            g
            (length before * vlog_entry_size p)
          ≡ some (finished, last))
        × Compacts p content live s.index c.logged last
  unfolding gc_loop
  gc_loop-logged zero turn s c live before rest g h e inv more = absurd (omega arith)
  gc_loop-logged (suc fuel) turn s c live before [] g h e inv more =
      let same_ids : c.logged ≡ before = e ∙ append-nil before in
      (
        g,
        rw (sym (ap length same_ids)) (
            rw
              (
                gc_loop,
                turn_past live g
                    (read_at none s.vlog (length c.logged * vlog_entry_size p) (vlog_entry_size p))
                    (read_at-end p content s c [] h (omega arith)),
              )
              refl),
        subst (λ (t : List Bytes). Compacts p content live s.index t g) (sym same_ids) inv,
      )
  gc_loop-logged (suc fuel) turn s c live before (id ∷ rest) g h e inv more =
      let k = length before in
      let at =
        subst (λ (t : List Bytes). get_elem? t k ≡ some id) (sym e)
          (get_elem?-append_last before rest id) in
      let (grown, step, kept_inv) =
        turn-Compacts p content live s.index before g id inv
          (IsChunk-at p content c.logged k h.chunks at)
          (kept_fits s c (λ j. contains j live) before rest id h e) in
      let (last, run, done) =
        gc_loop-logged fuel (suc turn) s c live (before ++ id ∷ []) rest grown h
          (e ∙ sym (append_assoc before (id ∷ []) rest)) kept_inv (omega arith) in
      (
        last,
        rw
            (
              gc_loop,
              ap (gc_turn p calm live g) (read_at-entry p content s c [] k h at) ∙ step,
              next_offset p content s c [] before rest id h e,
            )
            run,
        done,
      )

  Located-compacted :
      (s : Store p) (c : Chunks) (last : Compacted p) (id : Bytes) {held : Bool}
      → Compacts p content (all_chunk_ids p s.index) s.index c.logged last
      → contains id (all_chunk_ids p s.index) ≡ held
      → Located p content s.index c.logged id held
      → Located p content last.index
          (kept (λ j. contains j (all_chunk_ids p s.index)) c.logged)
          id
          held
  Located-compacted s c last id inv e (absent n) = absent (inv.unmoved id (inl e) ∙ n)
  Located-compacted s c last id inv e (present k n g) =
      let (place, at, log) = inv.moved id e (contains-get_elem? c.logged k id g) in
      present place at log

  compacted-Readable :
      (s : Store p) (c : Chunks) (last : Compacted p)
      → Readable p content s c []
      → Compacts p content (all_chunk_ids p s.index) s.index c.logged last
      → Readable p content
          (record { index = last.index; vlog = last.file; vlog_head = last.new_head })
          (collect_ids c)
          []
  unfolding collect_ids
  compacted-Readable s c last h inv =
      let held_is = λ (id : Bytes). contains-all_chunk_ids s c id h in
      let log_is : kept (λ j. contains j (all_chunk_ids p s.index)) c.logged
          ≡ kept c.held c.logged =
        kept_ext (λ j. contains j (all_chunk_ids p s.index)) c.held c.logged held_is in
      let chunks = All-kept (IsChunk p content) c.held c.logged h.chunks in
      record {
        vlog_is =
            inv.file_is
            ∙ ap (log_bytes p content) log_is
            ∙ sym (append-nil (log_bytes p content (kept c.held c.logged)));
        chunks = chunks;
        fits = omega (
          arith,
          ap length (inv.file_is ∙ ap (log_bytes p content) log_is),
          length-log_bytes p content (kept c.held c.logged) chunks,
          h.fits,
          ap length h.vlog_is,
          length-append (log_bytes p content c.logged) [],
          length-log_bytes p content c.logged h.chunks,
          mul-le-mul_right (vlog_entry_size p) (length-kept c.held c.logged),
        );
        located = λ id.
            subst (λ (t : List Bytes). Located p content last.index t id (c.held id)) log_is
              (Located-compacted s c last id inv (held_is id) (h.located id));
      }

  start-Compacts :
      (live : List Bytes) (db : p.Db)
      → Compacts p content live db [] (record { index = db; file = []; new_head = 0 })
  unfolding kept log_bytes
  start-Compacts live db = record {
    file_is = refl;
    head_is = omega arith;
    moved = λ id lives seen. cc;
    unmoved = λ id why. refl;
  }

  -- A collection, when no call fails, keeps the set of chunks and leaves no other entries in the log.
  pub run_gc_keeps :
      (s : Store p) (c : Chunks)
      → Implements p content s c
      → (after : Store p) × (run_gc p calm_files (λ n. calm) s ≡ some (ok tt, after))
        × Implements p content after (collect_ids c)
  unfolding run_gc collected replace_vlog
  run_gc_keeps s c h =
      let start : Compacted p = record { index = s.index; file = []; new_head = 0 } in
      let (last, run, inv) =
        gc_loop-logged (suc (length s.vlog)) 0 s c (all_chunk_ids p s.index) [] c.logged start
          h.readable refl (start-Compacts (all_chunk_ids p s.index) s.index)
          (enough_turns p content s c [] h.readable) in
      (
        record { index = last.index; vlog = last.file; vlog_head = last.new_head },
        ap (collected p calm_files s) (
            ap
              (gc_loop p (suc (length s.vlog)) (λ n. calm) (all_chunk_ids p s.index) 0 s.vlog start)
              (sym (zero-mul (vlog_entry_size p)))
            ∙ run),
        record {
          readable = compacted-Readable s c last h.readable inv;
          head_is = omega (
            arith,
            inv.head_is,
            ap length inv.file_is,
            length-log_bytes p content (kept (λ j. contains j (all_chunk_ids p s.index)) c.logged) (
                All-kept (IsChunk p content) (λ j. contains j (all_chunk_ids p s.index)) c.logged
                  h.readable.chunks),
          );
        },
      )
