-- ===== src/Storage/Chunks/Recovery.antt =====
-- RecoverFromCrash of internal/storage/vlog.go on the set of chunks.
use vyomanaut_v.Base.{
  ℕ, zero, suc, ◌+◌, ◌*◌, ◌%◌, ◌^◌, ◌<◌, ◌≤◌, ◌≡◌, refl, sym, ap, ◌∙◌, Bool, List, [], ◌∷◌, ◌++◌,
  none, some, length, arith, get_elem?, subst, length-append, append-nil, append_assoc, lt→ltb,
}
use native.Mathlib.Nat.{suc-mul, mul-le-mul_left, zero-mul, mul-one}
use vyomanaut_v.Base.Bytes.{Bytes}
use vyomanaut_v.Base.Result.{ok}
use vyomanaut_v.Storage.{Platform, Calls, vlog_entry_size, calm}
use vyomanaut_v.Storage.Vlog.{Store, read_at}
use vyomanaut_v.Storage.Vlog.Recover.{
  stop, next, recover_turn, recover_loop, recovered, recover_from_crash,
}
use vyomanaut_v.Storage.Vlog.Ends.{length-read_at}
use vyomanaut_v.Storage.Vlog.Entries.{log_bytes, length-log_bytes, get_elem?-append_last}
use vyomanaut_v.Storage.Chunks.{Chunks, Readable, read_at-entry, IsChunk-at, offset_fits}
use vyomanaut_v.Storage.Chunks.Replay.{
  hold_id, hold_all, recover_ids, with_index, turn-entry_of, reindexed,
}

one-more : (n : ℕ) → n + 1 ≡ suc n
one-more n = omega arith

entry_some : (p : Platform) → 1 ≤ vlog_entry_size p
entry_some p = omega arith

module _ (p : Platform) (content : Bytes → Bytes) where
  turn_short :
      (io : Calls) (db : p.Db) (offset : ℕ) (r : Bytes × Bool)
      → length r.0 < vlog_entry_size p
      → recover_turn p io db offset r ≡ stop
  unfolding recover_turn
  turn_short io db offset (buf, failed) h = rw (lt→ltb (length buf) (vlog_entry_size p) h) refl

  -- a read past the last entry
  pub read_at-end :
      (s : Store p) (c : Chunks) (tail : Bytes)
      → Readable p content s c tail
      → length tail < vlog_entry_size p
      → length (read_at none s.vlog (length c.logged * vlog_entry_size p) (vlog_entry_size p)).0
        < vlog_entry_size p
  read_at-end s c tail h short = omega (
    arith,
    length-read_at none s.vlog (length c.logged * vlog_entry_size p) (vlog_entry_size p),
    ap length h.vlog_is,
    length-append (log_bytes p content c.logged) tail,
    length-log_bytes p content c.logged h.chunks,
  )

  stop_turn :
      (s : Store p) (c : Chunks) (tail : Bytes)
      → Readable p content s c tail
      → length tail < vlog_entry_size p
      → recover_turn p calm s.index
          (length c.logged * vlog_entry_size p)
          (read_at none s.vlog (length c.logged * vlog_entry_size p) (vlog_entry_size p))
        ≡ stop
  stop_turn s c tail h short =
      turn_short calm s.index (length c.logged * vlog_entry_size p)
        (read_at none s.vlog (length c.logged * vlog_entry_size p) (vlog_entry_size p))
        (read_at-end s c tail h short)

  -- the turn on the entry after those that were read
  next_turn :
      (s : Store p) (c : Chunks) (tail : Bytes) (before rest : List Bytes) (id : Bytes)
      → Readable p content s c tail
      → c.logged ≡ before ++ id ∷ rest
      → (db : p.Db) × (recover_turn p calm s.index
            (length before * vlog_entry_size p)
            (read_at none s.vlog (length before * vlog_entry_size p) (vlog_entry_size p))
          ≡ next db)
        × Readable p content (with_index s db) (hold_id c id) tail
  next_turn s c tail before rest id h e =
      let k = length before in
      let at =
        subst (λ (t : List Bytes). get_elem? t k ≡ some id) (sym e)
          (get_elem?-append_last before rest id) in
      let (db, step, held) = reindexed p content s c tail id k h at (h.located id) in
      (
        db,
        ap (recover_turn p calm s.index (k * vlog_entry_size p))
              (read_at-entry p content s c tail k h at)
            ∙ turn-entry_of p content s.index (k * vlog_entry_size p) id
                (IsChunk-at p content c.logged k h.chunks at)
            ∙ step,
        held,
      )

  pub next_offset :
      (s : Store p) (c : Chunks) (tail : Bytes) (before rest : List Bytes) (id : Bytes)
      → Readable p content s c tail
      → c.logged ≡ before ++ id ∷ rest
      → (length before * vlog_entry_size p + vlog_entry_size p) % 2 ^ 64
        ≡ length (before ++ id ∷ []) * vlog_entry_size p
  next_offset s c tail before rest id h e =
      let at =
        subst (λ (t : List Bytes). get_elem? t (length before) ≡ some id) (sym e)
          (get_elem?-append_last before rest id) in
      omega (
        arith,
        offset_fits p content c.logged (length before) h.chunks at,
        h.fits,
        ap length h.vlog_is,
        length-append (log_bytes p content c.logged) tail,
        length-append before (id ∷ []),
        suc-mul (length before) (vlog_entry_size p),
        ap (λ (t : ℕ). t * vlog_entry_size p) (length-append before (id ∷ [])),
        ap (λ (t : ℕ). t * vlog_entry_size p) (one-more (length before)),
      )

  recover_loop-logged :
      (fuel turn : ℕ) (s : Store p) (c : Chunks) (tail : Bytes) (before rest : List Bytes)
      → Readable p content s c tail
      → c.logged ≡ before ++ rest
      → length tail < vlog_entry_size p
      → length rest < fuel
      → (db : p.Db) × (recover_loop p fuel
            (λ n. calm)
            turn
            s.vlog
            s.index
            (length before * vlog_entry_size p)
          ≡ some (none, (db, length c.logged * vlog_entry_size p)))
        × Readable p content (with_index s db) (hold_all c rest) tail
  unfolding recover_loop hold_all hold_id
  recover_loop-logged zero turn s c tail before rest h e short more = absurd (omega arith)
  recover_loop-logged (suc fuel) turn s c tail before [] h e short more =
      let same_length : length c.logged ≡ length before = ap length (e ∙ append-nil before) in
      (s.index, rw (sym same_length) (rw (recover_loop, stop_turn s c tail h short) refl), h)
  recover_loop-logged (suc fuel) turn s c tail before (id ∷ rest) h e short more =
      let (db, step, held) = next_turn s c tail before rest id h e in
      let (last, run, done) =
        recover_loop-logged fuel (suc turn) (with_index s db) (hold_id c id) tail
          (before ++ id ∷ []) rest held (e ∙ sym (append_assoc before (id ∷ []) rest)) short
          (omega arith) in
      (last, rw (recover_loop, step, next_offset s c tail before rest id h e) run, done)

  Readable-head :
      (s : Store p) (head : ℕ) (c : Chunks) (tail : Bytes)
      → Readable p content s c tail
      → Readable p content (record s { vlog_head = head }) c tail
  Readable-head s head c tail h = record {
    vlog_is = h.vlog_is;
    chunks = h.chunks;
    fits = h.fits;
    located = h.located;
  }

  pub enough_turns :
      (s : Store p) (c : Chunks) (tail : Bytes)
      → Readable p content s c tail
      → length c.logged < suc (length s.vlog)
  enough_turns s c tail h = omega (
    arith,
    ap length h.vlog_is,
    length-append (log_bytes p content c.logged) tail,
    length-log_bytes p content c.logged h.chunks,
    mul-one (length c.logged),
    mul-le-mul_left (length c.logged) (entry_some p),
  )

  -- Recovery, when no call fails, holds every chunk of the log, and puts the head at the log's end,
  -- before the bytes of an entry that was not written whole.
  pub recover_from_crash_holds :
      (s : Store p) (c : Chunks) (tail : Bytes)
      → Readable p content s c tail
      → length tail < vlog_entry_size p
      → (after : Store p) × (recover_from_crash p (λ n. calm) s ≡ some (ok tt, after))
        × Readable p content after (recover_ids c) tail
        × (after.vlog_head + length tail ≡ length after.vlog)
  unfolding recover_from_crash recovered recover_ids
  recover_from_crash_holds s c tail h short =
      let (db, run, held) =
        recover_loop-logged (suc (length s.vlog)) 0 s c tail [] c.logged h refl short
          (enough_turns s c tail h) in
      let head = length c.logged * vlog_entry_size p in
      (
        record s { index = db; vlog_head = head },
        ap (recovered p s) (
            ap (recover_loop p (suc (length s.vlog)) (λ n. calm) 0 s.vlog s.index)
              (sym (zero-mul (vlog_entry_size p)))
            ∙ run),
        Readable-head (with_index s db) head (hold_all c c.logged) tail held,
        omega (
          arith,
          ap length h.vlog_is,
          length-append (log_bytes p content c.logged) tail,
          length-log_bytes p content c.logged h.chunks,
        ),
      )
