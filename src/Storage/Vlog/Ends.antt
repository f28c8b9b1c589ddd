-- ===== src/Storage/Vlog/Ends.antt =====
-- The loops of RecoverFromCrash and RunGC in internal/storage/vlog.go end, whatever the file holds and
-- whichever calls fail.
use vyomanaut_v.Base.{
  ℕ, zero, suc, ◌+◌, ◌-◌, ◌%◌, ◌^◌, ◌<◌, ◌≤◌, ◌≡◌, ◌⊎◌, inl, inr, refl, ap, Bool, true, List, [],
  Option, none, some, length, take, drop, arith, length-take, length-drop, Bool-cases, ltb, lt→ltb,
  ltb→lt, ◌||◌,
}
use vyomanaut_v.Base.Bytes.{Bytes}
use vyomanaut_v.Base.Result.{ok, err}
use vyomanaut_v.Storage.{Platform, Calls, StorageError, gc_failed, vlog_entry_size}
use vyomanaut_v.Storage.Index.{all_chunk_ids}
use vyomanaut_v.Storage.Vlog.{Store, read_at}
use vyomanaut_v.Storage.Vlog.Recover.{
  Turn, stop, abort, next, recover_turn, recover_loop, recovered, recover_from_crash,
}
use vyomanaut_v.Storage.Vlog.Collect.{
  Ending, finished, was_cancelled, had_error, replace_vlog, Compacted, GcTurn, leave, go_on,
  gc_turn, gc_loop, FileCalls, collected, run_gc,
}

abbrev pub Gives {ℓ} : {A : Type ℓ} → Option A → Type ℓ
Gives {A = A} o = (a : A) × (o ≡ some a)

pub length-read_at :
    (fault : Option ℕ) (file : Bytes) (offset size : ℕ)
    → length (read_at fault file offset size).0 ≤ length file - offset
unfolding read_at
length-read_at none file offset size =
    ground (arith, length-take size (drop offset file), length-drop offset file)
length-read_at (some got) file offset size = omega (
  arith,
  length-take got (take size (drop offset file)),
  length-take size (drop offset file),
  length-drop offset file,
)

-- A read is short, or fails, or lies within the file.
data Reading (file : Bytes) (offset size : ℕ) (r : Bytes × Bool) : Type 0 where
  is_short : length r.0 < size → Reading file offset size r
  has_failed : r.1 ≡ true → Reading file offset size r
  is_within : offset < 2 ^ 63 → offset + size ≤ length file → Reading file offset size r

reading :
    (fault : Option ℕ) (file : Bytes) (offset size : ℕ)
    → 0 < size
    → Reading file offset size (read_at fault file offset size)
unfolding read_at
reading (some got) file offset size some_bytes = has_failed refl
reading none file offset size some_bytes = elim (Bool-cases (ltb offset (2 ^ 63))) [
  | inr past ↦ has_failed (rw past refl)
  | inl before ↦ elim (Bool-cases (ltb (length file - offset) size)) [
    | inl few ↦ is_short (
        omega (arith, length-read_at none file offset size, ltb→lt (length file - offset) size few))
    | inr all ↦ is_within (ltb→lt offset (2 ^ 63) before) (ground arith)
  ]
]

module _ (p : Platform) where
  recover_short :
      (io : Calls) (db : p.Db) (offset : ℕ) (r : Bytes × Bool)
      → length r.0 < vlog_entry_size p
      → recover_turn p io db offset r ≡ stop
  unfolding recover_turn
  recover_short io db offset (buf, failed) h = rw (lt→ltb (length buf) (vlog_entry_size p) h) refl

  recover_failed :
      (io : Calls) (db : p.Db) (offset : ℕ) (r : Bytes × Bool)
      → r.1 ≡ true
      → recover_turn p io db offset r ≡ stop
  unfolding recover_turn
  recover_failed io db offset (buf, failed) h = ground arith

  after_turn :
      (fuel : ℕ) (calls : ℕ → Calls) (turn : ℕ) (file : Bytes) (db : p.Db) (offset : ℕ)
      (t : Turn p.Db)
      → recover_turn p
          (calls turn)
          db
          offset
          (read_at (calls turn).read file offset (vlog_entry_size p))
        ≡ t
      → ((grown : p.Db)
          → t ≡ next grown
          → Gives (
              recover_loop p fuel calls
                (suc turn)
                file
                grown
                ((offset + vlog_entry_size p) % 2 ^ 64)))
      → Gives (recover_loop p (suc fuel) calls turn file db offset)
  unfolding recover_loop
  after_turn fuel calls turn file db offset stop e h =
      ((none, (db, offset)), rw (recover_loop, e) refl)
  after_turn fuel calls turn file db offset (abort reason) e h =
      ((some reason, (db, offset)), rw (recover_loop, e) refl)
  after_turn fuel calls turn file db offset (next grown) e h =
      let (last, run) = h grown refl in (last, rw (recover_loop, e) run)

  recover_loop-ends :
      (fuel : ℕ) (calls : ℕ → Calls) (turn : ℕ) (file : Bytes) (db : p.Db) (offset : ℕ)
      → length file - offset < fuel
      → Gives (recover_loop p fuel calls turn file db offset)
  recover_loop-ends zero calls turn file db offset h = absurd (omega arith)
  recover_loop-ends (suc fuel) calls turn file db offset h =
      elim (reading (calls turn).read file offset (vlog_entry_size p) (omega arith)) [
        | is_short few ↦
            after_turn fuel calls turn file db offset stop
              (recover_short (calls turn) db offset
                (read_at (calls turn).read file offset (vlog_entry_size p)) few)
              (λ grown e. cc)
        | has_failed bad ↦
            after_turn fuel calls turn file db offset stop
              (recover_failed (calls turn) db offset
                (read_at (calls turn).read file offset (vlog_entry_size p)) bad)
              (λ grown e. cc)
        | is_within low fits ↦
            after_turn fuel calls turn file db offset
              (recover_turn p (calls turn) db offset
                (read_at (calls turn).read file offset (vlog_entry_size p)))
              refl
              (λ grown e.
                recover_loop-ends fuel calls (suc turn) file grown
                  ((offset + vlog_entry_size p) % 2 ^ 64) (omega (arith, p.size_small)))
      ]

  recovered-Gives :
      (s : Store p) {o : Option (Option StorageError × (p.Db × ℕ))}
      (last : Option StorageError × (p.Db × ℕ))
      → o ≡ some last
      → Gives (recovered p s o)
  unfolding recovered
  recovered-Gives s (none, (db, offset)) run =
      ((ok tt, record s { index = db; vlog_head = offset }), rw run refl)
  recovered-Gives s (some reason, (db, offset)) run =
      ((err reason, record s { index = db }), rw run refl)

  -- Recovery gives a result for every store and all failures of calls.
  pub recover_from_crash_ends :
      (calls : ℕ → Calls) (s : Store p) → Gives (recover_from_crash p calls s)
  unfolding recover_from_crash
  recover_from_crash_ends calls s =
      let (last, run) =
        recover_loop-ends (suc (length s.vlog)) calls 0 s.vlog s.index 0 (omega arith) in
      recovered-Gives s last run

  gc_stops :
      (io : Calls) (live : List Bytes) (c : Compacted p) (r : Bytes × Bool)
      → (length r.0 < vlog_entry_size p) ⊎ (r.1 ≡ true)
      → (ending : Ending) × (gc_turn p io live c r ≡ leave ending c)
  unfolding gc_turn
  gc_stops io live c (buf, failed) h = elim (Bool-cases io.is_cancelled) [
    | inl now ↦ (was_cancelled, rw now refl)
    | inr later ↦ elim (Bool-cases (ltb (length buf) (vlog_entry_size p))) [
      | inl few ↦ (finished, rw (later, few) refl)
      | inr all ↦ elim h [
        | inl few ↦ absurd (ground arith)
        | inr bad ↦ (had_error, rw (later, all, bad) refl)
      ]
    ]
  ]

  after_gc_turn :
      (fuel : ℕ) (calls : ℕ → Calls) (live : List Bytes) (turn : ℕ) (file : Bytes) (c : Compacted p)
      (offset : ℕ) (t : GcTurn p)
      → gc_turn p (calls turn) live c (read_at (calls turn).read file offset (vlog_entry_size p))
        ≡ t
      → ((more : Compacted p)
          → t ≡ go_on more
          → Gives (
              gc_loop p fuel calls live
                (suc turn)
                file
                more
                ((offset + vlog_entry_size p) % 2 ^ 64)))
      → Gives (gc_loop p (suc fuel) calls live turn file c offset)
  unfolding gc_loop
  after_gc_turn fuel calls live turn file c offset (leave ending last) e h =
      ((ending, last), rw (gc_loop, e) refl)
  after_gc_turn fuel calls live turn file c offset (go_on more) e h =
      let (last, run) = h more refl in (last, rw (gc_loop, e) run)

  gc_loop-ends :
      (fuel : ℕ) (calls : ℕ → Calls) (live : List Bytes) (turn : ℕ) (file : Bytes) (c : Compacted p)
      (offset : ℕ)
      → length file - offset < fuel
      → Gives (gc_loop p fuel calls live turn file c offset)
  gc_loop-ends zero calls live turn file c offset h = absurd (omega arith)
  gc_loop-ends (suc fuel) calls live turn file c offset h =
      let r = read_at (calls turn).read file offset (vlog_entry_size p) in
      let ends : (length r.0 < vlog_entry_size p) ⊎ (r.1 ≡ true)
          → Gives (gc_loop p (suc fuel) calls live turn file c offset) =
        (λ why.
          let (ending, run) = gc_stops (calls turn) live c r why in
          after_gc_turn fuel calls live turn file c offset (leave ending c) run (λ more e. cc)) in
      elim (reading (calls turn).read file offset (vlog_entry_size p) (omega arith)) [
        | is_short few ↦ ends (inl few)
        | has_failed bad ↦ ends (inr bad)
        | is_within low fits ↦
            after_gc_turn fuel calls live turn file c offset (gc_turn p (calls turn) live c r) refl
              (λ more e.
                gc_loop-ends fuel calls live (suc turn) file more
                  ((offset + vlog_entry_size p) % 2 ^ 64) (omega (arith, p.size_small)))
      ]

  -- A collection gives a result for every store and all failures of calls.
  pub run_gc_ends : (fc : FileCalls) (calls : ℕ → Calls) (s : Store p) → Gives (run_gc p fc calls s)
  unfolding run_gc collected
  run_gc_ends fc calls s = elim (Bool-cases (fc.open_read || fc.create)) [
    | inl bad ↦ ((err gc_failed, s), rw bad refl)
    | inr fine ↦
        let (last, run) =
          gc_loop-ends (suc (length s.vlog)) calls (all_chunk_ids p s.index) 0 s.vlog
            (record { index = s.index; file = []; new_head = 0 }) 0 (omega arith) in
        (replace_vlog p fc s last, rw fine (ap (collected p fc s) run))
  ]
