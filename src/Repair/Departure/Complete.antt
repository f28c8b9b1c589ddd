-- ===== src/Repair/Departure/Complete.antt =====
-- EnqueueRepairForRealChunks of internal/repair/departure.go when no statement fails.
use vyomanaut_v.Base.{
  All-map, ℕ, suc, ◌-◌, ◌<◌, ◌≡◌, inl, inr, refl, sym, ap, ◌∙◌, Bool, true, false, not, ◌&&◌, List,
  [], ◌∷◌, none, some, ltb, ◌==◌, if◌then◌else◌, All, Bool-cases, arith, subst, ==_refl, ◌||◌,
}
use vyomanaut_v.Base.Result.{Result, ok, err}
use vyomanaut_v.Repair.Queue.{TriggerType, RepairJob, QueueError, enqueue_job}
use vyomanaut_v.Repair.Departure.{
  Assignment, Tables, Faults, Context, is_assigned, is_of, is_vetting_row, delete_assignment,
  real_chunks, mark_deleted, enqueue_chunks, enqueue_repair_for_real_chunks,
}
use vyomanaut_v.Repair.Departure.Covered.{is_held, has_repair_job, IsCovered, held-IsCovered}
use vyomanaut_v.Repair.Departure.Chunks.{enqueue_chunks-IsCovered}

abbrev pub no_faults : Faults
no_faults = record {
  mark = false;
  vetting = false;
  query = false;
  check = λ turn. false;
  retire = λ turn. false;
  balance = false;
  penalise = false;
}

abbrev pub calm : Context → Context
calm c = record c { faults = no_faults }

abbrev is_real : ℕ → Assignment → Bool
is_real q a = (a.provider_id == q) && not a.is_vetting_chunk && is_assigned a.status

has_chunk : ℕ → List Assignment → Bool
has_chunk chunk [] = false
has_chunk chunk (a ∷ rows) = if a.chunk_id == chunk then true else has_chunk chunk rows

-- The rows of the real chunks are those that the constraint on chunk and provider lets a lookup find.
abbrev pub AreFound : ℕ → List Assignment → Type 0
AreFound q rows =
    All (λ (a : Assignment). is_vetting_row a.chunk_id q rows ≡ false) (real_chunks q rows)

vetting-mark_deleted :
    (now b q c : ℕ) (rows : List Assignment)
    → is_vetting_row c q (mark_deleted now b q rows) ≡ is_vetting_row c q rows
unfolding is_vetting_row mark_deleted
vetting-mark_deleted now b q c [] = refl
vetting-mark_deleted now b q c (a ∷ rows) = ground (arith, vetting-mark_deleted now b q c rows)

deleted_not_real : (now q : ℕ) (a : Assignment) → is_real q (delete_assignment now a) ≡ false
deleted_not_real now q a = ground arith

marked_unless :
    (b q : ℕ) (a : Assignment)
    → is_real q a ≡ true
    → (is_of b q a && is_assigned a.status) ≡ false
    → (b == a.chunk_id) ≡ false
marked_unless b q a real kept = ground arith

later_chunk :
    (chunk : ℕ) (a : Assignment) (rest : List Assignment)
    → (a.chunk_id == chunk) ≡ false
    → has_chunk chunk (a ∷ rest) ≡ true
    → has_chunk chunk rest ≡ true
unfolding has_chunk
later_chunk chunk a rest other h =
    sym (ap (λ (b : Bool). if b then true else has_chunk chunk rest) other) ∙ h

real_cons :
    (q : ℕ) (a : Assignment) (rows : List Assignment)
    → is_real q a ≡ true
    → real_chunks q (a ∷ rows) ≡ a ∷ real_chunks q rows
unfolding real_chunks
real_cons q a rows e = rw e refl

real_skip :
    (q : ℕ) (a : Assignment) (rows : List Assignment)
    → is_real q a ≡ false
    → real_chunks q (a ∷ rows) ≡ real_chunks q rows
unfolding real_chunks
real_skip q a rows e = rw e refl

mark_cons :
    (now b q : ℕ) (a : Assignment) (rows : List Assignment)
    → (is_of b q a && is_assigned a.status) ≡ true
    → mark_deleted now b q (a ∷ rows) ≡ delete_assignment now a ∷ mark_deleted now b q rows
unfolding mark_deleted
mark_cons now b q a rows e = rw e refl

mark_skip :
    (now b q : ℕ) (a : Assignment) (rows : List Assignment)
    → (is_of b q a && is_assigned a.status) ≡ false
    → mark_deleted now b q (a ∷ rows) ≡ a ∷ mark_deleted now b q rows
unfolding mark_deleted
mark_skip now b q a rows e = rw e refl

abbrev Later : Assignment → List Assignment → Type 0
Later x rows = has_chunk x.chunk_id rows ≡ true

none_left :
    (now b q : ℕ) (rest : List Assignment)
    → All (λ x. Later x rest) (real_chunks q (mark_deleted now b q []))
unfolding real_chunks mark_deleted
none_left now b q rest = tt

-- a chunk that is retired is no real chunk any more
shrink :
    (now q : ℕ) (a : Assignment) (rest rows : List Assignment)
    → All (λ x. Later x (a ∷ rest)) (real_chunks q rows)
    → All (λ x. Later x rest) (real_chunks q (mark_deleted now a.chunk_id q rows))
shrink now q a rest [] h = none_left now a.chunk_id q rest
shrink now q a rest (x ∷ rows) h = elim (Bool-cases (is_real q x)) [
  | inl real ↦
      let old = subst (All (λ y. Later y (a ∷ rest))) (real_cons q x rows real) h in
      elim (Bool-cases (is_of a.chunk_id q x && is_assigned x.status)) [
        | inl marked ↦
            rw
              (
                mark_cons now a.chunk_id q x rows marked,
                real_skip q (delete_assignment now x) (mark_deleted now a.chunk_id q rows)
                    (deleted_not_real now q x),
              )
              (shrink now q a rest rows old.1)
        | inr kept ↦
            rw
              (
                mark_skip now a.chunk_id q x rows kept,
                real_cons q x (mark_deleted now a.chunk_id q rows) real,
              )
              (
                later_chunk x.chunk_id a rest (marked_unless a.chunk_id q x real kept) old.0,
                shrink now q a rest rows old.1,
              )
      ]
  | inr unreal ↦
      let old = subst (All (λ y. Later y (a ∷ rest))) (real_skip q x rows unreal) h in
      elim (Bool-cases (is_of a.chunk_id q x && is_assigned x.status)) [
        | inl marked ↦
            rw
              (
                mark_cons now a.chunk_id q x rows marked,
                real_skip q (delete_assignment now x) (mark_deleted now a.chunk_id q rows)
                    (deleted_not_real now q x),
              )
              (shrink now q a rest rows old)
        | inr kept ↦
            rw
              (
                mark_skip now a.chunk_id q x rows kept,
                real_skip q x (mark_deleted now a.chunk_id q rows) unreal,
              )
              (shrink now q a rest rows old)
      ]
]

nil_of : (rows : List Assignment) → All (λ x. Later x []) rows → rows ≡ []
unfolding has_chunk
nil_of [] h = refl
nil_of (x ∷ rows) h = cc (h.0)

Later-cons : (x a : Assignment) (rows : List Assignment) → Later x rows → Later x (a ∷ rows)
unfolding has_chunk
Later-cons x a rows h = ground arith

own_chunks : (rows : List Assignment) → All (λ x. Later x rows) rows
unfolding has_chunk
own_chunks [] = tt
own_chunks (x ∷ rows) =
    (rw (==_refl x.chunk_id) refl, All-map (λ y h. Later-cons y x rows h) rows (own_chunks rows))

unheld :
    (chunk q : ℕ) (rows : List Assignment) → real_chunks q rows ≡ [] → is_held chunk q rows ≡ false
unfolding is_held
unheld chunk q [] e = refl
unheld chunk q (a ∷ rows) e = elim (Bool-cases (is_real q a)) [
  | inl real ↦ absurd (cc (e, real_cons q a rows real))
  | inr unreal ↦ ground (arith, unheld chunk q rows (sym (real_skip q a rows unreal) ∙ e))
]

passes :
    (x : Bool) (f : QueueError) (rows : List RepairJob)
    → x ≡ false
    → ◌≡◌ {A = Result QueueError (List RepairJob)} (if x then err f else ok rows) (ok rows)
passes true f rows h = cc
passes false f rows h = refl

enqueue_accepts :
    (d n id now chunk segment p : ℕ) (trigger : TriggerType) (jobs : List RepairJob)
    → d < n
    → (after : List RepairJob) × (enqueue_job d n id now chunk segment (some p) trigger (n - 1) jobs
        ≡ ok after)
unfolding enqueue_job
enqueue_accepts d n id now chunk segment p trigger jobs room =
    (_, passes (ltb (n - 1) d || ltb n (n - 1)) _ _ (ground arith))

module _ (c : Context) (q : ℕ) (trigger : TriggerType) (room : c.data_shards < c.total_shards) where
  enqueue_chunks-calm :
      (turn : ℕ) (rows : List Assignment) (t : Tables)
      → All (λ (a : Assignment). is_vetting_row a.chunk_id q t.assignments ≡ false) rows
      → All (λ x. Later x rows) (real_chunks q t.assignments)
      → let r = enqueue_chunks (calm c) q trigger turn rows t in
        (r.0 ≡ none) × (real_chunks q r.1.assignments ≡ [])
  unfolding enqueue_chunks
  enqueue_chunks-calm turn [] t found_rows later =
      (refl, nil_of (real_chunks q t.assignments) later)
  enqueue_chunks-calm turn (a ∷ rest) t found_rows later =
      let (jobs, good) =
        enqueue_accepts c.data_shards c.total_shards (c.job_ids turn) c.now a.chunk_id a.segment_id
          q trigger t.jobs room in
      rw (found_rows.0, good)
        (enqueue_chunks-calm (suc turn) rest
          (record t { jobs = jobs; assignments = mark_deleted c.now a.chunk_id q t.assignments })
          (All-map (λ x h. vetting-mark_deleted c.now a.chunk_id q x.chunk_id t.assignments ∙ h)
            rest found_rows.1)
          (shrink c.now q a rest t.assignments later))

  -- When no statement fails, every real chunk of the provider gets a repair job and is no longer assigned.
  pub enqueue_repair_completes :
      (chunk : ℕ) (t : Tables)
      → AreFound q t.assignments
      → is_held chunk q t.assignments ≡ true
      → let r = enqueue_repair_for_real_chunks (calm c) q trigger t in
        (r.0 ≡ none)
        × (is_held chunk q r.1.assignments ≡ false)
        × (has_repair_job chunk q r.1.jobs ≡ true)
  unfolding enqueue_repair_for_real_chunks IsCovered
  enqueue_repair_completes chunk t found_rows held =
      let (done, gone_all) =
        enqueue_chunks-calm 0 (real_chunks q t.assignments) t found_rows
          (own_chunks (real_chunks q t.assignments)) in
      let gone =
        unheld chunk q
          (enqueue_chunks (calm c) q trigger 0 (real_chunks q t.assignments) t).1.assignments
          gone_all in
      (
        done,
        gone,
        elim (enqueue_chunks-IsCovered (calm c) chunk q q trigger 0 (real_chunks q t.assignments) t
            (held-IsCovered chunk q t held)) [
              | inl still ↦ absurd (cc (still, gone))
              | inr job ↦ job
            ],
      )
