-- ===== src/Repair/Departure/Chunks.antt =====
-- What a departure of internal/repair/departure.go does to the chunks of the departing provider.
use vyomanaut_v.Base.{
  ℕ, suc, ◌-◌, ◌≡◌, inl, inr, Bool, true, false, not, List, [], ◌∷◌, Option, none, some, ltb,
  if◌then◌else◌, Bool-cases,
}
use vyomanaut_v.Base.Result.{Result-cases}
use vyomanaut_v.Scoring.Passes.{Status, pending_onboarding, vetting, active, departed}
use vyomanaut_v.Repair.Queue.{TriggerType, silent_departure, enqueue_job}
use vyomanaut_v.Payment.Ledger.{Event}
use vyomanaut_v.Repair.Departure.{
  Assignment, Tables, DepartureError, statement_failed, provider_missing, penalise_failed, Context,
  Candidate, is_vetting_row, delete_vetting_chunks, real_chunks, mark_deleted, enqueue_chunks,
  enqueue_repair_for_real_chunks, handle_chunks, seize, after_chunks, process_departure,
  process_all, detect_once, find_departure_candidates, compute_sealed_balance, penalise,
  has_provider, mark_departed,
}
use vyomanaut_v.Repair.Departure.Covered.{
  is_held, IsCovered, held-delete_vetting_chunks, enqueued, IsCovered-enqueued, IsCovered-retired,
  held-IsCovered, IsCovered-if, IsCovered-unheld, has_repair_job,
}

module _ (c : Context) (chunk p : ℕ) where
  pub enqueue_chunks-IsCovered :
      (q : ℕ) (trigger : TriggerType) (turn : ℕ) (rows : List Assignment) (t : Tables)
      → IsCovered chunk p t
      → IsCovered chunk p (enqueue_chunks c q trigger turn rows t).1
  unfolding enqueue_chunks
  enqueue_chunks-IsCovered q trigger turn [] t h = h
  enqueue_chunks-IsCovered q trigger turn (a ∷ rest) t h = elim (Bool-cases (c.faults.check turn)) [
    | inl bad ↦ rw bad h
    | inr fine ↦ elim (Bool-cases (is_vetting_row a.chunk_id q t.assignments)) [
      | inl skip ↦ rw (fine, skip) (enqueue_chunks-IsCovered q trigger (suc turn) rest t h)
      | inr real ↦
          elim (Result-cases (
            enqueue_job c.data_shards c.total_shards (c.job_ids turn) c.now a.chunk_id a.segment_id
              (some q) trigger (c.total_shards - 1) t.jobs)) [
                | inr (reason, bad) ↦ rw (fine, real, bad) h
                | inl (jobs, good) ↦
                    let (j, same_jobs, same_chunk, same_provider, is_queued) =
                      enqueued c.data_shards c.total_shards (c.job_ids turn) c.now a.chunk_id
                        a.segment_id q trigger (c.total_shards - 1) t.jobs good in
                    elim (Bool-cases (c.faults.retire turn)) [
                      | inl bad ↦
                          rw (fine, real, good, bad)
                            (IsCovered-enqueued chunk p a.chunk_id t jobs j same_jobs h)
                      | inr retired ↦
                          rw (fine, real, good, retired)
                            (enqueue_chunks-IsCovered q trigger (suc turn) rest
                              (record t {
                                jobs = jobs;
                                assignments = mark_deleted c.now a.chunk_id q t.assignments;
                              })
                              (IsCovered-retired c.now a.chunk_id q chunk p t jobs j same_jobs
                                same_chunk same_provider is_queued h))
                    ]
              ]
    ]
  ]

  enqueue_repair-IsCovered :
      (q : ℕ) (trigger : TriggerType) (t : Tables)
      → IsCovered chunk p t
      → IsCovered chunk p (enqueue_repair_for_real_chunks c q trigger t).1
  unfolding enqueue_repair_for_real_chunks
  enqueue_repair-IsCovered q trigger t h =
      IsCovered-if chunk p c.faults.query (some statement_failed, t)
        (enqueue_chunks c q trigger 0 (real_chunks q t.assignments) t) h
        (enqueue_chunks-IsCovered q trigger 0 (real_chunks q t.assignments) t h)

  delete_vetting-IsCovered :
      (q : ℕ) (t : Tables)
      → IsCovered chunk p t
      → IsCovered chunk p (record t { assignments = delete_vetting_chunks c.now q t.assignments })
  unfolding IsCovered
  delete_vetting-IsCovered q t (inl held) =
      inl (held-delete_vetting_chunks c.now q chunk p t.assignments held)
  delete_vetting-IsCovered q t (inr queued) = inr queued

  soft_delete-IsCovered :
      (q : ℕ) (t : Tables) → IsCovered chunk p t → IsCovered chunk p (handle_chunks c q vetting t).1
  unfolding handle_chunks
  soft_delete-IsCovered q t h =
      IsCovered-if chunk p c.faults.vetting (some statement_failed, t)
        (none, record t { assignments = delete_vetting_chunks c.now q t.assignments }) h
        (delete_vetting-IsCovered q t h)

  handle_chunks-IsCovered :
      (q : ℕ) (s : Status) (t : Tables)
      → IsCovered chunk p t
      → IsCovered chunk p (handle_chunks c q s t).1
  unfolding handle_chunks
  handle_chunks-IsCovered q active t h = enqueue_repair-IsCovered q silent_departure t h
  handle_chunks-IsCovered q departed t h = enqueue_repair-IsCovered q silent_departure t h
  handle_chunks-IsCovered q pending_onboarding t h = soft_delete-IsCovered q t h
  handle_chunks-IsCovered q vetting t h = soft_delete-IsCovered q t h

  -- a seizure touches nothing but the escrow
  pub data Seized (t : Tables) : Option DepartureError × Tables → Type 0 where
    stopped : (o : Option DepartureError) → Seized t (o, t)
    seized : (events : List Event) → Seized t (none, record t { events = events })

  pub seize-Seized : (key : ℕ → ℕ → ℕ) (q : ℕ) (t : Tables) → Seized t (seize c key q t)
  unfolding seize
  seize-Seized key q t = elim (Bool-cases c.faults.balance) [
    | inl bad ↦ rw bad (stopped (some statement_failed))
    | inr fine ↦ elim (Result-cases (compute_sealed_balance q t.events)) [
      | inr (reason, bad) ↦ rw (fine, bad) (stopped (some reason))
      | inl (balance, good) ↦ elim (Bool-cases (ltb 0 balance)) [
        | inr nothing ↦ rw (fine, good, nothing) (stopped none)
        | inl some_balance ↦
            elim (Result-cases
              (penalise (not c.faults.penalise) q balance (key q c.now) t.events)) [
                | inr (reason, bad) ↦
                    rw (fine, good, some_balance, bad) (stopped (some (penalise_failed reason)))
                | inl (events, done) ↦ rw (fine, good, some_balance, done) (seized events)
              ]
      ]
    ]
  ]

  Seized-IsCovered :
      (t : Tables) {r : Option DepartureError × Tables}
      → Seized t r
      → IsCovered chunk p t
      → IsCovered chunk p r.1
  unfolding IsCovered
  Seized-IsCovered t (stopped o) h = h
  Seized-IsCovered t (seized events) h = h

  seize-IsCovered :
      (key : ℕ → ℕ → ℕ) (q : ℕ) (t : Tables)
      → IsCovered chunk p t
      → IsCovered chunk p (seize c key q t).1
  seize-IsCovered key q t h = Seized-IsCovered t (seize-Seized key q t) h

  after_chunks-IsCovered :
      (key : ℕ → ℕ → ℕ) (q : ℕ) (r : Option DepartureError × Tables)
      → IsCovered chunk p r.1
      → IsCovered chunk p (after_chunks c key q r).1
  unfolding after_chunks
  after_chunks-IsCovered key q (some reason, t) h = h
  after_chunks-IsCovered key q (none, t) h = seize-IsCovered key q t h

  marked-IsCovered :
      (q : ℕ) (t : Tables)
      → IsCovered chunk p t
      → IsCovered chunk p (record t { providers = mark_departed c.now q t.providers })
  unfolding IsCovered
  marked-IsCovered q t h = h

  process_departure-IsCovered :
      (key : ℕ → ℕ → ℕ) (candidate : Candidate) (t : Tables)
      → IsCovered chunk p t
      → IsCovered chunk p (process_departure c key candidate t).1
  unfolding process_departure
  process_departure-IsCovered key (q, s) t h =
      let marked = record t { providers = mark_departed c.now q t.providers } in
      let handled = after_chunks c key q (handle_chunks c q s marked) in
      IsCovered-if chunk p c.faults.mark (some statement_failed, t)
        (if has_provider q t.providers then handled else (some provider_missing, t)) h
        (IsCovered-if chunk p (has_provider q t.providers) handled (some provider_missing, t)
          (after_chunks-IsCovered key q (handle_chunks c q s marked)
            (handle_chunks-IsCovered q s marked (marked-IsCovered q t h)))
          h)

module _ (contexts : ℕ → Context) (key : ℕ → ℕ → ℕ) (chunk p : ℕ) where
  process_all-IsCovered :
      (turn : ℕ) (candidates : List Candidate) (t : Tables)
      → IsCovered chunk p t
      → IsCovered chunk p (process_all contexts key turn candidates t).1
  unfolding process_all
  process_all-IsCovered turn [] t h = h
  process_all-IsCovered turn (candidate ∷ rest) t h =
      process_all-IsCovered (suc turn) rest (process_departure (contexts turn) key candidate t).1
        (process_departure-IsCovered (contexts turn) chunk p key candidate t h)

  -- Whichever statements fail during a detection, it takes no chunk from a provider, vetting chunks apart,
  -- without a job for it: a chunk that was assigned to the provider and is no longer has a job in the
  -- queue for this chunk and this provider that waits in the state QUEUED. Nothing is said of a chunk that
  -- stays assigned, whose provider may be marked as departed.
  pub has_repair_job-detect_once :
      (query_fails : Bool) (threshold now : ℕ) (t : Tables)
      → is_held chunk p t.assignments ≡ true
      → let after = (detect_once query_fails threshold now contexts key t).1 in
        is_held chunk p after.assignments ≡ false → has_repair_job chunk p after.jobs ≡ true
  unfolding detect_once
  has_repair_job-detect_once true threshold now t h gone = absurd (cc (h, gone))
  has_repair_job-detect_once false threshold now t h gone =
      IsCovered-unheld chunk p
        (process_all contexts key 0 (find_departure_candidates threshold now t.providers) t).1
        (process_all-IsCovered 0 (find_departure_candidates threshold now t.providers) t
          (held-IsCovered chunk p t h))
        gone
