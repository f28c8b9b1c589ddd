-- ===== src/Repair/Queue/Updates.antt =====
-- What every operation of the queue keeps (queue.go).
use vyomanaut_v.Base.{
  ℕ, ◌+◌, ◌≤◌, ◌≡◌, refl, sym, ap, ◌∙◌, Bool, true, false, ◌&&◌, ◌||◌, List, [], ◌∷◌, Option, none,
  some, ltb, ◌==◌, if◌then◌else◌, All, arith, Bool-cases, inl, inr, subst,
}
use vyomanaut_v.Base.Result.{Result, ok, err, ok-injective}
use vyomanaut_v.Repair.Queue.{
  Priority, emergency, permanent_departure, pre_warning, TriggerType, silent_departure,
  announced_departure, threshold_warning, emergency_floor, RepairJob, is_queued, is_pre_warning,
  is_null, has_open_job, priority_for_trigger, QueueError, enqueue_job, update_job,
  mark_in_progress, mark_complete, dequeue_next_job, dequeue_table, select_next, find_job,
  completion, mark_job_complete, not_started, is_stale, promote_stale_pre_warning_jobs,
}

-- The constraint repair_jobs_priority_matches_trigger, with the one on the shard count.
pub data Matches : TriggerType → Priority → Type 0 where
  floor_emergency : Matches emergency_floor emergency
  silent_permanent : Matches silent_departure permanent_departure
  announced_permanent : Matches announced_departure permanent_departure
  warning_pre_warning : Matches threshold_warning pre_warning
  warning_permanent : Matches threshold_warning permanent_departure

abbrev pub IsRow : ℕ → ℕ → RepairJob → Type 0
IsRow data_shards total_shards j =
    Matches j.trigger_type j.priority
    × (data_shards ≤ j.available_shard_count)
    × (j.available_shard_count ≤ total_shards)

priority_for_trigger-Matches : (t : TriggerType) → Matches t (priority_for_trigger t)
unfolding priority_for_trigger
priority_for_trigger-Matches silent_departure = silent_permanent
priority_for_trigger-Matches announced_departure = announced_permanent
priority_for_trigger-Matches threshold_warning = warning_pre_warning
priority_for_trigger-Matches emergency_floor = floor_emergency

-- The operations of the queue, each with the table before and after.
pub data Step (data_shards total_shards : ℕ) (jobs : List RepairJob) : List RepairJob → Type 0 where
  enqueue :
      (job_id now chunk_id segment_id : ℕ) (provider_id : Option ℕ) (t : TriggerType)
      (available : ℕ) {after : List RepairJob}
      → enqueue_job data_shards total_shards job_id now chunk_id segment_id provider_id t available
          jobs
        ≡ ok after
      → Step data_shards total_shards jobs after
  dequeue : Step data_shards total_shards jobs (dequeue_next_job jobs).1
  complete :
      (job_id : ℕ) (success : Bool) (reason : Option ℕ) {after : List RepairJob}
      → mark_job_complete job_id success reason jobs ≡ ok after
      → Step data_shards total_shards jobs after
  promote :
      (timeout now : ℕ)
      → Step data_shards total_shards jobs (promote_stale_pre_warning_jobs timeout now jobs).0

pub data Steps (data_shards total_shards : ℕ) (jobs : List RepairJob)
    : List RepairJob → Type 0 where
  start : Steps data_shards total_shards jobs jobs
  next :
      {middle after : List RepairJob}
      → Steps data_shards total_shards jobs middle
      → Step data_shards total_shards middle after
      → Steps data_shards total_shards jobs after

stale_priority :
    (timeout now : ℕ) (j : RepairJob)
    → is_stale timeout now j ≡ true
    → is_pre_warning j.priority ≡ true
stale_priority timeout now j e =
    numbers (is_pre_warning j.priority) (is_queued j.status) (ltb (j.created_at + timeout) now) e
  where
    numbers : (a b c : Bool) → (a && b && c) ≡ true → a ≡ true
    numbers true b c e = refl
    numbers false true c e = cc
    numbers false false c e = cc

warning_promoted :
    {t : TriggerType} {p : Priority}
    → Matches t p
    → is_pre_warning p ≡ true
    → Matches t permanent_departure
warning_promoted floor_emergency e = cc
warning_promoted silent_permanent e = silent_permanent
warning_promoted announced_permanent e = announced_permanent
warning_promoted warning_pre_warning e = warning_permanent
warning_promoted warning_permanent e = warning_permanent

guarded :
    (x y : Bool) (f g : QueueError) {v w : List RepairJob}
    → ◌≡◌ {A = Result QueueError (List RepairJob)}
        (if x then err f else if y then err g else ok v)
        (ok w)
    → (x ≡ false) × (v ≡ w)
guarded true y f g e = cc
guarded false true f g e = cc
guarded false false f g e = (refl, ok-injective e)

module _ (d n : ℕ) where
  enqueue_rows :
      (job_id now chunk_id segment_id : ℕ) (provider_id : Option ℕ) (t : TriggerType)
      (available : ℕ) (jobs after : List RepairJob)
      → enqueue_job d n job_id now chunk_id segment_id provider_id t available jobs ≡ ok after
      → All (IsRow d n) jobs
      → All (IsRow d n) after
  unfolding enqueue_job
  enqueue_rows job_id now chunk_id segment_id provider_id t available jobs after e h =
      let (fits, same) =
        guarded (ltb available d || ltb n available)
          (is_null provider_id && has_open_job chunk_id t jobs) _ _ e in
      subst (All (IsRow d n)) same
        ((priority_for_trigger-Matches t, ground (arith, fits), ground (arith, fits)), h)

  update_rows :
      (i : ℕ) (change : RepairJob → RepairJob) (jobs : List RepairJob)
      → ((j : RepairJob) → IsRow d n j → IsRow d n (change j))
      → All (IsRow d n) jobs
      → All (IsRow d n) (update_job i change jobs)
  unfolding update_job
  update_rows i change [] keeps h = tt
  update_rows i change (j ∷ jobs) keeps h =
      (either (j.job_id == i), update_rows i change jobs keeps h.1)
    where
      either : (b : Bool) → IsRow d n (if b then change j else j)
      either true = keeps j h.0
      either false = h.0

  dequeue_rows :
      (jobs : List RepairJob) (o : Option RepairJob)
      → All (IsRow d n) jobs
      → All (IsRow d n) (dequeue_table jobs o).1
  dequeue_rows jobs none h = h
  dequeue_rows jobs (some j) h = update_rows j.job_id mark_in_progress jobs (λ k r. r) h

  complete_rows :
      (job_id : ℕ) (success : Bool) (reason : Option ℕ) (jobs after : List RepairJob)
      → mark_job_complete job_id success reason jobs ≡ ok after
      → All (IsRow d n) jobs
      → All (IsRow d n) after
  unfolding mark_job_complete
  complete_rows job_id success reason jobs after e h = from (find_job job_id jobs) e
    where
      from :
          (o : Option RepairJob)
          → completion job_id success reason jobs o ≡ ok after
          → All (IsRow d n) after
      from none e = cc
      from (some j) e = elim (Bool-cases j.started) [
        | inl x ↦
            subst (All (IsRow d n))
              (ok-injective (
                sym (
                  ap
                    (λ (b : Bool).
                      if b
                      then ok (update_job job_id (mark_complete success reason) jobs)
                      else err not_started)
                    x)
                ∙ e))
              (update_rows job_id (mark_complete success reason) jobs (λ k r. r) h)
        | inr x ↦ cc
      ]

  promote_rows :
      (timeout now : ℕ) (jobs : List RepairJob)
      → All (IsRow d n) jobs
      → All (IsRow d n) (promote_stale_pre_warning_jobs timeout now jobs).0
  unfolding promote_stale_pre_warning_jobs
  promote_rows timeout now [] h = tt
  promote_rows timeout now (j ∷ jobs) h = elim (Bool-cases (is_stale timeout now j)) [
    | inl e ↦ rw (e) (
      (warning_promoted h.0.0 (stale_priority timeout now j e), h.0.1, h.0.2),
      promote_rows timeout now jobs h.1,
    )
    | inr e ↦ rw (e) (h.0, promote_rows timeout now jobs h.1)
  ]

  Step-rows :
      {jobs after : List RepairJob}
      → Step d n jobs after
      → All (IsRow d n) jobs
      → All (IsRow d n) after
  Step-rows (enqueue i now c s p t a e) h = enqueue_rows i now c s p t a _ _ e h
  Step-rows {jobs} dequeue h = unfold dequeue_next_job in dequeue_rows jobs (select_next jobs) h
  Step-rows (complete i success reason e) h = complete_rows i success reason _ _ e h
  Step-rows {jobs} (promote timeout now) h = promote_rows timeout now jobs h

-- Whatever sequence of operations the queue goes through, every row keeps the constraints of the table:
-- the priority matches the trigger, and the count of available shards is between the two bounds.
pub Steps-rows :
    (data_shards total_shards : ℕ) (jobs after : List RepairJob)
    → Steps data_shards total_shards jobs after
    → All (IsRow data_shards total_shards) jobs
    → All (IsRow data_shards total_shards) after
Steps-rows d n jobs _ start h = h
Steps-rows d n jobs _ (next steps step) h = Step-rows d n step (Steps-rows d n jobs _ steps h)
