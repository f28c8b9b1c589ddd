-- ===== src/Repair/Queue/Promotion.antt =====
-- What a promotion does to the jobs of the queue (queue.go).
use vyomanaut_v.Base.{
  ℕ, suc, ◌+◌, ◌<◌, ◌≡◌, refl, Bool, true, false, ◌&&◌, List, [], ◌∷◌, ltb, ltb→lt, lt→ltb, All,
  Bool-cases, inl, inr,
}
use vyomanaut_v.Repair.Queue.{
  Priority, emergency, permanent_departure, pre_warning, Status, queued, in_progress, completed,
  failed, RepairJob, is_queued, is_pre_warning, is_stale, promote_stale_pre_warning_jobs,
}

-- A job that waits with the lowest priority, and has for longer than the timeout.
abbrev pub IsOverdue : ℕ → ℕ → RepairJob → Type 0
IsOverdue timeout now j =
    (j.priority ≡ pre_warning) × (j.status ≡ queued) × (j.created_at + timeout < now)

-- One job before and after: the priority is PERMANENT_DEPARTURE, all else is as it was.
pub record IsRaised (before after : RepairJob) : Type 0 where
  pub raised : after.priority ≡ permanent_departure
  pub same_job : after.job_id ≡ before.job_id
  pub same_chunk : after.chunk_id ≡ before.chunk_id
  pub same_segment : after.segment_id ≡ before.segment_id
  pub same_provider : after.provider_id ≡ before.provider_id
  pub same_trigger : after.trigger_type ≡ before.trigger_type
  pub same_status : after.status ≡ before.status
  pub same_count : after.available_shard_count ≡ before.available_shard_count
  pub same_created : after.created_at ≡ before.created_at
  pub same_started : after.started ≡ before.started
  pub same_reason : after.failure_reason ≡ before.failure_reason

-- The jobs before and after, one by one, with the number of those that were overdue.
pub data Promotes (timeout now : ℕ) : List RepairJob → List RepairJob → ℕ → Type 0 where
  none_left : Promotes timeout now [] [] 0
  raises :
      {j k : RepairJob} {jobs after : List RepairJob} {n : ℕ}
      → IsOverdue timeout now j
      → IsRaised j k
      → Promotes timeout now jobs after n
      → Promotes timeout now (j ∷ jobs) (k ∷ after) (suc n)
  keeps :
      {j : RepairJob} {jobs after : List RepairJob} {n : ℕ}
      → ¬ IsOverdue timeout now j
      → Promotes timeout now jobs after n
      → Promotes timeout now (j ∷ jobs) (j ∷ after) n

pre_warning_priority : (p : Priority) → is_pre_warning p ≡ true → p ≡ pre_warning
pre_warning_priority emergency h = cc
pre_warning_priority permanent_departure h = cc
pre_warning_priority pre_warning h = refl

queued_status : (s : Status) → is_queued s ≡ true → s ≡ queued
queued_status queued h = refl
queued_status in_progress h = cc
queued_status completed h = cc
queued_status failed h = cc

all_three : (a b c : Bool) → (a && b && c) ≡ true → (a ≡ true) × (b ≡ true) × (c ≡ true)
all_three true true c h = (refl, refl, h)
all_three true false c h = cc
all_three false true c h = cc
all_three false false c h = cc

stale-IsOverdue :
    (timeout now : ℕ) (j : RepairJob) → is_stale timeout now j ≡ true → IsOverdue timeout now j
stale-IsOverdue timeout now j h =
    let (lowest, waits, old) =
      all_three (is_pre_warning j.priority) (is_queued j.status) (ltb (j.created_at + timeout) now)
        h in
    (
      pre_warning_priority j.priority lowest,
      queued_status j.status waits,
      ltb→lt (j.created_at + timeout) now old,
    )

IsOverdue-stale :
    (timeout now : ℕ) (j : RepairJob) → IsOverdue timeout now j → is_stale timeout now j ≡ true
IsOverdue-stale timeout now j (lowest, waits, old) =
    rw (lowest, waits) (lt→ltb (j.created_at + timeout) now old)

Promotes-raised :
    (timeout now : ℕ) {jobs after : List RepairJob} {n : ℕ}
    → Promotes timeout now jobs after n
    → All (λ k. ¬ IsOverdue timeout now k) after
Promotes-raised timeout now none_left = tt
Promotes-raised timeout now (raises overdue raised rest) =
    (λ again. cc (raised.raised, again.0), Promotes-raised timeout now rest)
Promotes-raised timeout now (keeps fresh rest) = (fresh, Promotes-raised timeout now rest)

goes_through :
    (timeout now : ℕ) (jobs : List RepairJob)
    → Promotes timeout now jobs
        (promote_stale_pre_warning_jobs timeout now jobs).0
        (promote_stale_pre_warning_jobs timeout now jobs).1
unfolding promote_stale_pre_warning_jobs
goes_through timeout now [] = none_left
goes_through timeout now (j ∷ jobs) =
    let rest = goes_through timeout now jobs in
    elim (Bool-cases (is_stale timeout now j)) [
      | inl e ↦ rw e (
          raises (stale-IsOverdue timeout now j e)
            (record {
              raised = refl;
              same_job = refl;
              same_chunk = refl;
              same_segment = refl;
              same_provider = refl;
              same_trigger = refl;
              same_status = refl;
              same_count = refl;
              same_created = refl;
              same_started = refl;
              same_reason = refl;
            })
            rest)
      | inr e ↦ rw e (keeps (λ overdue. cc (IsOverdue-stale timeout now j overdue, e)) rest)
    ]

-- A promotion goes through the jobs one by one: exactly those that wait with the priority PRE_WARNING and
-- were created longer ago than the timeout get the priority PERMANENT_DEPARTURE, with all their other
-- columns as they were; every other job stays as it is, none is added or lost, and the number of rows
-- affected is the number of jobs that were raised. No job afterwards is overdue.
pub promote_stale_pre_warning_jobs-Promotes :
    (timeout now : ℕ) (jobs : List RepairJob)
    → Promotes timeout now jobs
        (promote_stale_pre_warning_jobs timeout now jobs).0
        (promote_stale_pre_warning_jobs timeout now jobs).1
      × All (λ k. ¬ IsOverdue timeout now k) (promote_stale_pre_warning_jobs timeout now jobs).0
promote_stale_pre_warning_jobs-Promotes timeout now jobs =
    let all = goes_through timeout now jobs in (all, Promotes-raised timeout now all)
