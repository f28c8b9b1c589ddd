-- ===== src/Repair/Tests.antt =====
-- Runs of the repair queue at which its theorems apply: a warning that waits since time 5, and two
-- departures.
mod Departures
use vyomanaut_v.Base.{ℕ, ◌+◌, ◌≡◌, refl, false, List, [], ◌∷◌, none, some, All, arith}
use vyomanaut_v.Base.Result.{ok}
use vyomanaut_v.Repair.Queue.{
  RepairJob, permanent_departure, pre_warning, silent_departure, threshold_warning, queued,
  select_next, update_job, dequeue_next_job, enqueue_job, priority_for_trigger,
  promote_stale_pre_warning_jobs, mark_in_progress,
}
use vyomanaut_v.Repair.Queue.Next.{Waits, IsFirst, waiting, dequeue_next_job-IsFirst}
use vyomanaut_v.Repair.Queue.Next.{dequeue_next_job_progress}
use vyomanaut_v.Repair.Queue.Promotion.{
  Promotes, IsOverdue, promote_stale_pre_warning_jobs-Promotes,
}
use vyomanaut_v.Repair.Queue.Updates.{IsRow, start, next, enqueue, promote, Steps-rows}
use vyomanaut_v.Base.{◌⊎◌}

abbrev warning : RepairJob
warning = record {
  job_id = 1;
  chunk_id = 10;
  segment_id = 20;
  provider_id = none;
  trigger_type = threshold_warning;
  priority = pre_warning;
  status = queued;
  available_shard_count = 4;
  created_at = 5;
  started = false;
  failure_reason = none;
}

abbrev departure : ℕ → ℕ → RepairJob
departure job_id created_at = record {
  job_id = job_id;
  chunk_id = 11;
  segment_id = 20;
  provider_id = some 7;
  trigger_type = silent_departure;
  priority = permanent_departure;
  status = queued;
  available_shard_count = 4;
  created_at = created_at;
  started = false;
  failure_reason = none;
}

abbrev jobs : List RepairJob
jobs = warning ∷ departure 2 9 ∷ departure 3 8 ∷ []

abbrev jobs_after : List RepairJob
jobs_after = warning ∷ departure 2 9 ∷ mark_in_progress (departure 3 8) ∷ []

jobs_after-made : dequeue_next_job jobs ≡ (some (departure 3 8), jobs_after)
unfolding dequeue_next_job select_next update_job
jobs_after-made = refl

dequeue_next_job-IsFirst_example :
    Waits (departure 3 8) jobs
    × IsFirst (departure 3 8) jobs
    × (waiting jobs ≡ 1 + waiting jobs_after)
dequeue_next_job-IsFirst_example =
    dequeue_next_job-IsFirst jobs jobs_after (departure 3 8)
      (((λ e. omega arith), ((λ e. omega arith), tt)), (((λ e. omega arith), tt), (tt, tt)))
      jobs_after-made

dequeue_next_job_progress_example :
    ((j : RepairJob) × (after : List RepairJob) × (dequeue_next_job jobs ≡ (some j, after))
      × Waits j jobs)
    ⊎ ((dequeue_next_job jobs ≡ (none, jobs)) × (waiting jobs ≡ 0))
dequeue_next_job_progress_example = dequeue_next_job_progress jobs

abbrev enqueued : List RepairJob
enqueued =
    record {
      job_id = 4;
      chunk_id = 12;
      segment_id = 20;
      provider_id = some 7;
      trigger_type = silent_departure;
      priority = permanent_departure;
      status = queued;
      available_shard_count = 3;
      created_at = 30;
      started = false;
      failure_reason = none;
    }
    ∷ []

enqueued-made : enqueue_job 3 5 4 30 12 20 (some 7) silent_departure 3 [] ≡ ok enqueued
unfolding enqueue_job priority_for_trigger
enqueued-made = refl

Steps-rows_example : All (IsRow 3 5) (promote_stale_pre_warning_jobs 2 40 enqueued).0
Steps-rows_example =
    Steps-rows 3 5 [] (promote_stale_pre_warning_jobs 2 40 enqueued).0
      (next (next start (enqueue 4 30 12 20 (some 7) silent_departure 3 enqueued-made))
        (promote 2 40))
      tt

promote_stale_pre_warning_jobs-Promotes_example :
    Promotes 10 40 jobs
      (promote_stale_pre_warning_jobs 10 40 jobs).0
      (promote_stale_pre_warning_jobs 10 40 jobs).1
    × All (λ k. ¬ IsOverdue 10 40 k) (promote_stale_pre_warning_jobs 10 40 jobs).0
promote_stale_pre_warning_jobs-Promotes_example = promote_stale_pre_warning_jobs-Promotes 10 40 jobs
