-- ===== src/Repair/Queue.antt =====
-- internal/repair/queue.go on the table repair_jobs of migrations/001_initial_schema.sql. A job's row
-- has the columns that the code reads or writes; a time is a number. The debug build's check of vetting
-- chunks is left out, and the other failures of a statement with it.
pub mod Next
pub mod Updates
pub mod Promotion
use vyomanaut_v.Base.{
  ℕ, ◌+◌, Bool, true, false, not, ◌&&◌, ◌||◌, List, [], ◌∷◌, ◌++◌, map, Option, none, some, ltb,
  ◌==◌, if◌then◌else◌, suc,
}
use vyomanaut_v.Base.Result.{Result, ok, err}

pub data Priority : Type 0 where
  emergency permanent_departure pre_warning : Priority

pub data TriggerType : Type 0 where
  silent_departure announced_departure threshold_warning emergency_floor : TriggerType

pub data Status : Type 0 where
  queued in_progress completed failed : Status

pub record RepairJob : Type 0 where
  pub job_id : ℕ
  pub chunk_id : ℕ
  pub segment_id : ℕ
  pub provider_id : Option ℕ
  pub trigger_type : TriggerType
  pub priority : Priority
  pub status : Status
  pub available_shard_count : ℕ
  pub created_at : ℕ
  pub started : Bool
  pub failure_reason : Option ℕ

pub data QueueError : Type 0 where
  shard_count_out_of_range duplicate_job no_rows not_started : QueueError

unfoldable pub priority_for_trigger : TriggerType → Priority
priority_for_trigger emergency_floor = emergency
priority_for_trigger silent_departure = permanent_departure
priority_for_trigger announced_departure = permanent_departure
priority_for_trigger threshold_warning = pre_warning

-- The order of the enum, which ORDER BY uses.
abbrev pub rank : Priority → ℕ
rank emergency = 0
rank permanent_departure = 1
rank pre_warning = 2

abbrev pub is_queued : Status → Bool
is_queued queued = true
is_queued in_progress = false
is_queued completed = false
is_queued failed = false

abbrev pub is_open : Status → Bool
is_open queued = true
is_open in_progress = true
is_open completed = false
is_open failed = false

-- The triggers apart from each other.
abbrev pub trigger_code : TriggerType → ℕ
trigger_code silent_departure = 0
trigger_code announced_departure = 1
trigger_code threshold_warning = 2
trigger_code emergency_floor = 3

abbrev pub is_null : Option ℕ → Bool
is_null none = true
is_null (some x) = false

-- The partial unique index on the chunk and the trigger of the open jobs without a provider.
unfoldable pub has_open_job : ℕ → TriggerType → List RepairJob → Bool
has_open_job chunk_id trigger_type [] = false
has_open_job chunk_id trigger_type (j ∷ jobs) =
    (j.chunk_id == chunk_id
      && trigger_code j.trigger_type == trigger_code trigger_type
      && is_null j.provider_id
      && is_open j.status)
    || has_open_job chunk_id trigger_type jobs

-- `job_id` and `now` are what the database fills in.
unfoldable pub enqueue_job :
    ℕ
    → ℕ
    → ℕ
    → ℕ
    → ℕ
    → ℕ
    → Option ℕ
    → TriggerType
    → ℕ
    → List RepairJob
    → Result QueueError (List RepairJob)
enqueue_job data_shards total_shards job_id now chunk_id segment_id provider_id trigger_type
      available_shard_count jobs =
    if ltb available_shard_count data_shards || ltb total_shards available_shard_count
    then err shard_count_out_of_range
    else if is_null provider_id && has_open_job chunk_id trigger_type jobs
    then err duplicate_job
    else ok (
        record {
          job_id = job_id;
          chunk_id = chunk_id;
          segment_id = segment_id;
          provider_id = provider_id;
          trigger_type = trigger_type;
          priority = priority_for_trigger trigger_type;
          status = queued;
          available_shard_count = available_shard_count;
          created_at = now;
          started = false;
          failure_reason = none;
        }
        ∷ jobs)

-- ORDER BY priority ASC, created_at ASC.
abbrev pub precedes : RepairJob → RepairJob → Bool
precedes a b =
    ltb (rank a.priority) (rank b.priority)
    || (rank a.priority == rank b.priority && ltb a.created_at b.created_at)

abbrev pub earlier : RepairJob → Option RepairJob → RepairJob
earlier j none = j
earlier j (some k) = if precedes k j then k else j

-- The SELECT of the first queued row.
unfoldable pub select_next : List RepairJob → Option RepairJob
select_next [] = none
select_next (j ∷ jobs) =
    let rest = select_next jobs in if is_queued j.status then some (earlier j rest) else rest

abbrev pub mark_in_progress : RepairJob → RepairJob
mark_in_progress j = record {
  job_id = j.job_id;
  chunk_id = j.chunk_id;
  segment_id = j.segment_id;
  provider_id = j.provider_id;
  trigger_type = j.trigger_type;
  priority = j.priority;
  status = in_progress;
  available_shard_count = j.available_shard_count;
  created_at = j.created_at;
  started = true;
  failure_reason = j.failure_reason;
}

-- The UPDATE of the rows with a job's id.
unfoldable pub update_job : ℕ → (RepairJob → RepairJob) → List RepairJob → List RepairJob
update_job job_id change [] = []
update_job job_id change (j ∷ jobs) =
    (if j.job_id == job_id then change j else j) ∷ update_job job_id change jobs

-- The job as it is returned, with the table after the transaction, once the row is selected.
abbrev pub dequeue_table : List RepairJob → Option RepairJob → Option RepairJob × List RepairJob
dequeue_table jobs none = (none, jobs)
dequeue_table jobs (some j) = (some j, update_job j.job_id mark_in_progress jobs)

unfoldable pub dequeue_next_job : List RepairJob → Option RepairJob × List RepairJob
dequeue_next_job jobs = dequeue_table jobs (select_next jobs)

-- A job of the pre-warning priority that has waited longer than the timeout is promoted.
abbrev pub is_pre_warning : Priority → Bool
is_pre_warning emergency = false
is_pre_warning permanent_departure = false
is_pre_warning pre_warning = true

abbrev pub is_stale : ℕ → ℕ → RepairJob → Bool
is_stale timeout now j =
    is_pre_warning j.priority && is_queued j.status && ltb (j.created_at + timeout) now

abbrev pub promoted : RepairJob → RepairJob
promoted j = record {
  job_id = j.job_id;
  chunk_id = j.chunk_id;
  segment_id = j.segment_id;
  provider_id = j.provider_id;
  trigger_type = j.trigger_type;
  priority = permanent_departure;
  status = j.status;
  available_shard_count = j.available_shard_count;
  created_at = j.created_at;
  started = j.started;
  failure_reason = j.failure_reason;
}

-- The table after the update, with the number of rows affected.
unfoldable pub promote_stale_pre_warning_jobs : ℕ → ℕ → List RepairJob → List RepairJob × ℕ
promote_stale_pre_warning_jobs timeout now [] = ([], 0)
promote_stale_pre_warning_jobs timeout now (j ∷ jobs) =
    let (rest, affected) = promote_stale_pre_warning_jobs timeout now jobs in
    if is_stale timeout now j then (promoted j ∷ rest, suc affected) else (j ∷ rest, affected)

-- The job with an id.
unfoldable pub find_job : ℕ → List RepairJob → Option RepairJob
find_job job_id [] = none
find_job job_id (j ∷ jobs) = if j.job_id == job_id then some j else find_job job_id jobs

-- The status and the reason that the code writes; an empty reason is `none`.
abbrev pub mark_complete : Bool → Option ℕ → RepairJob → RepairJob
mark_complete success reason j = record {
  job_id = j.job_id;
  chunk_id = j.chunk_id;
  segment_id = j.segment_id;
  provider_id = j.provider_id;
  trigger_type = j.trigger_type;
  priority = j.priority;
  status = if success then completed else failed;
  available_shard_count = j.available_shard_count;
  created_at = j.created_at;
  started = j.started;
  failure_reason = if success then none else reason;
}

-- A completion time needs a start time.
abbrev pub completion :
    ℕ → Bool → Option ℕ → List RepairJob → Option RepairJob → Result QueueError (List RepairJob)
completion job_id success reason jobs none = err no_rows
completion job_id success reason jobs (some j) =
    if j.started
    then ok (update_job job_id (mark_complete success reason) jobs)
    else err not_started

unfoldable pub mark_job_complete :
    ℕ → Bool → Option ℕ → List RepairJob → Result QueueError (List RepairJob)
mark_job_complete job_id success reason jobs =
    completion job_id success reason jobs (find_job job_id jobs)
