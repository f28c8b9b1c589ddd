-- ===== src/Repair/Departure.antt =====
-- internal/repair/departure.go, with IsVettingChunk and DeleteVettingChunksOnDeparture of queue.go, on the
-- tables providers, chunk_assignments, repair_jobs and escrow_events of
-- migrations/001_initial_schema.sql. The callback that seizes the escrow is the one of
-- internal/payment/mock.go. An id and a time are numbers; which statements fail is an argument.
pub mod Chunks
pub mod Covered
pub mod Sealed
pub mod Once
pub mod Complete
use vyomanaut_v.Base.{
  ℕ, suc, ◌+◌, ◌-◌, Bool, true, false, not, ◌&&◌, ◌||◌, List, [], ◌∷◌, ◌++◌, Option, none, some,
  ltb, leb, ◌==◌, if◌then◌else◌,
}
use vyomanaut_v.Base.Int64.{half}
use vyomanaut_v.Base.Result.{Result, ok, err}
use vyomanaut_v.Scoring.Passes.{Status, pending_onboarding, vetting, active, departed}
use vyomanaut_v.Payment.Ledger.{
  EventType, deposit, release, seizure, reversal, charge, withdrawal, refund, Event, LedgerError,
  duplicate_idempotency_key, insert_failed, not_positive, insert_escrow_event,
}
use vyomanaut_v.Repair.Queue.{TriggerType, silent_departure, RepairJob, QueueError, enqueue_job}

pub data AssignmentStatus : Type 0 where
  assigned repairing pending_deletion deleted : AssignmentStatus

pub record Assignment : Type 0 where
  pub chunk_id : ℕ
  pub segment_id : ℕ
  pub provider_id : ℕ
  pub is_vetting_chunk : Bool
  pub status : AssignmentStatus
  pub deleted_at : Option ℕ

pub record Provider : Type 0 where
  pub provider_id : ℕ
  pub status : Status
  pub frozen : Bool
  pub departed_at : Option ℕ
  pub last_heartbeat_ts : Option ℕ

pub record Tables : Type 0 where
  pub providers : List Provider
  pub assignments : List Assignment
  pub jobs : List RepairJob
  pub events : List Event

pub data DepartureError : Type 0 where
  statement_failed provider_missing balance_overflow : DepartureError
  enqueue_failed : QueueError → DepartureError
  penalise_failed : LedgerError → DepartureError

-- Which statements fail; those of the loop over chunks by the number of the turn.
pub record Faults : Type 0 where
  pub mark : Bool
  pub vetting : Bool
  pub query : Bool
  pub check : ℕ → Bool
  pub retire : ℕ → Bool
  pub balance : Bool
  pub penalise : Bool

-- The profile's shard counts, the clock and the ids that the database gives to new jobs.
pub record Context : Type 0 where
  pub data_shards : ℕ
  pub total_shards : ℕ
  pub now : ℕ
  pub job_ids : ℕ → ℕ
  pub faults : Faults

abbrev pub is_assigned : AssignmentStatus → Bool
is_assigned assigned = true
is_assigned repairing = false
is_assigned pending_deletion = false
is_assigned deleted = false

abbrev pub is_of : ℕ → ℕ → Assignment → Bool
is_of chunk_id provider_id a = (a.chunk_id == chunk_id) && (a.provider_id == provider_id)

abbrev pub delete_assignment : ℕ → Assignment → Assignment
delete_assignment now a = record a { status = deleted; deleted_at = some now }

-- No row is no vetting chunk.
unfoldable pub is_vetting_row : ℕ → ℕ → List Assignment → Bool
is_vetting_row chunk_id provider_id [] = false
is_vetting_row chunk_id provider_id (a ∷ rows) =
    if is_of chunk_id provider_id a
    then a.is_vetting_chunk
    else is_vetting_row chunk_id provider_id rows

unfoldable pub delete_vetting_chunks : ℕ → ℕ → List Assignment → List Assignment
delete_vetting_chunks now provider_id [] = []
delete_vetting_chunks now provider_id (a ∷ rows) =
    let rest = delete_vetting_chunks now provider_id rows in
    if (a.provider_id == provider_id) && a.is_vetting_chunk
    then delete_assignment now a ∷ rest
    else a ∷ rest

-- The SELECT of the real chunks that a provider is assigned.
unfoldable pub real_chunks : ℕ → List Assignment → List Assignment
real_chunks provider_id [] = []
real_chunks provider_id (a ∷ rows) =
    let rest = real_chunks provider_id rows in
    if (a.provider_id == provider_id) && not a.is_vetting_chunk && is_assigned a.status
    then a ∷ rest
    else rest

unfoldable pub mark_deleted : ℕ → ℕ → ℕ → List Assignment → List Assignment
mark_deleted now chunk_id provider_id [] = []
mark_deleted now chunk_id provider_id (a ∷ rows) =
    let rest = mark_deleted now chunk_id provider_id rows in
    if is_of chunk_id provider_id a && is_assigned a.status
    then delete_assignment now a ∷ rest
    else a ∷ rest

-- No transaction spans the loop: what was written before an error stays.
unfoldable pub enqueue_chunks :
    Context → ℕ → TriggerType → ℕ → List Assignment → Tables → Option DepartureError × Tables
enqueue_chunks c provider_id trigger turn [] t = (none, t)
enqueue_chunks c provider_id trigger turn (a ∷ rest) t =
    if c.faults.check turn
    then (some statement_failed, t)
    else elim (is_vetting_row a.chunk_id provider_id t.assignments) [
      | true ↦ enqueue_chunks c provider_id trigger (suc turn) rest t
      | false ↦
          elim (enqueue_job c.data_shards c.total_shards (c.job_ids turn) c.now a.chunk_id
            a.segment_id (some provider_id) trigger (c.total_shards - 1) t.jobs) [
              | err reason ↦ (some (enqueue_failed reason), t)
              | ok jobs ↦ elim (c.faults.retire turn) [
                | true ↦ (some statement_failed, record t { jobs = jobs })
                | false ↦ enqueue_chunks c provider_id trigger (suc turn) rest (record t {
                  jobs = jobs;
                  assignments = mark_deleted c.now a.chunk_id provider_id t.assignments;
                })
              ]
            ]
    ]

unfoldable pub enqueue_repair_for_real_chunks :
    Context → ℕ → TriggerType → Tables → Option DepartureError × Tables
enqueue_repair_for_real_chunks c provider_id trigger t =
    if c.faults.query
    then (some statement_failed, t)
    else enqueue_chunks c provider_id trigger 0 (real_chunks provider_id t.assignments) t

-- The SUM, in the numbers of unbounded size that it has in the database: what it adds and what it takes.
abbrev pub credit : EventType → ℕ → ℕ
credit deposit amount = amount
credit reversal amount = amount
credit _ amount = 0

abbrev pub debit : EventType → ℕ → ℕ
debit release amount = amount
debit seizure amount = amount
debit _ amount = 0

unfoldable pub credits : ℕ → List Event → ℕ
credits provider_id [] = 0
credits provider_id (e ∷ events) =
    (if e.subject == provider_id then credit e.event_type e.amount_paise else 0)
    + credits provider_id events

unfoldable pub debits : ℕ → List Event → ℕ
debits provider_id [] = 0
debits provider_id (e ∷ events) =
    (if e.subject == provider_id then debit e.event_type e.amount_paise else 0)
    + debits provider_id events

-- A negative balance counts as none; a sum that is no int64 is an error of the scan.
unfoldable pub compute_sealed_balance : ℕ → List Event → Result DepartureError ℕ
compute_sealed_balance provider_id events =
    let balance = credits provider_id events - debits provider_id events in
    if leb half balance then err balance_overflow else ok balance

-- Penalise of the mock provider.
unfoldable pub penalise : Bool → ℕ → ℕ → ℕ → List Event → Result LedgerError (List Event)
penalise reachable provider_id amount key events =
    if not_positive amount
    then ok events
    else elim (insert_escrow_event reachable
        (record {
          subject = provider_id;
          event_type = seizure;
          amount_paise = amount;
          reference = none;
          idempotency_key = key;
        })
        events) [
          | ok next ↦ ok next
          | err duplicate_idempotency_key ↦ ok events
          | err (insert_failed reason) ↦ err (insert_failed reason)
        ]

unfoldable pub is_candidate_status : Status → Bool
is_candidate_status pending_onboarding = true
is_candidate_status vetting = true
is_candidate_status active = true
is_candidate_status departed = false

unfoldable pub is_silent : ℕ → ℕ → Option ℕ → Bool
is_silent threshold now none = false
is_silent threshold now (some ts) = ltb (ts + threshold) now

abbrev pub Candidate : Type 0
Candidate = ℕ × Status

unfoldable pub find_departure_candidates : ℕ → ℕ → List Provider → List Candidate
find_departure_candidates threshold now [] = []
find_departure_candidates threshold now (p ∷ rows) =
    let rest = find_departure_candidates threshold now rows in
    if is_candidate_status p.status && is_silent threshold now p.last_heartbeat_ts
    then (p.provider_id, p.status) ∷ rest
    else rest

unfoldable pub mark_departed : ℕ → ℕ → List Provider → List Provider
mark_departed now provider_id [] = []
mark_departed now provider_id (p ∷ rows) =
    let rest = mark_departed now provider_id rows in
    if p.provider_id == provider_id
    then record p { status = departed; frozen = true; departed_at = some now } ∷ rest
    else p ∷ rest

unfoldable pub has_provider : ℕ → List Provider → Bool
has_provider provider_id [] = false
has_provider provider_id (p ∷ rows) =
    if p.provider_id == provider_id then true else has_provider provider_id rows

-- The branch on the status that the provider had when it was detected.
unfoldable pub handle_chunks : Context → ℕ → Status → Tables → Option DepartureError × Tables
handle_chunks c provider_id active t =
    enqueue_repair_for_real_chunks c provider_id silent_departure t
handle_chunks c provider_id departed t =
    enqueue_repair_for_real_chunks c provider_id silent_departure t
handle_chunks c provider_id _ t =
    if c.faults.vetting
    then (some statement_failed, t)
    else (none, record t { assignments = delete_vetting_chunks c.now provider_id t.assignments })

unfoldable pub seize : Context → (ℕ → ℕ → ℕ) → ℕ → Tables → Option DepartureError × Tables
seize c seizure_key provider_id t =
    if c.faults.balance
    then (some statement_failed, t)
    else elim (compute_sealed_balance provider_id t.events) [
      | err reason ↦ (some reason, t)
      | ok balance ↦
          if ltb 0 balance
          then elim (penalise (not c.faults.penalise) provider_id balance
              (seizure_key provider_id c.now) t.events) [
                | err reason ↦ (some (penalise_failed reason), t)
                | ok events ↦ (none, record t { events = events })
              ]
          else (none, t)
    ]

unfoldable pub after_chunks :
    Context → (ℕ → ℕ → ℕ) → ℕ → Option DepartureError × Tables → Option DepartureError × Tables
after_chunks c seizure_key provider_id (some reason, t) = (some reason, t)
after_chunks c seizure_key provider_id (none, t) = seize c seizure_key provider_id t

unfoldable pub process_departure :
    Context → (ℕ → ℕ → ℕ) → Candidate → Tables → Option DepartureError × Tables
process_departure c seizure_key (provider_id, status) t =
    if c.faults.mark
    then (some statement_failed, t)
    else if has_provider provider_id t.providers
    then after_chunks c seizure_key provider_id (
        handle_chunks c provider_id status
          (record t { providers = mark_departed c.now provider_id t.providers }))
    else (some provider_missing, t)

-- The errors of the candidates, joined.
unfoldable pub process_all :
    (ℕ → Context) → (ℕ → ℕ → ℕ) → ℕ → List Candidate → Tables → List DepartureError × Tables
process_all contexts seizure_key turn [] t = ([], t)
process_all contexts seizure_key turn (candidate ∷ rest) t =
    let (failure, middle) = process_departure (contexts turn) seizure_key candidate t in
    let (failures, last) = process_all contexts seizure_key (suc turn) rest middle in
    (elim failure [ none ↦ failures | some reason ↦ reason ∷ failures ], last)

-- The first argument is whether the query for the candidates fails.
unfoldable pub detect_once :
    Bool → ℕ → ℕ → (ℕ → Context) → (ℕ → ℕ → ℕ) → Tables → List DepartureError × Tables
detect_once query_fails threshold now contexts seizure_key t =
    if query_fails
    then (statement_failed ∷ [], t)
    else process_all contexts seizure_key 0 (find_departure_candidates threshold now t.providers) t
