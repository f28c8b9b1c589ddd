-- ===== src/Repair/Tests/Departures.antt =====
-- Witnesses of the departures and the replacements of internal/repair: provider 7 is silent and holds two
-- shards, and a statement fails before the second is queued.
use vyomanaut_v.Base.{
  ◌<◌, ℕ, ◌+◌, ◌≡◌, refl, true, false, List, [], ◌∷◌, none, some, ◌==◌, All, arith,
}
use vyomanaut_v.Base.Result.{ok}
use vyomanaut_v.Scoring.Passes.{active}
use vyomanaut_v.Payment.Ledger
use vyomanaut_v.Payment.Ledger.{deposit, Event}
use vyomanaut_v.Repair.Queue.{silent_departure, enqueue_job}
use vyomanaut_v.Repair.Departure.{
  assigned, Assignment, Provider, Tables, Context, is_vetting_row, real_chunks, detect_once,
  process_departure, process_all, is_candidate_status, is_silent, mark_departed, handle_chunks,
  enqueue_chunks, mark_deleted, after_chunks, has_provider, find_departure_candidates, seize,
  compute_sealed_balance, enqueue_repair_for_real_chunks,
}
use vyomanaut_v.Repair.Departure.Covered.{is_held, has_repair_job}
use vyomanaut_v.Repair.Departure.Chunks.{has_repair_job-detect_once}
use vyomanaut_v.Repair.Departure.Complete.{no_faults, calm, AreFound, enqueue_repair_completes}
use vyomanaut_v.Repair.Departure.Sealed.{IsSeized, seize_empties}
use vyomanaut_v.Payment.Ledger.Totals.{total_of, paid_in, paid_out}
use vyomanaut_v.Repair.Departure.Once.{IsNot, process_departure_once}
use vyomanaut_v.Repair.Assignment
use vyomanaut_v.Repair.Assignment.{
  ProviderRow, Holding, AttemptFaults, SelectionError, is_eligible, eligible_rows,
  draw_two_active_candidates, place, order_candidates_by_score_desc, asn_within_cap, count_on_asn,
  try_candidates, attempts, select_replacement_provider,
}
use vyomanaut_v.Repair.Assignment.Rows.{MeetsTerms}
use vyomanaut_v.Repair.Assignment.Eligible.{
  IsReplacement, select_replacement_provider-IsReplacement,
}

abbrev shard : ℕ → Assignment
shard chunk = record {
  chunk_id = chunk;
  segment_id = 20;
  provider_id = 7;
  is_vetting_chunk = false;
  status = assigned;
  deleted_at = none;
}

abbrev silent : Provider
silent = record {
  provider_id = 7;
  status = active;
  frozen = false;
  departed_at = none;
  last_heartbeat_ts = some 5;
}

abbrev deposited : Event
deposited = record {
  subject = 7;
  event_type = deposit;
  amount_paise = 900;
  reference = none;
  idempotency_key = 1;
}

abbrev tables : Tables
tables = record {
  providers = silent ∷ [];
  assignments = shard 10 ∷ shard 11 ∷ [];
  jobs = [];
  events = deposited ∷ [];
}

abbrev context : Context
context = record {
  data_shards = 3;
  total_shards = 5;
  now = 100;
  job_ids = λ turn. turn;
  faults = record no_faults { check = λ turn. turn == 1 };
}

abbrev seizure_key : ℕ → ℕ → ℕ
seizure_key provider_id departed_at = 1000 + provider_id

held_before : is_held 11 7 tables.assignments ≡ true
unfolding is_held
held_before = refl

held_first : is_held 10 7 tables.assignments ≡ true
unfolding is_held
held_first = refl

-- The check of the second chunk fails; the first one is retired by then.
gone_first :
    is_held 10 7 (detect_once false 50 100 (λ turn. context) seizure_key tables).1.assignments
    ≡ false
unfolding is_held detect_once process_all find_departure_candidates is_candidate_status is_silent
    process_departure has_provider mark_departed handle_chunks enqueue_repair_for_real_chunks
    real_chunks enqueue_chunks is_vetting_row enqueue_job mark_deleted after_chunks
gone_first = refl

has_repair_job-detect_once_example :
    has_repair_job 10 7 (detect_once false 50 100 (λ turn. context) seizure_key tables).1.jobs
    ≡ true
has_repair_job-detect_once_example =
    has_repair_job-detect_once (λ turn. context) seizure_key 10 7 false 50 100 tables held_first
      gone_first

known : has_provider 7 tables.providers ≡ true
unfolding has_provider
known = refl

process_departure_once_example : All (IsNot 7) (
    find_departure_candidates 50 200
      (process_departure context seizure_key (7, active) tables).1.providers)
process_departure_once_example =
    process_departure_once context seizure_key 7 active tables 50 200 refl known

balance : paid_in 7 tables.events ≡ 900 + paid_out 7 tables.events
unfolding total_of
balance = refl

fresh_key : Ledger.has_key 1007 tables.events ≡ false
unfolding Ledger.has_key
fresh_key = refl

seize_empties_example :
    (after : List Event) × (seize context seizure_key 7 tables
      ≡ (none, record tables { events = after }))
    × IsSeized 7 900 tables.events after
    × (compute_sealed_balance 7 after ≡ ok 0)
seize_empties_example =
    seize_empties context seizure_key 7 900 tables refl refl balance (omega arith) fresh_key

found_rows : AreFound 7 tables.assignments
unfolding real_chunks is_vetting_row
found_rows = (refl, (refl, tt))

enqueue_repair_completes_example :
    let r = enqueue_repair_for_real_chunks (calm context) 7 silent_departure tables in
    (r.0 ≡ none) × (is_held 11 7 r.1.assignments ≡ false) × (has_repair_job 11 7 r.1.jobs ≡ true)
enqueue_repair_completes_example =
    enqueue_repair_completes context 7 silent_departure (omega arith) 11 tables found_rows
      held_before

abbrev rows : List ProviderRow
rows =
    record {
      provider_id = 8;
      asn = 64500;
      status = active;
      razorpay_linked_account_id = some 1;
      razorpay_cooling_until = some 50;
    }
    ∷ record {
      provider_id = 9;
      asn = 64501;
      status = active;
      razorpay_linked_account_id = none;
      razorpay_cooling_until = some 50;
    }
    ∷ []

abbrev reached : ℕ → AttemptFaults
reached attempt = record { draw = false; scores = false; cap = λ position. false }

abbrev in_order : ℕ → List Assignment.Candidate → List Assignment.Candidate
in_order attempt l = l

chosen_provider : select_replacement_provider rows [] 20 1 reached in_order 100 [] (7 ∷ []) ≡ ok 8
unfolding select_replacement_provider attempts draw_two_active_candidates eligible_rows is_eligible
    order_candidates_by_score_desc place try_candidates asn_within_cap count_on_asn
chosen_provider = refl

select_replacement_provider-IsReplacement_example :
    (chosen : IsReplacement rows [] 20 1 100 (7 ∷ []) 8) × MeetsTerms 100
      (7 ∷ [])
      chosen.from_row.row
    × (count_on_asn rows 20 chosen.candidate.asn [] < 1)
select_replacement_provider-IsReplacement_example =
    select_replacement_provider-IsReplacement rows [] 20 1 reached in_order 100 []
      (λ attempt l c i. i) (7 ∷ []) chosen_provider
