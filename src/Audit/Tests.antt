-- ===== src/Audit/Tests.antt =====
-- Runs and witnesses of internal/audit.
use vyomanaut_v.Base.{
  ℕ, ◌≡◌, ◌≢◌, refl, true, false, [], ◌∷◌, none, ◌==◌, if◌then◌else◌, replicate, arith,
}
use vyomanaut_v.Base.Result.{ok, err}
use vyomanaut_v.Base.Members.{In, here}
use vyomanaut_v.Audit.Secret.{
  Answer, secret, missing, secret_not_found, Cache, new_cluster_secret_cache, scan_forward,
  fetch_base, rotate, probe_next, after_base, base_version, load, current_secret,
  secret_for_version,
}
use vyomanaut_v.Audit.Secret.Overlap.{IsSound, IsLoaded, load-IsLoaded, current_secret_stays_valid}
use vyomanaut_v.Audit.Signing.{
  Signed, IsSized, signed_input, fail_input, response_input-injective, fail_input-response_input,
}
use vyomanaut_v.Audit.Receipts.{
  audit_pass, ReceiptFields, Receipt, Tables, replay_detected, check_violated, validate,
  write_receipt_phase1, update_where, any_row, is_pending, awaits_response,
  write_receipt_record_response, is_consistent, write_receipt_phase2, pending_receipt, respond,
  finish,
}
use vyomanaut_v.Audit.Receipts.Steps.{
  Step, Steps, start, next, dispatch, answer, conclude, no_nonces,
}
use vyomanaut_v.Audit.Receipts.Steps
use vyomanaut_v.Audit.Receipts.Final.{final_receipt_stays, replay_refused, Steps-IsSound}

-- Versions 3 and 4 are there, the ones before are pruned.
abbrev manager : ℕ → Answer
manager v = if v == 3 then secret (30 ∷ []) else if v == 4 then secret (40 ∷ []) else missing

abbrev rotated : Cache
rotated = record {
  current_version = 4;
  current_secret = 40 ∷ [];
  previous_version = 3;
  previous_secret = 30 ∷ [];
  overlap_expires_at = 86400000000100;
  last_loaded_at = 100;
}

cold_start : load manager 100 new_cluster_secret_cache ≡ ok rotated
unfolding load after_base probe_next rotate fetch_base scan_forward base_version
cold_start = refl

abbrev one_version : Cache
one_version = record {
  current_version = 3;
  current_secret = 30 ∷ [];
  previous_version = 0;
  previous_secret = [];
  overlap_expires_at = 0;
  last_loaded_at = 50;
}

rotation : load manager 100 one_version ≡ ok rotated
unfolding load after_base probe_next rotate fetch_base scan_forward base_version
rotation = refl

fresh-IsSound : IsSound new_cluster_secret_cache
fresh-IsSound = record {
  is_byte = omega arith;
  in_order = λ h. absurd (omega arith);
  none_yet = λ h. refl;
}

one_version-IsSound : IsSound one_version
one_version-IsSound = record {
  is_byte = omega arith;
  in_order = λ h. omega arith;
  none_yet = λ h. absurd (omega arith);
}

load-IsLoaded_example : IsLoaded manager new_cluster_secret_cache rotated
load-IsLoaded_example =
    load-IsLoaded manager 100 new_cluster_secret_cache rotated refl fresh-IsSound cold_start

issues : current_secret 60 one_version ≡ ok (30 ∷ [], 3)
unfolding current_secret
issues = refl

current_secret_stays_valid_example : secret_for_version 5000 rotated 3 ≡ ok (30 ∷ [])
current_secret_stays_valid_example =
    current_secret_stays_valid manager 60 100 5000 one_version rotated one_version-IsSound issues
      refl rotation (omega arith)

superseded : secret_for_version 86400000000100 rotated 3 ≡ err secret_not_found
unfolding secret_for_version
superseded = refl

abbrev report : Signed
report = record {
  response_hash = replicate 32 1;
  nonce = 4 ∷ replicate 32 2;
  ts = 1700000000000;
  provider_id = replicate 16 3;
}

report-IsSized : IsSized report
report-IsSized = record {
  hash_length = refl;
  nonce_length = refl;
  ts_is_word = omega arith;
  id_length = refl;
}

response_input-injective_example :
    (report.response_hash ≡ report.response_hash)
    × (report.nonce ≡ report.nonce)
    × (report.ts ≡ report.ts)
    × (report.provider_id ≡ report.provider_id)
response_input-injective_example =
    response_input-injective report report report-IsSized report-IsSized refl

fail_input-response_input_example :
    fail_input 1 (4 ∷ replicate 32 2) 1700000000000 (replicate 16 3) ≢ signed_input report
fail_input-response_input_example =
    fail_input-response_input report 1 (4 ∷ replicate 32 2) 1700000000000 (replicate 16 3)
      report-IsSized refl refl

abbrev challenge : ReceiptFields
challenge = record {
  chunk_id = replicate 32 9;
  file_id = none;
  provider_id = 5;
  challenge_nonce = 4 ∷ replicate 32 2;
  server_challenge_ts = 1700;
  address_was_stale = false;
}

abbrev empty_tables : Tables
empty_tables = record { nonces = []; receipts = [] }

abbrev sent : Tables
sent = record {
  nonces = challenge.challenge_nonce ∷ [];
  receipts = pending_receipt 1 challenge ∷ [];
}

abbrev answered : Receipt
answered = respond (replicate 32 6) (replicate 64 7) 20 false (pending_receipt 1 challenge)

abbrev passed : Receipt
passed = finish audit_pass (replicate 64 8) 1710 answered

abbrev concluded : Tables
concluded = record { nonces = challenge.challenge_nonce ∷ []; receipts = passed ∷ [] }

dispatched : write_receipt_phase1 1 challenge empty_tables ≡ ok sent
unfolding write_receipt_phase1 validate
dispatched = refl

responded :
    write_receipt_record_response 1 (replicate 32 6) (replicate 64 7) 20 false sent
    ≡ ok (record { nonces = challenge.challenge_nonce ∷ []; receipts = answered ∷ [] })
unfolding write_receipt_record_response any_row update_where awaits_response is_pending
responded = refl

-- A result without an answer violates the constraint of the table.
passed_without_answer :
    write_receipt_phase2 1 audit_pass (replicate 64 8) 1710 sent ≡ err check_violated
unfolding write_receipt_phase2 any_row is_pending is_consistent
passed_without_answer = refl

adjudicated :
    write_receipt_phase2 1 audit_pass
      (replicate 64 8)
      1710
      (record { nonces = challenge.challenge_nonce ∷ []; receipts = answered ∷ [] })
    ≡ ok concluded
unfolding write_receipt_phase2 any_row update_where is_pending is_consistent
adjudicated = refl

run : Steps empty_tables concluded
run =
    next
      (next (next start (dispatch 1 challenge dispatched))
        (answer 1 (replicate 32 6) (replicate 64 7) 20 false responded))
      (conclude 1 audit_pass (replicate 64 8) 1710 adjudicated)

empty-IsSound : Steps.IsSound empty_tables
empty-IsSound = record { rows = tt; guarded = refl; distinct = no_nonces }

Steps-IsSound_example : Steps.IsSound concluded
Steps-IsSound_example = Steps-IsSound run empty-IsSound

abbrev second_challenge : ReceiptFields
second_challenge = record challenge { challenge_nonce = 4 ∷ replicate 32 1 }

abbrev two_receipts : Tables
two_receipts = record {
  nonces = second_challenge.challenge_nonce ∷ challenge.challenge_nonce ∷ [];
  receipts = pending_receipt 2 second_challenge ∷ passed ∷ [];
}

second_dispatched : write_receipt_phase1 2 second_challenge concluded ≡ ok two_receipts
unfolding write_receipt_phase1 validate
second_dispatched = refl

final_receipt_stays_example : In passed two_receipts.receipts
final_receipt_stays_example =
    final_receipt_stays passed (next start (dispatch 2 second_challenge second_dispatched)) here
      refl

abbrev later_challenge : ReceiptFields
later_challenge = record challenge { server_challenge_ts = 1800 }

later-valid : validate later_challenge ≡ true
unfolding validate
later-valid = refl

replay_refused_example : write_receipt_phase1 2 later_challenge sent ≡ err replay_detected
replay_refused_example =
    replay_refused empty_tables 1 2 challenge later_challenge dispatched start refl later-valid
