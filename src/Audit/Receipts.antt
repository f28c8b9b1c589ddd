-- ===== src/Audit/Receipts.antt =====
-- internal/audit/receipt.go on the tables audit_receipts and audit_receipt_nonces of
-- migrations/001_initial_schema.sql. An id is a number and 0 the nil UUID, a time is a number and 0 the
-- zero time. The JIT flag, a comparison of floating-point numbers, is an argument.
pub mod Steps
pub mod Final
use vyomanaut_v.Base.{
  ℕ, Bool, true, false, not, ◌&&◌, ◌||◌, List, [], ◌∷◌, map, Option, none, some, ◌==◌,
  if◌then◌else◌, is_some, replicate,
}
use vyomanaut_v.Base.Bytes.{Bytes, same}
use vyomanaut_v.Base.Result.{Result, ok, err}

pub data AuditResult : Type 0 where
  audit_pass audit_fail audit_timeout : AuditResult

pub record ReceiptFields : Type 0 where
  pub chunk_id : Bytes
  pub file_id : Option ℕ
  pub provider_id : ℕ
  pub challenge_nonce : Bytes
  pub server_challenge_ts : ℕ
  pub address_was_stale : Bool

pub record Receipt : Type 0 where
  pub receipt_id : ℕ
  pub fields : ReceiptFields
  pub audit_result : Option AuditResult
  pub response_hash : Option Bytes
  pub provider_sig : Option Bytes
  pub response_latency_ms : Option ℕ
  pub jit_flag : Bool
  pub service_sig : Option Bytes
  pub service_countersign_ts : Option ℕ
  pub abandoned_at : Option ℕ

pub record Tables : Type 0 where
  pub nonces : List Bytes
  pub receipts : List Receipt

pub data ReceiptError : Type 0 where
  invalid_fields replay_detected duplicate_receipt response_already_recorded : ReceiptError
  check_violated receipt_already_final : ReceiptError

unfoldable pub validate : ReceiptFields → Bool
validate f =
    not (same f.chunk_id (replicate 32 0))
    && not (f.provider_id == 0)
    && not (same f.challenge_nonce (replicate 33 0))
    && not (f.server_challenge_ts == 0)

abbrev pub has_nonce : Bytes → List Bytes → Bool
has_nonce nonce [] = false
has_nonce nonce (n ∷ nonces) = if same n nonce then true else has_nonce nonce nonces

-- The primary key of audit_receipts.
abbrev pub has_key : ℕ → ℕ → List Receipt → Bool
has_key id ts [] = false
has_key id ts (r ∷ rows) =
    if r.receipt_id == id && r.fields.server_challenge_ts == ts then true else has_key id ts rows

abbrev pub pending_receipt : ℕ → ReceiptFields → Receipt
pending_receipt id f = record {
  receipt_id = id;
  fields = f;
  audit_result = none;
  response_hash = none;
  provider_sig = none;
  response_latency_ms = none;
  jit_flag = false;
  service_sig = none;
  service_countersign_ts = none;
  abandoned_at = none;
}

unfoldable pub write_receipt_phase1 : ℕ → ReceiptFields → Tables → Result ReceiptError Tables
write_receipt_phase1 id f t =
    if not (validate f)
    then err invalid_fields
    else if has_nonce f.challenge_nonce t.nonces
    then err replay_detected
    else if has_key id f.server_challenge_ts t.receipts
    then err duplicate_receipt
    else ok (record {
      nonces = f.challenge_nonce ∷ t.nonces;
      receipts = pending_receipt id f ∷ t.receipts;
    })

-- The rows of an UPDATE: those that its WHERE clause takes are changed, the others kept.
unfoldable pub update_where : (Receipt → Bool) → (Receipt → Receipt) → List Receipt → List Receipt
update_where test change [] = []
update_where test change (r ∷ rows) =
    let rest = update_where test change rows in if test r then change r ∷ rest else r ∷ rest

unfoldable pub any_row : (Receipt → Bool) → List Receipt → Bool
any_row test [] = false
any_row test (r ∷ rows) = let rest = any_row test rows in if test r then true else rest

unfoldable pub is_pending : ℕ → Receipt → Bool
is_pending id r =
    (r.receipt_id == id) && not (is_some r.audit_result) && not (is_some r.abandoned_at)

unfoldable pub awaits_response : ℕ → Receipt → Bool
awaits_response id r = is_pending id r && not (is_some r.response_hash)

abbrev pub respond : Bytes → Bytes → ℕ → Bool → Receipt → Receipt
respond hash sig latency jit r = record r {
  response_hash = some hash;
  provider_sig = some sig;
  response_latency_ms = some latency;
  jit_flag = jit;
}

unfoldable pub write_receipt_record_response :
    ℕ → Bytes → Bytes → ℕ → Bool → Tables → Result ReceiptError Tables
write_receipt_record_response id hash sig latency jit t =
    if any_row (awaits_response id) t.receipts
    then ok (record t {
      receipts = update_where (awaits_response id) (respond hash sig latency jit) t.receipts;
    })
    else err response_already_recorded

-- The constraint audit_receipts_response_consistency for a final result.
unfoldable pub is_consistent : AuditResult → Receipt → Bool
is_consistent audit_timeout r = not (is_some r.response_hash) && not (is_some r.provider_sig)
is_consistent audit_pass r = is_some r.response_hash && is_some r.provider_sig
is_consistent audit_fail r = is_some r.response_hash && is_some r.provider_sig

abbrev pub finish : AuditResult → Bytes → ℕ → Receipt → Receipt
finish result sig ts r = record r {
  audit_result = some result;
  service_sig = some sig;
  service_countersign_ts = some ts;
}

unfoldable pub write_receipt_phase2 :
    ℕ → AuditResult → Bytes → ℕ → Tables → Result ReceiptError Tables
write_receipt_phase2 id result sig ts t =
    if any_row (λ r. is_pending id r && not (is_consistent result r)) t.receipts
    then err check_violated
    else if any_row (is_pending id) t.receipts
    then ok (record t { receipts = update_where (is_pending id) (finish result sig ts) t.receipts })
    else err receipt_already_final
