-- ===== src/Audit/Receipts/Steps.antt =====
-- What every sequence of the operations of internal/audit/receipt.go keeps.
use vyomanaut_v.Base.{
  ℕ, ◌≡◌, inl, inr, Bool, true, false, not, ◌&&◌, List, [], ◌∷◌, map, none, some, is_some, All,
  Bool-cases, subst,
}
use vyomanaut_v.Base.Bytes.{Bytes}
use vyomanaut_v.Base.Result.{Result, ok, err}
use vyomanaut_v.Audit.Receipts.{
  AuditResult, ReceiptFields, Receipt, Tables, ReceiptError, invalid_fields, replay_detected,
  duplicate_receipt, response_already_recorded, check_violated, receipt_already_final, validate,
  has_nonce, has_key, pending_receipt, write_receipt_phase1, update_where, any_row, is_pending,
  awaits_response, respond, write_receipt_record_response, is_consistent, finish,
  write_receipt_phase2,
}

pub data Step (t : Tables) : Tables → Type 0 where
  dispatch :
      (id : ℕ) (f : ReceiptFields) {after : Tables}
      → write_receipt_phase1 id f t ≡ ok after
      → Step t after
  answer :
      (id : ℕ) (hash sig : Bytes) (latency : ℕ) (jit : Bool) {after : Tables}
      → write_receipt_record_response id hash sig latency jit t ≡ ok after
      → Step t after
  conclude :
      (id : ℕ) (result : AuditResult) (sig : Bytes) (ts : ℕ) {after : Tables}
      → write_receipt_phase2 id result sig ts t ≡ ok after
      → Step t after

pub data Steps (t : Tables) : Tables → Type 0 where
  start : Steps t t
  next : {middle after : Tables} → Steps t middle → Step middle after → Steps t after

abbrev pub nonces_of : List Receipt → List Bytes
nonces_of rows = map (λ r. r.fields.challenge_nonce) rows

pub data AreDistinct : List Bytes → Type 0 where
  no_nonces : AreDistinct []
  new_nonce :
      {n : Bytes} {rest : List Bytes}
      → has_nonce n rest ≡ false
      → AreDistinct rest
      → AreDistinct (n ∷ rest)

-- The checks of the table on a row: the answer and the result agree, and the service's signature comes
-- with its time and with a result.
pub data IsRow : Receipt → Type 0 where
  pending :
      {r : Receipt}
      → r.audit_result ≡ none
      → is_some r.response_hash ≡ is_some r.provider_sig
      → IsRow r
  final :
      {r : Receipt} {result : AuditResult}
      → r.audit_result ≡ some result
      → is_consistent result r ≡ true
      → is_some r.service_sig ≡ true
      → is_some r.service_countersign_ts ≡ true
      → IsRow r

-- Each receipt has its own nonce, which the guard table has too.
pub record IsSound (t : Tables) : Type 0 where
  pub rows : All IsRow t.receipts
  pub guarded : t.nonces ≡ nonces_of t.receipts
  pub distinct : AreDistinct t.nonces

-- what an operation that succeeds does to the tables
pub data Effect (t : Tables) : Result ReceiptError Tables → Type 0 where
  refused : (reason : ReceiptError) → Effect t (err reason)
  adds :
      (id : ℕ) (f : ReceiptFields)
      → has_nonce f.challenge_nonce t.nonces ≡ false
      → Effect t (
          ok (record {
            nonces = f.challenge_nonce ∷ t.nonces;
            receipts = pending_receipt id f ∷ t.receipts;
          }))
  answers :
      (id : ℕ) (hash sig : Bytes) (latency : ℕ) (jit : Bool)
      → Effect t (
          ok (record t {
            receipts = update_where (awaits_response id) (respond hash sig latency jit) t.receipts;
          }))
  concludes :
      (id : ℕ) (result : AuditResult) (sig : Bytes) (ts : ℕ)
      → any_row (λ r. is_pending id r && not (is_consistent result r)) t.receipts ≡ false
      → Effect t (
          ok (record t {
            receipts = update_where (is_pending id) (finish result sig ts) t.receipts;
          }))

phase1-Effect : (id : ℕ) (f : ReceiptFields) (t : Tables) → Effect t (write_receipt_phase1 id f t)
unfolding write_receipt_phase1
phase1-Effect id f t = elim (Bool-cases (validate f)) [
  | inr bad ↦ rw bad (refused invalid_fields)
  | inl good ↦ elim (Bool-cases (has_nonce f.challenge_nonce t.nonces)) [
    | inl used ↦ rw (good, used) (refused replay_detected)
    | inr fresh ↦ elim (Bool-cases (has_key id f.server_challenge_ts t.receipts)) [
      | inl taken ↦ rw (good, fresh, taken) (refused duplicate_receipt)
      | inr free ↦ rw (good, fresh, free) (adds id f fresh)
    ]
  ]
]

response-Effect :
    (id : ℕ) (hash sig : Bytes) (latency : ℕ) (jit : Bool) (t : Tables)
    → Effect t (write_receipt_record_response id hash sig latency jit t)
unfolding write_receipt_record_response
response-Effect id hash sig latency jit t =
    elim (Bool-cases (any_row (awaits_response id) t.receipts)) [
      | inl some_row ↦ rw some_row (answers id hash sig latency jit)
      | inr no_row ↦ rw no_row (refused response_already_recorded)
    ]

phase2-Effect :
    (id : ℕ) (result : AuditResult) (sig : Bytes) (ts : ℕ) (t : Tables)
    → Effect t (write_receipt_phase2 id result sig ts t)
unfolding write_receipt_phase2
phase2-Effect id result sig ts t =
    elim (Bool-cases (any_row (λ r. is_pending id r && not (is_consistent result r)) t.receipts)) [
      | inl bad ↦ rw bad (refused check_violated)
      | inr good ↦ elim (Bool-cases (any_row (is_pending id) t.receipts)) [
        | inl some_row ↦ rw (good, some_row) (concludes id result sig ts good)
        | inr no_row ↦ rw (good, no_row) (refused receipt_already_final)
      ]
    ]

pub Step-Effect : {t after : Tables} → Step t after → Effect t (ok after)
Step-Effect {t} (dispatch id f e) = subst (Effect t) e (phase1-Effect id f t)
Step-Effect {t} (answer id hash sig latency jit e) =
    subst (Effect t) e (response-Effect id hash sig latency jit t)
Step-Effect {t} (conclude id result sig ts e) =
    subst (Effect t) e (phase2-Effect id result sig ts t)
