-- ===== src/Audit/Receipts/Final.antt =====
-- Receipts that are final, nonces that are used, and the checks of a row, over any operations of
-- internal/audit/receipt.go.
use vyomanaut_v.Base.{
  ℕ, ◌≡◌, refl, sym, ap, ◌∙◌, inl, inr, Bool, true, false, not, ◌&&◌, List, [], ◌∷◌, is_some, All,
  Bool-cases, subst, arith,
}
use vyomanaut_v.Base.Members.{In, here, there}
use vyomanaut_v.Base.Bytes.{Bytes, same, same_refl}
use vyomanaut_v.Base.Result.{Result, ok, err, ok-injective}
use vyomanaut_v.Audit.Receipts.{
  AuditResult, audit_pass, audit_fail, audit_timeout, ReceiptFields, Receipt, Tables, ReceiptError,
  replay_detected, validate, has_nonce, write_receipt_phase1, update_where, any_row, is_pending,
  awaits_response, respond, is_consistent, finish,
}
use vyomanaut_v.Audit.Receipts.Steps.{
  Steps, start, next, nonces_of, new_nonce, IsRow, pending, final, IsSound, Effect, refused, adds,
  answers, concludes, Step-Effect,
}

In-update_where :
    (test : Receipt → Bool) (change : Receipt → Receipt) {r : Receipt} {rows : List Receipt}
    → In r rows
    → test r ≡ false
    → In r (update_where test change rows)
unfolding update_where
In-update_where test change here out = rw out here
In-update_where test change (there {first} h) out = elim (Bool-cases (test first)) [
  | inl e ↦ rw e (there (In-update_where test change h out))
  | inr e ↦ rw e (there (In-update_where test change h out))
]

final-awaits : (id : ℕ) (r : Receipt) → is_some r.audit_result ≡ true → is_pending id r ≡ false
unfolding is_pending
final-awaits id r h = ground arith

final-responds :
    (id : ℕ) (r : Receipt) → is_some r.audit_result ≡ true → awaits_response id r ≡ false
unfolding awaits_response
final-responds id r h = ground (arith, final-awaits id r h)

Effect-In :
    {t after : Tables} {r : Receipt} {o : Result ReceiptError Tables}
    → Effect t o
    → o ≡ ok after
    → In r t.receipts
    → is_some r.audit_result ≡ true
    → In r after.receipts
Effect-In (refused reason) e h f = cc
Effect-In {r = r} (adds id fields fresh) e h f =
    subst (λ (x : Tables). In r x.receipts) (ok-injective e) (there h)
Effect-In {r = r} (answers id hash sig latency jit) e h f =
    subst (λ (x : Tables). In r x.receipts) (ok-injective e)
      (In-update_where (awaits_response id) (respond hash sig latency jit) h
        (final-responds id r f))
Effect-In {r = r} (concludes id result sig ts good) e h f =
    subst (λ (x : Tables). In r x.receipts) (ok-injective e)
      (In-update_where (is_pending id) (finish result sig ts) h (final-awaits id r f))

-- A receipt with a result is in the table unchanged after any further operations.
pub final_receipt_stays :
    {t after : Tables} (r : Receipt)
    → Steps t after
    → In r t.receipts
    → is_some r.audit_result ≡ true
    → In r after.receipts
final_receipt_stays r start h f = h
final_receipt_stays r (next steps step) h f =
    Effect-In (Step-Effect step) refl (final_receipt_stays r steps h f) f

has_nonce-Effect :
    {t after : Tables} (n : Bytes) {o : Result ReceiptError Tables}
    → Effect t o
    → o ≡ ok after
    → has_nonce n t.nonces ≡ true
    → has_nonce n after.nonces ≡ true
has_nonce-Effect n (refused reason) e h = cc
has_nonce-Effect {t} n (adds id f fresh) e h =
    subst (λ (x : Tables). has_nonce n x.nonces ≡ true) (ok-injective e)
      (elim (Bool-cases (same f.challenge_nonce n)) [ inl i ↦ rw i refl | inr i ↦ rw (i, h) refl ])
has_nonce-Effect n (answers id hash sig latency jit) e h =
    subst (λ (x : Tables). has_nonce n x.nonces ≡ true) (ok-injective e) h
has_nonce-Effect n (concludes id result sig ts good) e h =
    subst (λ (x : Tables). has_nonce n x.nonces ≡ true) (ok-injective e) h

has_nonce-Steps :
    {t after : Tables} (n : Bytes)
    → Steps t after
    → has_nonce n t.nonces ≡ true
    → has_nonce n after.nonces ≡ true
has_nonce-Steps n start h = h
has_nonce-Steps n (next steps step) h =
    has_nonce-Effect n (Step-Effect step) refl (has_nonce-Steps n steps h)

sent_nonce :
    (t : Tables) {sent : Tables} (id : ℕ) (f : ReceiptFields)
    → write_receipt_phase1 id f t ≡ ok sent
    → has_nonce f.challenge_nonce sent.nonces ≡ true
unfolding write_receipt_phase1
sent_nonce t id f e = ground (arith, same_refl f.challenge_nonce)

-- A nonce that a dispatched challenge used is refused for every later one, also with another timestamp.
pub replay_refused :
    (t : Tables) {sent after : Tables} (id again : ℕ) (f g : ReceiptFields)
    → write_receipt_phase1 id f t ≡ ok sent
    → Steps sent after
    → g.challenge_nonce ≡ f.challenge_nonce
    → validate g ≡ true
    → write_receipt_phase1 again g after ≡ err replay_detected
unfolding write_receipt_phase1
replay_refused t id again f g e steps same_nonce valid =
    rw (valid, same_nonce, has_nonce-Steps f.challenge_nonce steps (sent_nonce t id f e)) refl

nonces-update_where :
    (test : Receipt → Bool) (change : Receipt → Receipt) (rows : List Receipt)
    → ((r : Receipt) → (change r).fields ≡ r.fields)
    → nonces_of (update_where test change rows) ≡ nonces_of rows
unfolding update_where
nonces-update_where test change [] keeps = refl
nonces-update_where test change (r ∷ rows) keeps = elim (Bool-cases (test r)) [
  | inl e ↦ rw (e, keeps r, nonces-update_where test change rows keeps) refl
  | inr e ↦ rw (e, nonces-update_where test change rows keeps) refl
]

none_of :
    (test : Receipt → Bool) (rows : List Receipt)
    → any_row test rows ≡ false
    → All (λ r. test r ≡ false) rows
unfolding any_row
none_of test [] h = tt
none_of test (r ∷ rows) h = elim (Bool-cases (test r)) [
  | inl e ↦ absurd (ground arith)
  | inr e ↦ (e, none_of test rows (ground arith))
]

IsRow-update_where :
    (test bad : Receipt → Bool) (change : Receipt → Receipt) (rows : List Receipt)
    → ((r : Receipt) → IsRow r → test r ≡ true → bad r ≡ false → IsRow (change r))
    → All (λ r. bad r ≡ false) rows
    → All IsRow rows
    → All IsRow (update_where test change rows)
unfolding update_where
IsRow-update_where test bad change [] keeps good h = tt
IsRow-update_where test bad change (r ∷ rows) keeps good h = elim (Bool-cases (test r)) [
  | inl e ↦ rw e (keeps r h.0 e good.0, IsRow-update_where test bad change rows keeps good.1 h.1)
  | inr e ↦ rw e (h.0, IsRow-update_where test bad change rows keeps good.1 h.1)
]

respond-IsRow :
    (id : ℕ) (hash sig : Bytes) (latency : ℕ) (jit : Bool) (r : Receipt)
    → IsRow r
    → awaits_response id r ≡ true
    → IsRow (respond hash sig latency jit r)
respond-IsRow id hash sig latency jit r (pending e both) w = pending e refl
respond-IsRow id hash sig latency jit r (final e c s t) w =
    absurd (cc (w, final-responds id r (ap is_some e)))

finish-consistent :
    (result : AuditResult) (sig : Bytes) (ts : ℕ) (r : Receipt)
    → is_consistent result (finish result sig ts r) ≡ is_consistent result r
unfolding is_consistent
finish-consistent audit_pass sig ts r = refl
finish-consistent audit_fail sig ts r = refl
finish-consistent audit_timeout sig ts r = refl

consistent : (a b : Bool) → a ≡ true → (a && not b) ≡ false → b ≡ true
consistent a b h g = ground arith

never : (rows : List Receipt) → any_row (λ r. false) rows ≡ false
unfolding any_row
never [] = refl
never (r ∷ rows) = never rows

finish-IsRow :
    (id : ℕ) (result : AuditResult) (sig : Bytes) (ts : ℕ) (r : Receipt)
    → is_pending id r ≡ true
    → (is_pending id r && not (is_consistent result r)) ≡ false
    → IsRow (finish result sig ts r)
finish-IsRow id result sig ts r w good =
    final refl
      (finish-consistent result sig ts r
        ∙ consistent (is_pending id r) (is_consistent result r) w good)
      refl refl

Effect-IsSound :
    {t after : Tables} {o : Result ReceiptError Tables}
    → Effect t o
    → o ≡ ok after
    → IsSound t
    → IsSound after
Effect-IsSound (refused reason) e h = cc
Effect-IsSound (adds id f fresh) e h = subst IsSound (ok-injective e) (record {
  rows = (pending refl refl, h.rows);
  guarded = ap (λ (l : List Bytes). f.challenge_nonce ∷ l) h.guarded;
  distinct = new_nonce fresh h.distinct;
})
Effect-IsSound {t} (answers id hash sig latency jit) e h = subst IsSound (ok-injective e) (record {
  rows =
      IsRow-update_where (awaits_response id) (λ r. false) (respond hash sig latency jit) t.receipts
        (λ r row w good. respond-IsRow id hash sig latency jit r row w)
        (none_of (λ r. false) t.receipts (never t.receipts)) h.rows;
  guarded =
      h.guarded
      ∙ sym (
          nonces-update_where (awaits_response id) (respond hash sig latency jit) t.receipts
            (λ r. refl));
  distinct = h.distinct;
})
Effect-IsSound {t} (concludes id result sig ts good) e h = subst IsSound (ok-injective e) (record {
  rows =
      IsRow-update_where (is_pending id) (λ r. is_pending id r && not (is_consistent result r))
        (finish result sig ts) t.receipts
        (λ r row w ok_row. finish-IsRow id result sig ts r w ok_row)
        (none_of (λ r. is_pending id r && not (is_consistent result r)) t.receipts good) h.rows;
  guarded =
      h.guarded
      ∙ sym (nonces-update_where (is_pending id) (finish result sig ts) t.receipts (λ r. refl));
  distinct = h.distinct;
})

-- Every operation keeps the checks of the rows, and each receipt has its own nonce, in the guard too.
pub Steps-IsSound : {t after : Tables} → Steps t after → IsSound t → IsSound after
Steps-IsSound start h = h
Steps-IsSound (next steps step) h = Effect-IsSound (Step-Effect step) refl (Steps-IsSound steps h)
