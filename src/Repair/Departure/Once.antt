-- ===== src/Repair/Departure/Once.antt =====
-- What a second pass of internal/repair/departure.go leaves alone after a provider was marked.
use vyomanaut_v.Base.{
  ℕ, suc, ◌-◌, ◌≡◌, inl, inr, refl, sym, ap, ◌∙◌, Bool, true, false, ◌&&◌, List, [], ◌∷◌, Option,
  none, some, ◌==◌, if◌then◌else◌, All, Bool-cases, subst,
}
use vyomanaut_v.Base.Result.{Result-cases}
use vyomanaut_v.Scoring.Passes.{Status, pending_onboarding, vetting, active, departed}
use vyomanaut_v.Repair.Queue.{TriggerType, silent_departure, enqueue_job}
use vyomanaut_v.Repair.Departure.{
  Assignment, Provider, Tables, DepartureError, statement_failed, provider_missing, Context,
  Candidate, is_vetting_row, real_chunks, mark_deleted, enqueue_chunks,
  enqueue_repair_for_real_chunks, handle_chunks, after_chunks, process_departure, has_provider,
  mark_departed, is_candidate_status, is_silent, find_departure_candidates, delete_vetting_chunks,
}
use vyomanaut_v.Repair.Departure.Chunks.{Seized, stopped, seized, seize-Seized}

-- the operations after the mark do not touch the providers
enqueue_chunks_providers :
    (c : Context) (q : ℕ) (trigger : TriggerType) (turn : ℕ) (rows : List Assignment) (t : Tables)
    → (enqueue_chunks c q trigger turn rows t).1.providers ≡ t.providers
unfolding enqueue_chunks
enqueue_chunks_providers c q trigger turn [] t = refl
enqueue_chunks_providers c q trigger turn (a ∷ rest) t = elim (Bool-cases (c.faults.check turn)) [
  | inl bad ↦ rw bad refl
  | inr fine ↦ elim (Bool-cases (is_vetting_row a.chunk_id q t.assignments)) [
    | inl skip ↦ rw (fine, skip) (enqueue_chunks_providers c q trigger (suc turn) rest t)
    | inr real ↦
        elim (Result-cases (
          enqueue_job c.data_shards c.total_shards (c.job_ids turn) c.now a.chunk_id a.segment_id
            (some q) trigger (c.total_shards - 1) t.jobs)) [
              | inr (reason, bad) ↦ rw (fine, real, bad) refl
              | inl (jobs, good) ↦ elim (Bool-cases (c.faults.retire turn)) [
                | inl bad ↦ rw (fine, real, good, bad) refl
                | inr retired ↦
                    rw (fine, real, good, retired)
                      (enqueue_chunks_providers c q trigger (suc turn) rest (record t {
                        jobs = jobs;
                        assignments = mark_deleted c.now a.chunk_id q t.assignments;
                      }))
              ]
            ]
  ]
]

if_providers :
    (b : Bool) (x y : Option DepartureError × Tables) (rows : List Provider)
    → x.1.providers ≡ rows
    → y.1.providers ≡ rows
    → (if◌then◌else◌ {A = Option DepartureError × Tables} b x y).1.providers ≡ rows
if_providers true x y rows hx hy = hx
if_providers false x y rows hx hy = hy

Seized-providers :
    (c : Context) (t : Tables) {r : Option DepartureError × Tables}
    → Seized c 0 0 t r
    → r.1.providers ≡ t.providers
Seized-providers c t (stopped o) = refl
Seized-providers c t (seized events) = refl

module _ (c : Context) where
  enqueue_providers :
      (q : ℕ) (trigger : TriggerType) (t : Tables)
      → (enqueue_repair_for_real_chunks c q trigger t).1.providers ≡ t.providers
  unfolding enqueue_repair_for_real_chunks
  enqueue_providers q trigger t =
      if_providers c.faults.query (some statement_failed, t)
        (enqueue_chunks c q trigger 0 (real_chunks q t.assignments) t) t.providers refl
        (enqueue_chunks_providers c q trigger 0 (real_chunks q t.assignments) t)

  handle_providers :
      (q : ℕ) (s : Status) (t : Tables) → (handle_chunks c q s t).1.providers ≡ t.providers
  unfolding handle_chunks
  handle_providers q active t = enqueue_providers q silent_departure t
  handle_providers q departed t = enqueue_providers q silent_departure t
  handle_providers q pending_onboarding t =
      if_providers c.faults.vetting (some statement_failed, t)
        (none, record t { assignments = delete_vetting_chunks c.now q t.assignments }) t.providers
        refl refl
  handle_providers q vetting t =
      if_providers c.faults.vetting (some statement_failed, t)
        (none, record t { assignments = delete_vetting_chunks c.now q t.assignments }) t.providers
        refl refl

  after_providers :
      (key : ℕ → ℕ → ℕ) (q : ℕ) (r : Option DepartureError × Tables)
      → (after_chunks c key q r).1.providers ≡ r.1.providers
  unfolding after_chunks
  after_providers key q (some reason, t) = refl
  after_providers key q (none, t) = Seized-providers c t (seize-Seized c 0 0 key q t)

abbrev pub IsNot : ℕ → Candidate → Type 0
IsNot q candidate = (candidate.0 == q) ≡ false

if_candidate :
    (q : ℕ) (b : Bool) (candidate : Candidate) (rest : List Candidate)
    → IsNot q candidate
    → All (IsNot q) rest
    → All (IsNot q) (if b then candidate ∷ rest else rest)
if_candidate q true candidate rest h hs = (h, hs)
if_candidate q false candidate rest h hs = hs

none_departed :
    (threshold later now q : ℕ) (rows : List Provider)
    → All (IsNot q) (find_departure_candidates threshold later (mark_departed now q rows))
unfolding find_departure_candidates mark_departed is_candidate_status
none_departed threshold later now q [] = tt
none_departed threshold later now q (p ∷ rows) = elim (Bool-cases (p.provider_id == q)) [
  | inl this ↦ rw this (none_departed threshold later now q rows)
  | inr other ↦ rw other (
      if_candidate q (is_candidate_status p.status && is_silent threshold later p.last_heartbeat_ts)
        (p.provider_id, p.status)
        (find_departure_candidates threshold later (mark_departed now q rows)) other
        (none_departed threshold later now q rows))
]

departed_providers :
    (c : Context) (key : ℕ → ℕ → ℕ) (q : ℕ) (s : Status) (t : Tables)
    → c.faults.mark ≡ false
    → has_provider q t.providers ≡ true
    → (process_departure c key (q, s) t).1.providers ≡ mark_departed c.now q t.providers
unfolding process_departure
departed_providers c key q s t fine there =
    let marked = record t { providers = mark_departed c.now q t.providers } in
    let handled = after_chunks c key q (handle_chunks c q s marked) in
    ap
      (λ (b : Bool).
        (if◌then◌else◌ {A = Option DepartureError × Tables} b (some statement_failed, t)
          (if has_provider q t.providers then handled else (some provider_missing, t))).1.providers)
      fine
    ∙ ap
        (λ (b : Bool).
          (if◌then◌else◌ {A = Option DepartureError × Tables} b handled
            (some provider_missing, t)).1.providers)
        there
    ∙ after_providers c key q (handle_chunks c q s marked)
    ∙ handle_providers c q s marked

-- A provider that was marked is never a candidate again, whichever of the later statements failed: what
-- they left undone is not taken up by the next detections.
pub process_departure_once :
    (c : Context) (key : ℕ → ℕ → ℕ) (q : ℕ) (s : Status) (t : Tables) (threshold later : ℕ)
    → c.faults.mark ≡ false
    → has_provider q t.providers ≡ true
    → All
        (IsNot q)
        (find_departure_candidates threshold later (process_departure c key (q, s) t).1.providers)
process_departure_once c key q s t threshold later fine there =
    subst (λ (rows : List Provider). All (IsNot q) (find_departure_candidates threshold later rows))
      (sym (departed_providers c key q s t fine there))
      (none_departed threshold later c.now q t.providers)
