-- ===== src/Repair/Departure/Covered.antt =====
-- When a chunk of a provider is covered, and what the statements of internal/repair/departure.go keep of it.
use vyomanaut_v.Base.{
  ℕ, ◌≡◌, ◌⊎◌, inl, inr, refl, sym, Bool, true, false, not, ◌&&◌, List, [], ◌∷◌, Option, none, some,
  ◌==◌, if◌then◌else◌, Bool-cases, arith,
}
use vyomanaut_v.Base.Result.{Result, ok, err, ok-injective}
use vyomanaut_v.Repair.Queue.{TriggerType, RepairJob, QueueError, enqueue_job, is_queued, queued}
use vyomanaut_v.Repair.Departure.{
  Assignment, Tables, DepartureError, is_assigned, is_of, delete_vetting_chunks, mark_deleted,
}

-- A provider has a chunk that is no vetting chunk.
unfoldable pub is_held : ℕ → ℕ → List Assignment → Bool
is_held chunk_id provider_id [] = false
is_held chunk_id provider_id (a ∷ rows) =
    if is_of chunk_id provider_id a && not a.is_vetting_chunk && is_assigned a.status
    then true
    else is_held chunk_id provider_id rows

abbrev is_for : ℕ → Option ℕ → Bool
is_for provider_id none = false
is_for provider_id (some p) = p == provider_id

-- The queue has a queued job for the chunk that a provider had.
unfoldable pub has_repair_job : ℕ → ℕ → List RepairJob → Bool
has_repair_job chunk_id provider_id [] = false
has_repair_job chunk_id provider_id (j ∷ jobs) =
    if (j.chunk_id == chunk_id) && is_for provider_id j.provider_id && is_queued j.status
    then true
    else has_repair_job chunk_id provider_id jobs

-- A chunk of a provider is still assigned, or a job for it is queued.
unfoldable pub IsCovered : ℕ → ℕ → Tables → Type 0
IsCovered chunk_id provider_id t =
    (is_held chunk_id provider_id t.assignments ≡ true)
    ⊎ (has_repair_job chunk_id provider_id t.jobs ≡ true)

held-mark_deleted :
    (now b q c p : ℕ) (rows : List Assignment)
    → ((b == c) && (q == p)) ≡ false
    → is_held c p rows ≡ true
    → is_held c p (mark_deleted now b q rows) ≡ true
unfolding is_held mark_deleted
held-mark_deleted now b q c p [] other h = h
held-mark_deleted now b q c p (a ∷ rows) other h =
    ground (arith, held-mark_deleted now b q c p rows)

pub held-delete_vetting_chunks :
    (now q c p : ℕ) (rows : List Assignment)
    → is_held c p rows ≡ true
    → is_held c p (delete_vetting_chunks now q rows) ≡ true
unfolding is_held delete_vetting_chunks
held-delete_vetting_chunks now q c p [] h = h
held-delete_vetting_chunks now q c p (a ∷ rows) h =
    ground (arith, held-delete_vetting_chunks now q c p rows)

accepted :
    (b : Bool) (f : QueueError) (j : RepairJob) (jobs : List RepairJob) {after : List RepairJob}
    → ◌≡◌ {A = Result QueueError (List RepairJob)} (if b then err f else ok (j ∷ jobs)) (ok after)
    → after ≡ j ∷ jobs
accepted true f j jobs e = cc
accepted false f j jobs e = sym (ok-injective e)

-- an accepted job is put before the others
pub enqueued :
    (d n id now chunk segment p : ℕ) (trigger : TriggerType) (available : ℕ) (jobs : List RepairJob)
    {after : List RepairJob}
    → enqueue_job d n id now chunk segment (some p) trigger available jobs ≡ ok after
    → (j : RepairJob) × (after ≡ j ∷ jobs)
      × (j.chunk_id ≡ chunk)
      × (j.provider_id ≡ some p)
      × (j.status ≡ queued)
unfolding enqueue_job
enqueued d n id now chunk segment p trigger available jobs e =
    (_, accepted _ _ _ jobs e, refl, refl, refl)

pub IsCovered-enqueued :
    (c p chunk : ℕ) (t : Tables) (jobs : List RepairJob) (j : RepairJob)
    → jobs ≡ j ∷ t.jobs
    → IsCovered c p t
    → IsCovered c p (record t { jobs = jobs })
unfolding IsCovered has_repair_job
IsCovered-enqueued c p chunk t jobs j e (inl held) = inl held
IsCovered-enqueued c p chunk t jobs j e (inr has_job) = inr (
    rw e (elim (Bool-cases ((j.chunk_id == c) && is_for p j.provider_id && is_queued j.status)) [
      | inl this ↦ rw this refl
      | inr that ↦ rw (that, has_job) refl
    ]))

-- a job for the chunk, then the chunk's row is retired
pub IsCovered-retired :
    (now chunk q c p : ℕ) (t : Tables) (jobs : List RepairJob) (j : RepairJob)
    → jobs ≡ j ∷ t.jobs
    → j.chunk_id ≡ chunk
    → j.provider_id ≡ some q
    → j.status ≡ queued
    → IsCovered c p t
    → IsCovered c p (record t { jobs = jobs; assignments = mark_deleted now chunk q t.assignments })
unfolding IsCovered has_repair_job
IsCovered-retired now chunk q c p t jobs j e ec ep es h =
    elim (Bool-cases ((chunk == c) && (q == p))) [
      | inl this ↦ inr (rw (e, ec, ep, es) (ground arith))
      | inr other ↦ elim h [
        | inl held ↦ inl (held-mark_deleted now chunk q c p t.assignments other held)
        | inr is_queued_job ↦ inr (rw (e, ec, ep, es) (ground (arith, is_queued_job)))
      ]
    ]

pub held-IsCovered :
    (chunk p : ℕ) (t : Tables) → is_held chunk p t.assignments ≡ true → IsCovered chunk p t
unfolding IsCovered
held-IsCovered chunk p t h = inl h

pub IsCovered-if :
    (chunk p : ℕ) (b : Bool) (x y : Option DepartureError × Tables)
    → IsCovered chunk p x.1
    → IsCovered chunk p y.1
    → IsCovered chunk p (if◌then◌else◌ {A = Option DepartureError × Tables} b x y).1
IsCovered-if chunk p true x y hx hy = hx
IsCovered-if chunk p false x y hx hy = hy

pub IsCovered-unheld :
    (chunk p : ℕ) (t : Tables)
    → IsCovered chunk p t
    → is_held chunk p t.assignments ≡ false
    → has_repair_job chunk p t.jobs ≡ true
unfolding IsCovered
IsCovered-unheld chunk p t (inl held) gone = absurd (cc (held, gone))
IsCovered-unheld chunk p t (inr job) gone = job
