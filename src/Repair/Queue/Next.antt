-- ===== src/Repair/Queue/Next.antt =====
-- Which job `DequeueNextJob` takes (queue.go).
use mathlib.Core.Option.{some-injective}
use vyomanaut_v.Base.{
  dec_lt, ◌<◌, ◌≤◌, ℕ, ◌+◌, ◌≡◌, ◌≢◌, refl, sym, ap, ap₂, ◌∙◌, Bool, true, false, ◌&&◌, ◌||◌, List,
  [], ◌∷◌, Option, none, some, ltb, ◌==◌, if◌then◌else◌, All, arith, Bool-cases, inl, inr, ◌⊎◌,
  subst, ==_refl, ==_ne,
}
use vyomanaut_v.Repair.Queue.{
  RepairJob, rank, is_queued, precedes, earlier, select_next, mark_in_progress, update_job,
  dequeue_table, dequeue_next_job,
}

-- `j` is one of the jobs, and it is queued.
pub data Waits (j : RepairJob) : List RepairJob → Type 0 where
  here : {jobs : List RepairJob} → is_queued j.status ≡ true → Waits j (j ∷ jobs)
  there : {k : RepairJob} {jobs : List RepairJob} → Waits j jobs → Waits j (k ∷ jobs)

-- No queued job precedes `j` in the query's order.
abbrev pub IsUnpreceded : RepairJob → List RepairJob → Type 0
IsUnpreceded j = All (λ k. (is_queued k.status ≡ false) ⊎ (precedes k j ≡ false))

pub data Chosen (jobs : List RepairJob) : Option RepairJob → Type 0 where
  nothing : All (λ k. is_queued k.status ≡ false) jobs → Chosen jobs none
  first : (j : RepairJob) → Waits j jobs → IsUnpreceded j jobs → Chosen jobs (some j)

precedes_numbers :
    (ra ca rb cb rc cc : ℕ)
    → (ltb rb ra || (rb == ra && ltb cb ca)) ≡ false
    → (ltb rc rb || (rc == rb && ltb cc cb)) ≡ false
    → (ltb rc ra || (rc == ra && ltb cc ca)) ≡ false
precedes_numbers ra ca rb cb rc cc h k = ground arith

precedes_trans :
    (a b c : RepairJob) → precedes b a ≡ false → precedes c b ≡ false → precedes c a ≡ false
precedes_trans a b c h k =
    precedes_numbers (rank a.priority) a.created_at (rank b.priority) b.created_at (rank c.priority)
      c.created_at h k

IsUnpreceded-later :
    (a b : RepairJob) (jobs : List RepairJob)
    → precedes b a ≡ false
    → IsUnpreceded b jobs
    → IsUnpreceded a jobs
IsUnpreceded-later a b [] h k = tt
IsUnpreceded-later a b (j ∷ jobs) h k = (other k.0, IsUnpreceded-later a b jobs h k.1)
  where
    other :
        (is_queued j.status ≡ false) ⊎ (precedes j b ≡ false)
        → (is_queued j.status ≡ false) ⊎ (precedes j a ≡ false)
    other (inl x) = inl x
    other (inr x) = inr (precedes_trans a b j h x)

precedes_self : (j : RepairJob) → precedes j j ≡ false
precedes_self j = numbers (rank j.priority) j.created_at
  where
    numbers : (r c : ℕ) → (ltb r r || (r == r && ltb c c)) ≡ false
    numbers r c = ground arith

precedes_asym : (a b : RepairJob) → precedes a b ≡ true → precedes b a ≡ false
precedes_asym a b h = numbers (rank a.priority) a.created_at (rank b.priority) b.created_at h
  where
    numbers :
        (ra ca rb cb : ℕ)
        → (ltb ra rb || (ra == rb && ltb ca cb)) ≡ true
        → (ltb rb ra || (rb == ra && ltb cb ca)) ≡ false
    numbers ra ca rb cb h = ground arith

Chosen-queued :
    (j : RepairJob) (jobs : List RepairJob) (o : Option RepairJob)
    → is_queued j.status ≡ true
    → Chosen jobs o
    → Chosen (j ∷ jobs) (some (earlier j o))
Chosen-queued j jobs _ q (nothing none_queued) =
    first j (here q) (inr (precedes_self j), all_first jobs none_queued)
  where
    all_first :
        (jobs : List RepairJob) → All (λ k. is_queued k.status ≡ false) jobs → IsUnpreceded j jobs
    all_first [] h = tt
    all_first (k ∷ jobs) h = (inl h.0, all_first jobs h.1)
Chosen-queued j jobs _ q (first k waits is_first) = elim (Bool-cases (precedes k j)) [
  | inl e ↦ rw (e) (first k (there waits) (inr (precedes_asym k j e), is_first))
  | inr e ↦
      rw (e) (first j (here q) (inr (precedes_self j), IsUnpreceded-later j k jobs e is_first))
]

Chosen-other :
    (j : RepairJob) (jobs : List RepairJob) (o : Option RepairJob)
    → is_queued j.status ≡ false
    → Chosen jobs o
    → Chosen (j ∷ jobs) o
Chosen-other j jobs _ q (nothing none_queued) = nothing (q, none_queued)
Chosen-other j jobs _ q (first k waits is_first) = first k (there waits) (inl q, is_first)

select_next-Chosen : (jobs : List RepairJob) → Chosen jobs (select_next jobs)
unfolding select_next
select_next-Chosen [] = nothing tt
select_next-Chosen (j ∷ jobs) = elim (Bool-cases (is_queued j.status)) [
  | inl e ↦ rw (e) (Chosen-queued j jobs (select_next jobs) e (select_next-Chosen jobs))
  | inr e ↦ rw (e) (Chosen-other j jobs (select_next jobs) e (select_next-Chosen jobs))
]

-- Every queued job has a later rank than `j`, or the same rank and no earlier creation time.
abbrev pub IsFirst : RepairJob → List RepairJob → Type 0
IsFirst j = All (λ k.
    (is_queued k.status ≡ false)
    ⊎ (rank j.priority < rank k.priority)
    ⊎ ((rank j.priority ≡ rank k.priority) × (j.created_at ≤ k.created_at)))

in_order :
    (rj cj rk ck : ℕ)
    → (ltb rk rj || (rk == rj && ltb ck cj)) ≡ false
    → (rj < rk) ⊎ ((rj ≡ rk) × (cj ≤ ck))
in_order rj cj rk ck h = elim (dec_lt rj rk) [
  | yes lt ↦ inl lt
  | no ge ↦ inr (ground (arith, h, ge), ground (arith, h, ge))
]

IsUnpreceded-IsFirst :
    (j : RepairJob) (jobs : List RepairJob) → IsUnpreceded j jobs → IsFirst j jobs
IsUnpreceded-IsFirst j [] h = tt
IsUnpreceded-IsFirst j (k ∷ jobs) h = (one h.0, IsUnpreceded-IsFirst j jobs h.1)
  where
    one :
        (is_queued k.status ≡ false) ⊎ (precedes k j ≡ false)
        → (is_queued k.status ≡ false)
          ⊎ (rank j.priority < rank k.priority)
          ⊎ ((rank j.priority ≡ rank k.priority) × (j.created_at ≤ k.created_at))
    one (inl q) = inl q
    one (inr q) = inr (in_order (rank j.priority) j.created_at (rank k.priority) k.created_at q)

-- How many jobs are queued.
abbrev pub waiting : List RepairJob → ℕ
waiting [] = 0
waiting (j ∷ jobs) = (if is_queued j.status then 1 else 0) + waiting jobs

-- The ids of the table are distinct, as its primary key says.
abbrev pub HasDistinctIds : List RepairJob → Type 0
HasDistinctIds [] = Unit
HasDistinctIds (j ∷ jobs) = All (λ k. k.job_id ≢ j.job_id) jobs × HasDistinctIds jobs

update_others :
    (i : ℕ) (change : RepairJob → RepairJob) (jobs : List RepairJob)
    → All (λ k. k.job_id ≢ i) jobs
    → update_job i change jobs ≡ jobs
unfolding update_job
update_others i change [] h = refl
update_others i change (j ∷ jobs) h =
    ap₂ (λ (k : RepairJob) (rest : List RepairJob). k ∷ rest)
      (ap (λ (b : Bool). if b then change j else j) (==_ne j.job_id i h.0))
      (update_others i change jobs h.1)

id_of_Waits :
    (i : ℕ) (j : RepairJob) (jobs : List RepairJob)
    → Waits j jobs
    → All (λ k. k.job_id ≢ i) jobs
    → j.job_id ≢ i
id_of_Waits i j [] w h = elim w [ ]
id_of_Waits i j (_ ∷ jobs) (here q) h = h.0
id_of_Waits i j (_ ∷ jobs) (there w) h = id_of_Waits i j jobs w h.1

waiting-update :
    (j : RepairJob) (jobs : List RepairJob)
    → HasDistinctIds jobs
    → Waits j jobs
    → waiting jobs ≡ 1 + waiting (update_job j.job_id mark_in_progress jobs)
unfolding update_job
waiting-update j [] h w = elim w [ ]
waiting-update j (_ ∷ jobs) h (here q) =
    rw (q, ==_refl j.job_id, update_others j.job_id mark_in_progress jobs h.0) (omega arith)
waiting-update j (k ∷ jobs) h (there w) =
    rw (==_ne k.job_id j.job_id (λ e. id_of_Waits k.job_id j jobs w h.0 (sym e)))
      (omega (arith, waiting-update j jobs h.1 w))

-- A dequeue that returns a job took one that was queued, before which no queued job comes in the order
-- of priority and then of creation time, and it leaves one queued job less, in a table with distinct ids.
pub dequeue_next_job-IsFirst :
    (jobs after : List RepairJob) (j : RepairJob)
    → HasDistinctIds jobs
    → dequeue_next_job jobs ≡ (some j, after)
    → Waits j jobs × IsFirst j jobs × (waiting jobs ≡ 1 + waiting after)
unfolding dequeue_next_job
dequeue_next_job-IsFirst jobs after j h e = taken (select_next jobs) (select_next-Chosen jobs) e
  where
    taken :
        (o : Option RepairJob)
        → Chosen jobs o
        → dequeue_table jobs o ≡ (some j, after)
        → Waits j jobs × IsFirst j jobs × (waiting jobs ≡ 1 + waiting after)
    taken _ (nothing none_queued) e = cc
    taken _ (first k waits is_first) e =
        let same : k ≡ j =
          some-injective k j (ap (λ (t : Option RepairJob × List RepairJob). t.0) e) in
        (
          subst (λ (t : RepairJob). Waits t jobs) same waits,
          subst (λ (t : RepairJob). IsFirst t jobs) same (IsUnpreceded-IsFirst k jobs is_first),
          waiting-update k jobs h waits
              ∙ ap (λ (t : Option RepairJob × List RepairJob). 1 + waiting t.1) e,
        )

-- As long as a job is queued, a dequeue returns one; with none queued it returns nothing and changes
-- nothing.
pub dequeue_next_job_progress :
    (jobs : List RepairJob)
    → ((j : RepairJob) × (after : List RepairJob) × (dequeue_next_job jobs ≡ (some j, after))
        × Waits j jobs)
      ⊎ ((dequeue_next_job jobs ≡ (none, jobs)) × (waiting jobs ≡ 0))
unfolding dequeue_next_job
dequeue_next_job_progress jobs = outcome (select_next jobs) (select_next-Chosen jobs)
  where
    idle : (jobs : List RepairJob) → All (λ k. is_queued k.status ≡ false) jobs → waiting jobs ≡ 0
    idle [] h = refl
    idle (k ∷ jobs) h = rw (h.0) (omega (arith, idle jobs h.1))

    outcome :
        (o : Option RepairJob)
        → Chosen jobs o
        → ((j : RepairJob) × (after : List RepairJob) × (dequeue_table jobs o ≡ (some j, after))
            × Waits j jobs)
          ⊎ ((dequeue_table jobs o ≡ (none, jobs)) × (waiting jobs ≡ 0))
    outcome _ (nothing none_queued) = inr (refl, idle jobs none_queued)
    outcome _ (first k waits is_first) =
        inl (k, update_job k.job_id mark_in_progress jobs, refl, waits)
