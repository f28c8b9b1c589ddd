-- ===== src/Repair/Assignment/Eligible.antt =====
-- What SelectReplacementProvider of internal/repair/assignment.go chooses.
use vyomanaut_v.Base.{
  arith, ◌<◌, ℕ, zero, suc, ◌≡◌, Bool, true, List, [], ◌∷◌, if◌then◌else◌, All, All-take,
  Bool-cases, inl, inr,
}
use vyomanaut_v.Base.Members.{In, All-In, In-All}
use vyomanaut_v.Base.Result.{Result, ok, err, ok-injective}
use vyomanaut_v.Repair.Assignment.{
  ProviderRow, Holding, Candidate, SelectionError, no_eligible_replacement, statement_failed,
  AttemptFaults, eligible_rows, draw_two_active_candidates, order_candidates_by_score_desc,
  asn_within_cap, count_on_asn, Tried, chosen, none_fits, check_failed, try_candidates, attempts,
  select_replacement_provider,
}
use vyomanaut_v.Repair.Assignment.Rows.{
  IsEligible, eligible_rows-IsEligible, All-order, IsWider, IsWider-cons, eligible-IsWider,
  MeetsTerms, eligible-MeetsTerms,
}

module _ (rows : List ProviderRow) (holdings : List Holding) (segment_id max_per_asn : ℕ) where
  -- The provider chosen has an eligible row that was not excluded, and its system stays below the cap.
  pub record IsReplacement (now : ℕ) (excluded : List ℕ) (id : ℕ) : Type 0 where
    pub candidate : Candidate
    pub is_candidate : candidate.provider_id ≡ id
    pub from_row : IsEligible rows now excluded candidate
    pub within_cap : asn_within_cap rows holdings segment_id candidate.asn max_per_asn ≡ true

  data Outcome (now : ℕ) (first excluded : List ℕ)
      : Tried rows holdings segment_id max_per_asn → Type 0 where
    fits :
        (c : Candidate)
        → IsEligible rows now first c
        → asn_within_cap rows holdings segment_id c.asn max_per_asn ≡ true
        → Outcome now first excluded (chosen c.provider_id)
    nobody :
        (losers : List ℕ) → IsWider losers excluded → Outcome now first excluded (none_fits losers)
    broken : Outcome now first excluded check_failed

  Outcome-cons :
      (now : ℕ) (first excluded : List ℕ) (x : ℕ) {r : Tried rows holdings segment_id max_per_asn}
      → Outcome now first (x ∷ excluded) r
      → Outcome now first excluded r
  Outcome-cons now first excluded x (fits c h w) = fits c h w
  Outcome-cons now first excluded x (nobody losers h) =
      nobody losers (IsWider-cons x losers excluded h)
  Outcome-cons now first excluded x broken = broken

  try_candidates-Outcome :
      (now : ℕ) (first : List ℕ) (cap : ℕ → Bool) (position : ℕ) (l : List Candidate)
      (excluded : List ℕ)
      → All (IsEligible rows now first) l
      → Outcome now first excluded
          (try_candidates rows holdings segment_id max_per_asn cap position l excluded)
  unfolding try_candidates IsWider
  try_candidates-Outcome now first cap position [] excluded h = nobody excluded (λ id out. out)
  try_candidates-Outcome now first cap position (c ∷ rest) excluded h =
      elim (Bool-cases (cap position)) [
        | inl bad ↦ rw bad broken
        | inr good ↦ elim (Bool-cases (asn_within_cap rows holdings segment_id c.asn max_per_asn)) [
          | inl within ↦ rw (good, within) (fits c h.0 within)
          | inr full ↦
              rw (good, full)
                (Outcome-cons now first excluded c.provider_id (
                  try_candidates-Outcome now first cap (suc position) rest
                    (c.provider_id ∷ excluded) h.1))
        ]
      ]

  IsReplacement-IsWider :
      (now : ℕ) (losers excluded : List ℕ) {id : ℕ}
      → IsWider losers excluded
      → IsReplacement now losers id
      → IsReplacement now excluded id
  IsReplacement-IsWider now losers excluded wider h = record {
    candidate = h.candidate;
    is_candidate = h.is_candidate;
    from_row = record {
      row = h.from_row.row;
      is_row = h.from_row.is_row;
      same_id = h.from_row.same_id;
      same_asn = h.from_row.same_asn;
      eligible = eligible-IsWider now losers excluded h.from_row.row wider h.from_row.eligible;
    };
    within_cap = h.within_cap;
  }

  module _ (faults : ℕ → AttemptFaults) (shuffle : ℕ → List Candidate → List Candidate) (now : ℕ)
      (scores : List (ℕ × ℕ))
      (draws : (attempt : ℕ) (l : List Candidate) (c : Candidate)
        → In c (shuffle attempt l)
        → In c l) where
    drawn-IsEligible :
        (attempt : ℕ) (excluded : List ℕ)
        → All
            (IsEligible rows now excluded)
            (draw_two_active_candidates (shuffle attempt) now excluded rows)
    unfolding draw_two_active_candidates
    drawn-IsEligible attempt excluded =
        let P = IsEligible rows now excluded in
        let l = eligible_rows now excluded rows in
        All-take P 2 (shuffle attempt l) (
          In-All P (shuffle attempt l)
            (λ c i. All-In P l (eligible_rows-IsEligible now excluded rows) (draws attempt l c i)))

    after_try :
        (left attempt : ℕ) (excluded : List ℕ) {id : ℕ}
        (t : Tried rows holdings segment_id max_per_asn)
        → ((losers : List ℕ)
            → attempts rows holdings segment_id max_per_asn left
                (suc attempt)
                faults
                shuffle
                now
                scores
                losers
              ≡ ok id
            → IsReplacement now losers id)
        → Outcome now excluded excluded t
        → ◌≡◌ {A = Result SelectionError ℕ}
            (elim t [
              | chosen found ↦ ok found
              | check_failed ↦ err statement_failed
              | none_fits losers ↦
                  attempts rows holdings segment_id max_per_asn left
                    (suc attempt)
                    faults
                    shuffle
                    now
                    scores
                    losers
            ])
            (ok id)
        → IsReplacement now excluded id
    after_try left attempt excluded _ again (fits c h w) e = record {
      candidate = c;
      is_candidate = ok-injective e;
      from_row = h;
      within_cap = w;
    }
    after_try left attempt excluded _ again broken e = cc
    after_try left attempt excluded _ again (nobody losers wider) e =
        IsReplacement-IsWider now losers excluded wider (again losers e)

    after_draw :
        (left attempt : ℕ) (excluded : List ℕ) {id : ℕ} (l : List Candidate)
        → ((losers : List ℕ)
            → attempts rows holdings segment_id max_per_asn left
                (suc attempt)
                faults
                shuffle
                now
                scores
                losers
              ≡ ok id
            → IsReplacement now losers id)
        → All (IsEligible rows now excluded) l
        → ◌≡◌ {A = Result SelectionError ℕ}
            (elim l [
              | [] ↦ err no_eligible_replacement
              | c ∷ rest ↦
                  if (faults attempt).scores
                  then err statement_failed
                  else elim (try_candidates rows holdings segment_id max_per_asn
                      (faults attempt).cap
                      0
                      (order_candidates_by_score_desc scores (c ∷ rest))
                      excluded) [
                        | chosen found ↦ ok found
                        | check_failed ↦ err statement_failed
                        | none_fits losers ↦
                            attempts rows holdings segment_id max_per_asn left
                              (suc attempt)
                              faults
                              shuffle
                              now
                              scores
                              losers
                      ]
            ])
            (ok id)
        → IsReplacement now excluded id
    after_draw left attempt excluded [] again h e = cc
    after_draw left attempt excluded (c ∷ rest) again h e =
        elim (Bool-cases (faults attempt).scores) [
          | inl bad ↦ absurd (cc (rw bad at e))
          | inr fine ↦
              let ordered = order_candidates_by_score_desc scores (c ∷ rest) in
              after_try left attempt excluded
                (try_candidates rows holdings segment_id max_per_asn (faults attempt).cap 0 ordered
                  excluded)
                again
                (try_candidates-Outcome now excluded (faults attempt).cap 0 ordered excluded
                  (All-order (IsEligible rows now excluded) scores (c ∷ rest) h))
                (rw fine at e)
        ]

    attempts-IsReplacement :
        (left attempt : ℕ) (excluded : List ℕ) {id : ℕ}
        → attempts rows holdings segment_id max_per_asn left attempt faults shuffle now scores
            excluded
          ≡ ok id
        → IsReplacement now excluded id
    unfolding attempts
    attempts-IsReplacement zero attempt excluded e = cc
    attempts-IsReplacement (suc left) attempt excluded e = elim (Bool-cases (faults attempt).draw) [
      | inl bad ↦ absurd (cc (rw bad at e))
      | inr fine ↦
          after_draw left attempt excluded
            (draw_two_active_candidates (shuffle attempt) now excluded rows)
            (λ losers again. attempts-IsReplacement left (suc attempt) losers again)
            (drawn-IsEligible attempt excluded) (rw fine at e)
    ]

    -- A replacement that is chosen stands for a row of the table whose status is ACTIVE, that has a linked
    -- account and a cooling period that ended before now, and that is not among the excluded ids; and the
    -- shards of the segment that are held on its system are fewer than the cap. A draw may take any of the
    -- rows that the query gives, in any order, and no other.
    pub select_replacement_provider-IsReplacement :
        (exclude_provider_ids : List ℕ) {id : ℕ}
        → select_replacement_provider rows holdings segment_id max_per_asn faults shuffle now scores
            exclude_provider_ids
          ≡ ok id
        → (chosen : IsReplacement now exclude_provider_ids id) × MeetsTerms now exclude_provider_ids
            chosen.from_row.row
          × (count_on_asn rows segment_id chosen.candidate.asn holdings < max_per_asn)
    unfolding select_replacement_provider asn_within_cap
    select_replacement_provider-IsReplacement exclude_provider_ids e =
        let chosen = attempts-IsReplacement 5 0 exclude_provider_ids e in
        (
          chosen,
          eligible-MeetsTerms now exclude_provider_ids chosen.from_row.row chosen.from_row.eligible,
          ground (arith, chosen.within_cap),
        )
