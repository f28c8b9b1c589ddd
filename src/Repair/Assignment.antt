-- ===== src/Repair/Assignment.antt =====
-- internal/repair/assignment.go: the choice of a replacement provider. The random order of a draw is an
-- argument, a score is a number in the scores' order, and an autonomous system is a number; which
-- statements fail is an argument.
pub mod Eligible
pub mod Rows
use vyomanaut_v.Base.{
  ℕ, zero, suc, ◌+◌, Bool, true, false, not, ◌&&◌, List, [], ◌∷◌, Option, none, some, ltb, leb,
  ◌==◌, if◌then◌else◌, take, is_some,
}
use vyomanaut_v.Base.Result.{Result, ok, err}
use vyomanaut_v.Scoring.Passes.{Status, pending_onboarding, vetting, active, departed}
use vyomanaut_v.Repair.Departure.{AssignmentStatus, assigned, repairing, pending_deletion, deleted}

abbrev pub max_replacement_selection_attempts : ℕ
max_replacement_selection_attempts = 5

pub record ProviderRow : Type 0 where
  pub provider_id : ℕ
  pub asn : ℕ
  pub status : Status
  pub razorpay_linked_account_id : Option ℕ
  pub razorpay_cooling_until : Option ℕ

pub record Holding : Type 0 where
  pub segment_id : ℕ
  pub provider_id : ℕ
  pub status : AssignmentStatus

pub record Candidate : Type 0 where
  pub provider_id : ℕ
  pub asn : ℕ

pub data SelectionError : Type 0 where
  no_eligible_replacement statement_failed : SelectionError

-- The failures of one attempt; those of the checks of the cap by the candidate's position.
pub record AttemptFaults : Type 0 where
  pub draw : Bool
  pub scores : Bool
  pub cap : ℕ → Bool

abbrev pub has_id : ℕ → List ℕ → Bool
has_id id [] = false
has_id id (x ∷ ids) = if x == id then true else has_id id ids

abbrev pub is_active : Status → Bool
is_active pending_onboarding = false
is_active vetting = false
is_active active = true
is_active departed = false

abbrev pub has_cooled : ℕ → Option ℕ → Bool
has_cooled now none = false
has_cooled now (some until) = ltb until now

-- The WHERE clause of the draw.
unfoldable pub is_eligible : ℕ → List ℕ → ProviderRow → Bool
is_eligible now excluded p =
    is_active p.status
    && is_some p.razorpay_linked_account_id
    && has_cooled now p.razorpay_cooling_until
    && not (has_id p.provider_id excluded)

unfoldable pub eligible_rows : ℕ → List ℕ → List ProviderRow → List Candidate
eligible_rows now excluded [] = []
eligible_rows now excluded (p ∷ rows) =
    let rest = eligible_rows now excluded rows in
    if is_eligible now excluded p
    then record { provider_id = p.provider_id; asn = p.asn } ∷ rest
    else rest

unfoldable pub draw_two_active_candidates :
    (List Candidate → List Candidate) → ℕ → List ℕ → List ProviderRow → List Candidate
draw_two_active_candidates shuffle now excluded rows =
    take 2 (shuffle (eligible_rows now excluded rows))

-- No row of the view is the score 0.
abbrev pub score_of : List (ℕ × ℕ) → ℕ → ℕ
score_of [] id = 0
score_of ((x, score) ∷ scores) id = if x == id then score else score_of scores id

-- The stable sort, highest score first.
unfoldable pub place : List (ℕ × ℕ) → Candidate → List Candidate → List Candidate
place scores c [] = c ∷ []
place scores c (d ∷ rest) =
    let later = place scores c rest in
    if ltb (score_of scores c.provider_id) (score_of scores d.provider_id)
    then d ∷ later
    else c ∷ d ∷ rest

unfoldable pub order_candidates_by_score_desc : List (ℕ × ℕ) → List Candidate → List Candidate
order_candidates_by_score_desc scores [] = []
order_candidates_by_score_desc scores (c ∷ rest) =
    place scores c (order_candidates_by_score_desc scores rest)

abbrev pub asn_of : List ProviderRow → ℕ → Option ℕ
asn_of [] id = none
asn_of (p ∷ rows) id = if p.provider_id == id then some p.asn else asn_of rows id

abbrev pub is_asn : ℕ → Option ℕ → Bool
is_asn asn none = false
is_asn asn (some a) = a == asn

abbrev pub is_live : AssignmentStatus → Bool
is_live assigned = true
is_live repairing = true
is_live pending_deletion = false
is_live deleted = false

-- The COUNT of the segment's live shards on providers of an autonomous system.
unfoldable pub count_on_asn : List ProviderRow → ℕ → ℕ → List Holding → ℕ
count_on_asn rows segment_id asn [] = 0
count_on_asn rows segment_id asn (h ∷ holdings) =
    let rest = count_on_asn rows segment_id asn holdings in
    if (h.segment_id == segment_id) && is_live h.status && is_asn asn (asn_of rows h.provider_id)
    then suc rest
    else rest

unfoldable pub asn_within_cap : List ProviderRow → List Holding → ℕ → ℕ → ℕ → Bool
asn_within_cap rows holdings segment_id asn max_per_asn =
    leb (count_on_asn rows segment_id asn holdings + 1) max_per_asn

module _ (rows : List ProviderRow) (holdings : List Holding) (segment_id max_per_asn : ℕ) where
  -- The provider found, or the exclusions after the losers of this attempt.
  pub data Tried : Type 0 where
    chosen : ℕ → Tried
    none_fits : List ℕ → Tried
    check_failed : Tried

  unfoldable pub try_candidates : (ℕ → Bool) → ℕ → List Candidate → List ℕ → Tried
  try_candidates cap position [] excluded = none_fits excluded
  try_candidates cap position (c ∷ rest) excluded =
      let others = try_candidates cap (suc position) rest (c.provider_id ∷ excluded) in
      if cap position
      then check_failed
      else if asn_within_cap rows holdings segment_id c.asn max_per_asn
      then chosen c.provider_id
      else others

  unfoldable pub attempts :
      ℕ
      → ℕ
      → (ℕ → AttemptFaults)
      → (ℕ → List Candidate → List Candidate)
      → ℕ
      → List (ℕ × ℕ)
      → List ℕ
      → Result SelectionError ℕ
  attempts zero attempt faults shuffle now scores excluded = err no_eligible_replacement
  attempts (suc left) attempt faults shuffle now scores excluded =
      if (faults attempt).draw
      then err statement_failed
      else elim (draw_two_active_candidates (shuffle attempt) now excluded rows) [
        | [] ↦ err no_eligible_replacement
        | c ∷ rest ↦
            if (faults attempt).scores
            then err statement_failed
            else elim (try_candidates (faults attempt).cap 0
                (order_candidates_by_score_desc scores (c ∷ rest)) excluded) [
                  | chosen id ↦ ok id
                  | check_failed ↦ err statement_failed
                  | none_fits losers ↦ attempts left (suc attempt) faults shuffle now scores losers
                ]
      ]

  unfoldable pub select_replacement_provider :
      (ℕ → AttemptFaults)
      → (ℕ → List Candidate → List Candidate)
      → ℕ
      → List (ℕ × ℕ)
      → List ℕ
      → Result SelectionError ℕ
  select_replacement_provider faults shuffle now scores exclude_provider_ids =
      attempts max_replacement_selection_attempts 0 faults shuffle now scores exclude_provider_ids
