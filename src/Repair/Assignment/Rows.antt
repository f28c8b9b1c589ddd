-- ===== src/Repair/Assignment/Rows.antt =====
-- The rows that the query of internal/repair/assignment.go draws from, and the order it tries them in.
use vyomanaut_v.Base.{
  Bool, Option, none, some, is_some, ◌&&◌, not, ◌<◌, ltb→lt, ==_refl, ℕ, ◌≡◌, refl, true, false,
  List, [], ◌∷◌, ltb, All, All-map, Bool-cases, arith, inl, inr,
}
use vyomanaut_v.Scoring.Passes.{Status, pending_onboarding, vetting, active, departed}
use vyomanaut_v.Base.Members.{In, here, there}
use vyomanaut_v.Repair.Assignment.{
  is_active, has_cooled, ProviderRow, Candidate, has_id, is_eligible, eligible_rows, place,
  score_of, order_candidates_by_score_desc,
}

-- A candidate stands for an eligible row.
pub record IsEligible (rows : List ProviderRow) (now : ℕ) (excluded : List ℕ) (c : Candidate)
    : Type 0 where
  pub row : ProviderRow
  pub is_row : In row rows
  pub same_id : row.provider_id ≡ c.provider_id
  pub same_asn : row.asn ≡ c.asn
  pub eligible : is_eligible now excluded row ≡ true

more_rows :
    (now : ℕ) (excluded : List ℕ) (p : ProviderRow) (rows : List ProviderRow) (l : List Candidate)
    → All (IsEligible rows now excluded) l
    → All (IsEligible (p ∷ rows) now excluded) l
more_rows now excluded p rows l h =
    All-map
      (λ c h. record {
        row = h.row;
        is_row = there h.is_row;
        same_id = h.same_id;
        same_asn = h.same_asn;
        eligible = h.eligible;
      })
      l h

pub eligible_rows-IsEligible :
    (now : ℕ) (excluded : List ℕ) (rows : List ProviderRow)
    → All (IsEligible rows now excluded) (eligible_rows now excluded rows)
unfolding eligible_rows
eligible_rows-IsEligible now excluded [] = tt
eligible_rows-IsEligible now excluded (p ∷ rows) =
    let later =
      more_rows now excluded p rows (eligible_rows now excluded rows)
        (eligible_rows-IsEligible now excluded rows) in
    elim (Bool-cases (is_eligible now excluded p)) [
      | inl fits ↦ rw fits (
        record { row = p; is_row = here; same_id = refl; same_asn = refl; eligible = fits },
        later,
      )
      | inr not_fits ↦ rw not_fits (later)
    ]

module _ {κ} (P : Candidate → Type κ) (scores : List (ℕ × ℕ)) where
  All-place : (c : Candidate) (l : List Candidate) → P c → All P l → All P (place scores c l)
  unfolding place
  All-place c [] h hs = (h, tt)
  All-place c (d ∷ rest) h hs =
      elim (Bool-cases (ltb (score_of scores c.provider_id) (score_of scores d.provider_id))) [
        | inl lower ↦ rw lower (hs.0, All-place c rest h hs.1)
        | inr higher ↦ rw higher (h, hs)
      ]

  pub All-order : (l : List Candidate) → All P l → All P (order_candidates_by_score_desc scores l)
  unfolding order_candidates_by_score_desc
  All-order [] hs = tt
  All-order (c ∷ rest) hs =
      All-place c (order_candidates_by_score_desc scores rest) hs.0 (All-order rest hs.1)

-- excluding more keeps a row out that was kept out before
unfoldable pub IsWider : List ℕ → List ℕ → Type 0
IsWider losers excluded = (id : ℕ) → has_id id losers ≡ false → has_id id excluded ≡ false

pub IsWider-cons :
    (x : ℕ) (losers excluded : List ℕ) → IsWider losers (x ∷ excluded) → IsWider losers excluded
unfolding IsWider
IsWider-cons x losers excluded h id out = ground (arith, h id out)

pub eligible-IsWider :
    (now : ℕ) (losers excluded : List ℕ) (p : ProviderRow)
    → IsWider losers excluded
    → is_eligible now losers p ≡ true
    → is_eligible now excluded p ≡ true
unfolding is_eligible IsWider
eligible-IsWider now losers excluded p wider e = ground (arith, wider p.provider_id)

-- What a provider needs to be given a shard.
pub record MeetsTerms (now : ℕ) (excluded : List ℕ) (p : ProviderRow) : Type 0 where
  pub is_active_provider : p.status ≡ active
  pub linked : (account : ℕ) × (p.razorpay_linked_account_id ≡ some account)
  pub cooled : (until : ℕ) × (p.razorpay_cooling_until ≡ some until) × (until < now)
  pub not_excluded : ¬ In p.provider_id excluded

In-has_id : (id : ℕ) (ids : List ℕ) → In id ids → has_id id ids ≡ true
In-has_id id [] i = elim i [ ]
In-has_id id (x ∷ ids) here = rw (==_refl id) refl
In-has_id id (x ∷ ids) (there i) = ground (arith, In-has_id id ids i)

active_status : (s : Status) → is_active s ≡ true → s ≡ active
active_status pending_onboarding h = cc
active_status vetting h = cc
active_status active h = refl
active_status departed h = cc

linked_account : (o : Option ℕ) → is_some o ≡ true → (account : ℕ) × (o ≡ some account)
linked_account none h = cc
linked_account (some account) h = (account, refl)

cooled_before :
    (now : ℕ) (o : Option ℕ)
    → has_cooled now o ≡ true
    → (until : ℕ) × (o ≡ some until) × (until < now)
cooled_before now none h = cc
cooled_before now (some until) h = (until, refl, ltb→lt until now h)

terms :
    (a b c d : Bool)
    → (a && b && c && not d) ≡ true
    → (a ≡ true) × (b ≡ true) × (c ≡ true) × (d ≡ false)
terms true true true true h = cc
terms true true true false h = (refl, refl, refl, refl)
terms true true false d h = cc
terms true false c d h = cc
terms false b c d h = cc

pub eligible-MeetsTerms :
    (now : ℕ) (excluded : List ℕ) (p : ProviderRow)
    → is_eligible now excluded p ≡ true
    → MeetsTerms now excluded p
unfolding is_eligible
eligible-MeetsTerms now excluded p e =
    let (a, b, c, d) =
      terms (is_active p.status) (is_some p.razorpay_linked_account_id)
        (has_cooled now p.razorpay_cooling_until) (has_id p.provider_id excluded) e in
    record {
      is_active_provider = active_status p.status a;
      linked = linked_account p.razorpay_linked_account_id b;
      cooled = cooled_before now p.razorpay_cooling_until c;
      not_excluded = λ i. cc (In-has_id p.provider_id excluded i, d);
    }
