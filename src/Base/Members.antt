-- ===== src/Base/Members.antt =====
-- The members of a list.
use mathlib.Core.List.{List, [], ◌∷◌}
use vyomanaut_v.Base.Lists.{All}

pub data In {ℓ} {A : Type ℓ} (a : A) : List A → Type ℓ where
  here : {rest : List A} → In a (a ∷ rest)
  there : {first : A} {rest : List A} → In a rest → In a (first ∷ rest)

module _ {ℓ κ} {A : Type ℓ} (P : A → Type κ) where
  pub All-In : (xs : List A) {a : A} → All P xs → In a xs → P a
  All-In [] h i = elim i [ ]
  All-In (x ∷ xs) h here = h.0
  All-In (x ∷ xs) h (there i) = All-In xs h.1 i

  pub In-All : (xs : List A) → ((a : A) → In a xs → P a) → All P xs
  In-All [] h = tt
  In-All (x ∷ xs) h = (h x here, In-All xs (λ a i. h a (there i)))
