-- ===== src/Erasure/Coder/Survivors.antt =====
-- The shards that survive, and the concatenation at the end of `DecodeSegment` (engine.go).
use vyomanaut_v.Base.{
  ℕ, zero, suc, ◌+◌, ◌*◌, ◌<◌, ◌≤◌, ◌≡◌, refl, sym, ap, ap₂, ◌∙◌, true, List, [], ◌∷◌, ◌++◌, Option,
  none, some, arith, length, get_or, replicate, drop, All, All-take, All-drop, length-take,
  length-drop, take-append-drop,
}
use native.Mathlib.Nat.{add-zero}
use vyomanaut_v.Erasure.Field.{IsByte}
use vyomanaut_v.Erasure.Row.{Bytes}
use vyomanaut_v.Erasure.Matrix.{Matrix, get_row}
use vyomanaut_v.Erasure.Matrix.Rows.{IsRow}
use vyomanaut_v.Erasure.Coder.{accumulate, fill_missing, all_present, split_package, concat_shards}
use vyomanaut_v.Erasure.Coder.Shards.{From, Sized}

-- The received shards are those sent, with some of them lost.
abbrev pub Survives : List (List ℕ) → List (Option (List ℕ)) → Type 0
Survives [] [] = Unit
Survives [] (r ∷ received) = ⊥
Survives (s ∷ sent) [] = ⊥
Survives (s ∷ sent) (none ∷ received) = Survives sent received
Survives (s ∷ sent) (some r ∷ received) = (r ≡ s) × Survives sent received

pub length-Survives :
    (sent : List (List ℕ)) (received : List (Option (List ℕ)))
    → Survives sent received
    → length received ≡ length sent
length-Survives [] [] h = refl
length-Survives [] (r ∷ received) h = absurd h
length-Survives (s ∷ sent) [] h = absurd h
length-Survives (s ∷ sent) (none ∷ received) h = ap suc (length-Survives sent received h)
length-Survives (s ∷ sent) (some r ∷ received) h = ap suc (length-Survives sent received h.1)

later : {A : Type 0} (f : ℕ → A) (i k : ℕ) {s : A} → s ≡ f (i + suc k) → s ≡ f (suc i + k)
later f i k e = e ∙ ap f {x = i + suc k} {y = suc i + k} (omega arith)

pub From-Survives :
    (f : ℕ → List ℕ) (i : ℕ) (sent : List (List ℕ)) (received : List (Option (List ℕ)))
    → ((k : ℕ) → k < length sent → get_or sent k [] ≡ f (i + k))
    → Survives sent received
    → From f i received
From-Survives f i [] [] e h = tt
From-Survives f i [] (r ∷ received) e h = absurd h
From-Survives f i (s ∷ sent) [] e h = absurd h
From-Survives f i (s ∷ sent) (none ∷ received) e h =
    From-Survives f (suc i) sent received (λ k hk. later f i k (e (suc k) (omega arith))) h
From-Survives f i (s ∷ sent) (some r ∷ received) e h = (
  h.0 ∙ e 0 (omega arith) ∙ ap f (add-zero i),
  From-Survives f (suc i) sent received (λ k hk. later f i k (e (suc k) (omega arith))) h.1,
)

pub Sized-From :
    (f : ℕ → List ℕ) (size i : ℕ) (received : List (Option (List ℕ)))
    → ((j : ℕ) → j < i + length received → length (f j) ≡ size)
    → From f i received
    → Sized size received
Sized-From f size i [] l h = tt
Sized-From f size i (none ∷ received) l h =
    Sized-From f size (suc i) received (λ j hj. l j (omega arith)) h
Sized-From f size i (some r ∷ received) l h = (
  ap (λ (t : List ℕ). length t) h.0 ∙ l i (omega arith),
  Sized-From f size (suc i) received (λ j hj. l j (omega arith)) h.1,
)

-- The shards `i`, `i+1`, … one after the other.
pub joined : (ℕ → List ℕ) → ℕ → ℕ → List ℕ
joined f zero i = []
joined f (suc k) i = f i ++ joined f k (suc i)

pub joined_split :
    (f : ℕ → List ℕ) (size k i : ℕ) (content : List ℕ)
    → length content ≡ k * size
    → ((j : ℕ) → j < k → f (i + j) ≡ get_or (split_package size k content) j [])
    → joined f k i ≡ content
unfolding joined split_package
joined_split f size zero i [] l e = refl
joined_split f size zero i (c ∷ content) l e = absurd (omega arith)
joined_split f size (suc k) i content l e =
    ap₂ (λ (x y : List ℕ). x ++ y) (ap f (sym (add-zero i)) ∙ e 0 (omega arith))
      (joined_split f size k (suc i) (drop size content) (length-drop size content ∙ omega arith)
        (λ j hj. sym (later f i j (sym (e (suc j) (omega arith))))))
    ∙ take-append-drop size content

pub split_package-IsRow :
    (size k : ℕ) (content : List ℕ)
    → length content ≡ k * size
    → Bytes content
    → (length (split_package size k content) ≡ k) × All (IsRow size) (split_package size k content)
unfolding split_package
split_package-IsRow size zero content l h = (refl, tt)
split_package-IsRow size (suc k) content l h =
    let (n, rows) =
      split_package-IsRow size k (drop size content) (length-drop size content ∙ omega arith)
        (All-drop IsByte size content h) in
    (ap suc n, ((length-take size content ∙ omega arith, All-take IsByte size content h), rows))

pub concat_present :
    (f : ℕ → List ℕ) (k i : ℕ) (received : List (Option (List ℕ)))
    → From f i received
    → all_present k received ≡ true
    → concat_shards k received ≡ joined f k i
unfolding concat_shards all_present joined
concat_present f zero i received h a = refl
concat_present f (suc k) i [] h a = cc
concat_present f (suc k) i (none ∷ received) h a = cc
concat_present f (suc k) i (some s ∷ received) h a =
    ap₂ (λ (x y : List ℕ). x ++ y) h.0 (concat_present f k (suc i) received h.1 a)

pub concat_filled :
    (f : ℕ → List ℕ) (size k i : ℕ) (inverse : Matrix) (sub : List (List ℕ))
    (received : List (Option (List ℕ)))
    → From f i received
    → k ≤ length received
    → ((j : ℕ) → j < i + k → accumulate (get_row inverse j) sub (replicate size 0) ≡ f j)
    → concat_shards k (fill_missing k i size inverse sub received) ≡ joined f k i
unfolding concat_shards fill_missing joined
concat_filled f size zero i inverse sub [] h l e = refl
concat_filled f size zero i inverse sub (s ∷ received) h l e = refl
concat_filled f size (suc k) i inverse sub [] h l e = absurd (omega arith)
concat_filled f size (suc k) i inverse sub (none ∷ received) h l e =
    ap₂ (λ (x y : List ℕ). x ++ y) (e i (omega arith))
      (concat_filled f size k (suc i) inverse sub received h (omega arith)
        (λ j hj. e j (omega arith)))
concat_filled f size (suc k) i inverse sub (some s ∷ received) h l e =
    ap₂ (λ (x y : List ℕ). x ++ y) h.0
      (concat_filled f size k (suc i) inverse sub received h.1 (omega arith)
        (λ j hj. e j (omega arith)))
