-- ===== src/Storage/Chunks/Kept.antt =====
-- Lists of ids for RunGC of internal/storage/vlog.go: membership, and the ids of a log that are kept.
use vyomanaut_v.Base.{
  ℕ, zero, suc, ◌≤◌, ◌≡◌, inl, inr, refl, sym, ap, ap₂, ◌∙◌, Bool, true, false, List, [], ◌∷◌, ◌++◌,
  map, some, length, replicate, arith, get_elem?, All, if◌then◌else◌, subst, Bool-cases,
}
use vyomanaut_v.Base.Bytes.{Bytes, same, same_refl, same→≡}
use vyomanaut_v.Storage.{contains}
use vyomanaut_v.Storage.Index.{as_id}
use vyomanaut_v.Storage.Vlog.Entries.{some-injective, take_exact}

-- The ids of a log that pass a test, in their order.
unfoldable pub kept : (Bytes → Bool) → List Bytes → List Bytes
kept test [] = []
kept test (id ∷ ids) = let rest = kept test ids in if test id then id ∷ rest else rest

pub kept-snoc_true :
    (test : Bytes → Bool) (ids : List Bytes) (id : Bytes)
    → test id ≡ true
    → kept test (ids ++ id ∷ []) ≡ kept test ids ++ id ∷ []
unfolding kept
kept-snoc_true test [] id h = rw h refl
kept-snoc_true test (x ∷ ids) id h = elim (Bool-cases (test x)) [
  | inl e ↦ rw (e, kept-snoc_true test ids id h) refl
  | inr e ↦ rw (e, kept-snoc_true test ids id h) refl
]

pub kept-snoc_false :
    (test : Bytes → Bool) (ids : List Bytes) (id : Bytes)
    → test id ≡ false
    → kept test (ids ++ id ∷ []) ≡ kept test ids
unfolding kept
kept-snoc_false test [] id h = rw h refl
kept-snoc_false test (x ∷ ids) id h = elim (Bool-cases (test x)) [
  | inl e ↦ rw (e, kept-snoc_false test ids id h) refl
  | inr e ↦ rw (e, kept-snoc_false test ids id h) refl
]

pub contains-snoc :
    (key : Bytes) (ids : List Bytes) (id : Bytes)
    → contains key (ids ++ id ∷ []) ≡ (if same id key then true else contains key ids)
contains-snoc key [] id = refl
contains-snoc key (x ∷ ids) id = ground (arith, contains-snoc key ids id)

pub contains-snoc_ne :
    (key : Bytes) (ids : List Bytes) (id : Bytes)
    → same id key ≡ false
    → contains key (ids ++ id ∷ []) ≡ contains key ids
contains-snoc_ne key ids id h =
    contains-snoc key ids id ∙ ap (λ (t : Bool). if t then true else contains key ids) h

pub contains-snoc_false :
    (key : Bytes) (ids : List Bytes) (id : Bytes)
    → contains key (ids ++ id ∷ []) ≡ false
    → (same id key ≡ false) × (contains key ids ≡ false)
contains-snoc_false key ids id h = ground (arith, contains-snoc key ids id)

pub kept_ext :
    (f g : Bytes → Bool) (ids : List Bytes) → ((id : Bytes) → f id ≡ g id) → kept f ids ≡ kept g ids
unfolding kept
kept_ext f g [] h = refl
kept_ext f g (x ∷ ids) h = rw (h x, kept_ext f g ids h) refl

pub length-kept : (test : Bytes → Bool) (ids : List Bytes) → length (kept test ids) ≤ length ids
unfolding kept
length-kept test [] = omega arith
length-kept test (x ∷ ids) = ground (arith, length-kept test ids)

pub All-kept {κ} :
    (P : Bytes → Type κ) (test : Bytes → Bool) (ids : List Bytes)
    → All P ids
    → All P (kept test ids)
unfolding kept
All-kept P test [] h = tt
All-kept P test (x ∷ ids) h = elim (Bool-cases (test x)) [
  | inl e ↦ rw e (h.0, All-kept P test ids h.1)
  | inr e ↦ rw e (All-kept P test ids h.1)
]

pub All-contains {κ} :
    (P : Bytes → Type κ) (key : Bytes) (ids : List Bytes)
    → All P ids
    → contains key ids ≡ true
    → P key
All-contains P key [] h e = cc
All-contains P key (x ∷ ids) h e = elim (Bool-cases (same x key)) [
  | inl i ↦ subst P (same→≡ x key i) h.0
  | inr i ↦
      All-contains P key ids h.1
        (sym (ap (λ (t : Bool). if t then true else contains key ids) i) ∙ e)
]

pub contains-get_elem? :
    (ids : List Bytes) (k : ℕ) (id : Bytes) → get_elem? ids k ≡ some id → contains id ids ≡ true
contains-get_elem? [] k id e = cc
contains-get_elem? (x ∷ ids) zero id e =
    subst (λ (t : Bytes). contains t (x ∷ ids) ≡ true) (some-injective e) (rw (same_refl x) refl)
contains-get_elem? (x ∷ ids) (suc k) id e = ground (arith, contains-get_elem? ids k id e)

as_id-length : (key : Bytes) → length key ≡ 32 → as_id key ≡ key
unfolding as_id
as_id-length key h = take_exact 32 key (replicate 32 0) h

pub map-as_id : (keys : List Bytes) → All (λ key. length key ≡ 32) keys → map as_id keys ≡ keys
map-as_id [] h = refl
map-as_id (key ∷ keys) h =
    ap₂ (λ (a : Bytes) (l : List Bytes). a ∷ l) (as_id-length key h.0) (map-as_id keys h.1)
