-- ===== src/Storage/Tests.antt =====
-- A small platform for runs of the chunk store of internal/storage: an association list as the index, a
-- chunk of two bytes, and a hash that pads with zeros.
mod Runs
use vyomanaut_v.Base.{
  All-map, ℕ, ◌+◌, ◌*◌, ◌^◌, ◌<◌, ◌≡◌, ◌≢◌, refl, sym, ap, ◌∙◌, inl, inr, ◌⊎◌, Bool, true, false,
  List, [], ◌∷◌, ◌++◌, map, Option, none, some, length, take, replicate, arith, All, if◌then◌else◌,
  subst, Bool-cases, is_some, length-append, length-take, length-replicate, min,
}
use vyomanaut_v.Base.Bytes.{Bytes, same, same_refl, same→≡}
use vyomanaut_v.Base.Result.{Result, ok, err}
use vyomanaut_v.Storage.{Platform, Calls, StorageError, contains, calm, vlog_entry_size}

abbrev pub Table : Type 0
Table = List (Bytes × Bytes)

abbrev pub table_get : Table → Bytes → Option Bytes
table_get [] key = none
table_get ((k, v) ∷ rest) key = if same k key then some v else table_get rest key

abbrev pub table_delete : Table → Bytes → Table
table_delete [] key = []
table_delete ((k, v) ∷ rest) key =
    let shorter = table_delete rest key in if same k key then shorter else (k, v) ∷ shorter

abbrev pub table_keys : Table → List Bytes
table_keys table = map (λ row. row.0) table

ne_same : (xs ys : Bytes) → xs ≢ ys → same xs ys ≡ false
ne_same xs ys h = elim (Bool-cases (same xs ys)) [ inl e ↦ absurd (h (same→≡ xs ys e)) | inr e ↦ e ]

pub get-put_self :
    (t : Table) (key value : Bytes) → table_get ((key, value) ∷ table_delete t key) key ≡ some value
get-put_self t key value = rw (same_refl key) refl

pub get-delete_self : (t : Table) (key : Bytes) → table_get (table_delete t key) key ≡ none
get-delete_self [] key = refl
get-delete_self ((k, v) ∷ rest) key = elim (Bool-cases (same k key)) [
  | inl e ↦ rw e (get-delete_self rest key)
  | inr e ↦ rw (e, e) (get-delete_self rest key)
]

pub get-delete_ne :
    (t : Table) (key other : Bytes)
    → key ≢ other
    → table_get (table_delete t key) other ≡ table_get t other
get-delete_ne [] key other h = refl
get-delete_ne ((k, v) ∷ rest) key other h = elim (Bool-cases (same k key)) [
  | inl e ↦
      rw (e, ne_same k other (λ same_key. h (sym (same→≡ k key e) ∙ same_key)))
        (get-delete_ne rest key other h)
  | inr e ↦ rw (e, get-delete_ne rest key other h) refl
]

pub get-put_ne :
    (t : Table) (key value other : Bytes)
    → key ≢ other
    → table_get ((key, value) ∷ table_delete t key) other ≡ table_get t other
get-put_ne t key value other h = rw (ne_same key other h) (get-delete_ne t key other h)

get-cons_some :
    (t : Table) (k v : Bytes) (key : Bytes)
    → is_some (table_get t key) ≡ true
    → is_some (table_get ((k, v) ∷ t) key) ≡ true
get-cons_some t k v key h = ground arith

pub keys_sound : (t : Table) → All (λ key. is_some (table_get t key) ≡ true) (table_keys t)
keys_sound [] = tt
keys_sound ((k, v) ∷ rest) = (
  rw (same_refl k) refl,
  All-map (λ key h. get-cons_some rest k v key h) (table_keys rest) (keys_sound rest),
)

pub keys_complete :
    (t : Table) (key : Bytes)
    → is_some (table_get t key) ≡ true
    → contains key (table_keys t) ≡ true
keys_complete [] key h = cc
keys_complete ((k, v) ∷ rest) key h = ground (arith, keys_complete rest key)

abbrev pub padded : Bytes → Bytes
padded bytes = take 32 (bytes ++ replicate 32 0)

pub length-padded : (bytes : Bytes) → length (padded bytes) ≡ 32
length-padded bytes =
    omega (arith, length-take 32 (bytes ++ replicate 32 0), length-append bytes (replicate 32 0))

abbrev pub platform : Platform
platform = record {
  Db = Table;
  get = table_get;
  put = λ t key value. (key, value) ∷ table_delete t key;
  delete = table_delete;
  keys = table_keys;
  get-put_self = get-put_self;
  get-put_ne = get-put_ne;
  get-delete_self = get-delete_self;
  get-delete_ne = get-delete_ne;
  keys_sound = keys_sound;
  keys_complete = keys_complete;
  sha256 = padded;
  length-sha256 = length-padded;
  chunk_data_size = 2;
  size_small = omega arith;
}
