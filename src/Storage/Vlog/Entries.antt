-- ===== src/Storage/Vlog/Entries.antt =====
-- Logs of whole entries, in internal/storage/vlog.go. A chunk's id is the SHA-256 of its data, so that
-- `content` gives the data of an id.
use vyomanaut_v.Base.{
  ℕ, zero, suc, ◌+◌, ◌*◌, ◌≤◌, ◌≡◌, refl, sym, ap, ◌∙◌, List, [], ◌∷◌, ◌++◌, Option, some, length,
  take, drop, arith, get_elem?, All, append_assoc, length-append, take-append, drop-append,
  append-nil,
}
use vyomanaut_v.Base.Bytes.{Bytes, be_bytes, length-be_bytes}
use vyomanaut_v.Storage.{Platform, vlog_entry_size}
use vyomanaut_v.Storage.Vlog.{vlog_entry, entry_data}
use vyomanaut_v.Storage.Vlog.Recover.{content_hash}
use native.Mathlib.Nat.{suc-mul, zero-mul, zero-add, suc-add}

module _ {ℓ} {A : Type ℓ} where
  pub take_exact : (n : ℕ) (xs ys : List A) → length xs ≡ n → take n (xs ++ ys) ≡ xs
  take_exact n xs ys e = ap (λ (t : ℕ). take t (xs ++ ys)) (sym e) ∙ take-append xs ys

  pub drop_exact : (n : ℕ) (xs ys : List A) → length xs ≡ n → drop n (xs ++ ys) ≡ ys
  drop_exact n xs ys e = ap (λ (t : ℕ). drop t (xs ++ ys)) (sym e) ∙ drop-append xs ys

  pub take_all : (n : ℕ) (xs : List A) → length xs ≤ n → take n xs ≡ xs
  take_all zero [] h = refl
  take_all zero (x ∷ xs) h = absurd (omega arith)
  take_all (suc n) [] h = refl
  take_all (suc n) (x ∷ xs) h = ap (λ (t : List A). x ∷ t) (take_all n xs (omega arith))

  drop-nil : (n : ℕ) → ◌≡◌ {A = List A} (drop n []) []
  drop-nil zero = refl
  drop-nil (suc n) = refl

  pub drop-add : (m n : ℕ) (xs : List A) → drop (m + n) xs ≡ drop n (drop m xs)
  drop-add zero n xs = ap (λ (t : ℕ). drop t xs) (zero-add n)
  drop-add (suc m) n [] = ap (λ (t : ℕ). drop t []) (suc-add m n) ∙ sym (drop-nil n)
  drop-add (suc m) n (x ∷ xs) = ap (λ (t : ℕ). drop t (x ∷ xs)) (suc-add m n) ∙ drop-add m n xs

  pub get_elem?-append_left :
      (xs ys : List A) (k : ℕ) {a : A} → get_elem? xs k ≡ some a → get_elem? (xs ++ ys) k ≡ some a
  get_elem?-append_left [] ys k e = cc
  get_elem?-append_left (x ∷ xs) ys zero e = e
  get_elem?-append_left (x ∷ xs) ys (suc k) e = get_elem?-append_left xs ys k e

  pub get_elem?-append_last :
      (xs ys : List A) (a : A) → get_elem? (xs ++ a ∷ ys) (length xs) ≡ some a
  get_elem?-append_last [] ys a = refl
  get_elem?-append_last (x ∷ xs) ys a = get_elem?-append_last xs ys a

pub some-injective {ℓ} : {A : Type ℓ} {a b : A} → ◌≡◌ {A = Option A} (some a) (some b) → a ≡ b
some-injective h = cc

module _ (p : Platform) (content : Bytes → Bytes) where
  pub record IsChunk (id : Bytes) : Type 0 where
    pub id_length : length id ≡ 32
    pub data_length : length (content id) ≡ p.chunk_data_size
    pub id_is_hash : p.sha256 (content id) ≡ id

  abbrev pub entry_of : Bytes → Bytes
  entry_of id = vlog_entry p id (content id)

  unfoldable pub log_bytes : List Bytes → Bytes
  log_bytes [] = []
  log_bytes (id ∷ ids) = entry_of id ++ log_bytes ids

  pub length-entry_of : (id : Bytes) → IsChunk id → length (entry_of id) ≡ vlog_entry_size p
  unfolding vlog_entry
  length-entry_of id h =
      let c = content id in
      omega (
        arith,
        h.id_length,
        h.data_length,
        length-be_bytes 4 p.chunk_data_size,
        p.length-sha256 c,
        length-append id (be_bytes 4 p.chunk_data_size ++ (c ++ p.sha256 c)),
        length-append (be_bytes 4 p.chunk_data_size) (c ++ p.sha256 c),
        length-append c (p.sha256 c),
      )

  pub take-entry_of : (id : Bytes) → IsChunk id → take 32 (entry_of id) ≡ id
  unfolding vlog_entry
  take-entry_of id h =
      take_exact 32 id (be_bytes 4 p.chunk_data_size ++ (content id ++ p.sha256 (content id)))
        h.id_length

  drop-entry_of :
      (id : Bytes) → IsChunk id → drop 36 (entry_of id) ≡ content id ++ p.sha256 (content id)
  unfolding vlog_entry
  drop-entry_of id h =
      drop-add 32 4 (entry_of id)
      ∙ ap (drop 4) (
          drop_exact 32 id (be_bytes 4 p.chunk_data_size ++ (content id ++ p.sha256 (content id)))
            h.id_length)

  pub entry_data-entry_of : (id : Bytes) → IsChunk id → entry_data p (entry_of id) ≡ content id
  unfolding entry_data
  entry_data-entry_of id h =
      ap (take p.chunk_data_size) (drop-entry_of id h)
      ∙ take_exact p.chunk_data_size (content id) (p.sha256 (content id)) h.data_length

  pub content_hash-entry_of :
      (id : Bytes) → IsChunk id → content_hash p (entry_of id) ≡ p.sha256 (content id)
  unfolding content_hash
  content_hash-entry_of id h =
      ap (take 32) (
        drop-add 36 p.chunk_data_size (entry_of id)
        ∙ ap (drop p.chunk_data_size) (drop-entry_of id h)
        ∙ drop_exact p.chunk_data_size (content id) (p.sha256 (content id)) h.data_length)
      ∙ ap (take 32) (sym (append-nil (p.sha256 (content id))))
      ∙ take_exact 32 (p.sha256 (content id)) [] (p.length-sha256 (content id))

  pub length-log_bytes :
      (ids : List Bytes) → All IsChunk ids → length (log_bytes ids) ≡ length ids * vlog_entry_size p
  unfolding log_bytes
  length-log_bytes [] h = omega arith
  length-log_bytes (id ∷ ids) h = omega (
    arith,
    length-append (entry_of id) (log_bytes ids),
    length-entry_of id h.0,
    length-log_bytes ids h.1,
    suc-mul (length ids) (vlog_entry_size p),
  )

  pub log_bytes-append : (xs ys : List Bytes) → log_bytes (xs ++ ys) ≡ log_bytes xs ++ log_bytes ys
  unfolding log_bytes
  log_bytes-append [] ys = refl
  log_bytes-append (x ∷ xs) ys =
      ap (λ (t : Bytes). entry_of x ++ t) (log_bytes-append xs ys)
      ∙ sym (append_assoc (entry_of x) (log_bytes xs) (log_bytes ys))

  -- The entry that a position of the log holds is read at that multiple of the entry's size.
  pub read-log_bytes :
      (ids : List Bytes) (tail : Bytes) (k : ℕ) {id : Bytes}
      → All IsChunk ids
      → get_elem? ids k ≡ some id
      → take (vlog_entry_size p) (drop (k * vlog_entry_size p) (log_bytes ids ++ tail))
        ≡ entry_of id
  unfolding log_bytes
  read-log_bytes [] tail k h e = cc
  read-log_bytes (x ∷ ids) tail zero {id} h e =
      ap (λ (t : Bytes). take (vlog_entry_size p) t)
        (ap (λ (t : ℕ). drop t (log_bytes (x ∷ ids) ++ tail)) (zero-mul (vlog_entry_size p))
          ∙ append_assoc (entry_of x) (log_bytes ids) tail)
      ∙ take_exact (vlog_entry_size p) (entry_of x) (log_bytes ids ++ tail) (length-entry_of x h.0)
      ∙ ap entry_of (some-injective e)
  read-log_bytes (x ∷ ids) tail (suc k) {id} h e =
      ap (λ (t : Bytes). take (vlog_entry_size p) t)
        (ap (λ (t : ℕ). drop t (log_bytes (x ∷ ids) ++ tail))
            (omega (arith, suc-mul k (vlog_entry_size p)))
          ∙ drop-add (vlog_entry_size p) (k * vlog_entry_size p) (log_bytes (x ∷ ids) ++ tail)
          ∙ ap (drop (k * vlog_entry_size p)) (
              ap (drop (vlog_entry_size p)) (append_assoc (entry_of x) (log_bytes ids) tail)
              ∙ drop_exact (vlog_entry_size p) (entry_of x) (log_bytes ids ++ tail)
                  (length-entry_of x h.0)))
      ∙ read-log_bytes ids tail k h.1 e
