-- ===== src/Storage/Chunks/Collection.antt =====
-- RunGC of internal/storage/vlog.go on the set of chunks: what its loop keeps true.
pub mod Gc
use vyomanaut_v.Base.{
  ℕ, zero, suc, ◌+◌, ◌*◌, ◌%◌, ◌^◌, ◌<◌, ◌≤◌, ◌≡◌, ◌⊎◌, inl, inr, refl, sym, ap, ◌∙◌, Bool, true,
  false, List, [], ◌∷◌, ◌++◌, map, Option, none, some, length, take, replicate, arith, get_elem?,
  All, if◌then◌else◌, subst, is_some, length-append, Bool-cases, append-nil, le→ltb, ap₂,
}
use native.Mathlib.Nat.{add-mul}
use vyomanaut_v.Base.Bytes.{Bytes, same, same_refl, same→≡}
use vyomanaut_v.Storage.{Platform, contains, vlog_entry_size, calm}
use vyomanaut_v.Storage.Index.{index_value, index_put}
use vyomanaut_v.Storage.Vlog.Collect.{Compacted, GcTurn, go_on, copy_live, relocated, gc_turn}
use vyomanaut_v.Storage.Vlog.Entries.{
  IsChunk, entry_of, log_bytes, length-entry_of, take-entry_of, get_elem?-append_left,
  get_elem?-append_last,
}
use vyomanaut_v.Storage.Chunks.Kept.{
  kept, kept-snoc_true, kept-snoc_false, contains-snoc_ne, contains-snoc_false,
}
use vyomanaut_v.Storage.Chunks.Append.{same_ne, log_bytes-snoc}

module _ (p : Platform) (content : Bytes → Bytes) where
  -- The index has the place of an entry of a log for the id.
  abbrev pub Placed : p.Db → List Bytes → Bytes → Type 0
  Placed db logged id =
      (k : ℕ) × (p.get db id ≡ some (index_value (k * vlog_entry_size p) p.chunk_data_size))
      × (get_elem? logged k ≡ some id)

  -- After the entries of `before`: the compacted file has those of them that live, the index has the
  -- new places of these ids and what it had of the others.
  pub record Compacts (live : List Bytes) (db : p.Db) (before : List Bytes) (c : Compacted p)
      : Type 0 where
    pub file_is : c.file ≡ log_bytes p content (kept (λ id. contains id live) before)
    pub head_is : c.new_head ≡ length (kept (λ id. contains id live) before) * vlog_entry_size p
    pub moved :
        (id : Bytes)
        → contains id live ≡ true
        → contains id before ≡ true
        → Placed c.index (kept (λ j. contains j live) before) id
    pub unmoved :
        (id : Bytes)
        → (contains id live ≡ false) ⊎ (contains id before ≡ false)
        → p.get c.index id ≡ p.get db id

  abbrev relocate : Compacted p → Bytes → Compacted p
  relocate c id = record {
    index = p.put c.index id (index_value c.new_head p.chunk_data_size);
    file = c.file ++ entry_of p content id;
    new_head = (c.new_head + vlog_entry_size p) % 2 ^ 64;
  }

  turn_live :
      (live : List Bytes) (c : Compacted p) (id : Bytes)
      → IsChunk p content id
      → contains id live ≡ true
      → gc_turn p calm live c (entry_of p content id, false) ≡ go_on (relocate c id)
  unfolding gc_turn copy_live relocated index_put
  turn_live live c id h e =
      rw
        (
          length-entry_of p content id h,
          le→ltb (vlog_entry_size p) (vlog_entry_size p) (omega arith),
          take-entry_of p content id h,
          e,
        )
        refl

  turn_dead :
      (live : List Bytes) (c : Compacted p) (id : Bytes)
      → IsChunk p content id
      → contains id live ≡ false
      → gc_turn p calm live c (entry_of p content id, false) ≡ go_on c
  unfolding gc_turn
  turn_dead live c id h e =
      rw
        (
          length-entry_of p content id h,
          le→ltb (vlog_entry_size p) (vlog_entry_size p) (omega arith),
          take-entry_of p content id h,
          e,
        )
        refl

  Compacts-dead :
      (live : List Bytes) (db : p.Db) (before : List Bytes) (c : Compacted p) (id : Bytes)
      → Compacts live db before c
      → contains id live ≡ false
      → Compacts live db (before ++ id ∷ []) c
  Compacts-dead live db before c id h e =
      let same_log = kept-snoc_false (λ j. contains j live) before id e in
      record {
        file_is = h.file_is ∙ ap (log_bytes p content) (sym same_log);
        head_is = h.head_is ∙ ap (λ (t : List Bytes). length t * vlog_entry_size p) (sym same_log);
        moved = λ j lives seen. elim (Bool-cases (same id j)) [
          | inl i ↦ absurd (cc (same→≡ id j i, e, lives))
          | inr i ↦ rw same_log (h.moved j lives (sym (contains-snoc_ne j before id i) ∙ seen))
        ];
        unmoved = λ j why. h.unmoved j (elim why [
          | inl dead ↦ inl dead
          | inr unseen ↦ inr (contains-snoc_false j before id unseen).1
        ]);
      }

  Placed-new :
      (live : List Bytes) (db : p.Db) (before : List Bytes) (c : Compacted p) (id : Bytes)
      → Compacts live db before c
      → Placed (relocate c id).index (kept (λ j. contains j live) before ++ id ∷ []) id
  Placed-new live db before c id h =
      let log = kept (λ j. contains j live) before in
      (
        length log,
        p.get-put_self c.index id (index_value c.new_head p.chunk_data_size)
            ∙ ap (λ (t : ℕ). some (index_value t p.chunk_data_size)) h.head_is,
        get_elem?-append_last log [] id,
      )

  Placed-old :
      (live : List Bytes) (db : p.Db) (before : List Bytes) (c : Compacted p) (id other : Bytes)
      → Compacts live db before c
      → same id other ≡ false
      → contains other live ≡ true
      → contains other before ≡ true
      → Placed (relocate c id).index (kept (λ j. contains j live) before ++ id ∷ []) other
  Placed-old live db before c id other h ne lives seen =
      let (k, at, log) = h.moved other lives seen in
      (
        k,
        p.get-put_ne c.index id (index_value c.new_head p.chunk_data_size) other
              (same_ne id other ne)
            ∙ at,
        get_elem?-append_left (kept (λ j. contains j live) before) (id ∷ []) k log,
      )

  live_ne :
      (live before : List Bytes) (id other : Bytes)
      → contains id live ≡ true
      → (contains other live ≡ false) ⊎ (contains other (before ++ id ∷ []) ≡ false)
      → (same id other ≡ false) × ((contains other live ≡ false) ⊎ (contains other before ≡ false))
  live_ne live before id other e (inr unseen) =
      let (ne, old) = contains-snoc_false other before id unseen in (ne, inr old)
  live_ne live before id other e (inl dead) = elim (Bool-cases (same id other)) [
    | inl i ↦ absurd (cc (same→≡ id other i, e, dead))
    | inr i ↦ (i, inl dead)
  ]

  Compacts-live :
      (live : List Bytes) (db : p.Db) (before : List Bytes) (c : Compacted p) (id : Bytes)
      → Compacts live db before c
      → contains id live ≡ true
      → length (kept (λ j. contains j live) before) * vlog_entry_size p + vlog_entry_size p < 2 ^ 63
      → Compacts live db (before ++ id ∷ []) (relocate c id)
  Compacts-live live db before c id h e fits =
      let log = kept (λ j. contains j live) before in
      let longer = kept-snoc_true (λ j. contains j live) before id e in
      record {
        file_is =
            ap (λ (t : Bytes). t ++ entry_of p content id) h.file_is
            ∙ sym (log_bytes-snoc p content log id)
            ∙ ap (log_bytes p content) (sym longer);
        head_is = rw longer (
            omega (
              arith,
              h.head_is,
              ap (λ (t : ℕ). t * vlog_entry_size p) (length-append log (id ∷ [])),
              add-mul (length log) 1 (vlog_entry_size p),
            ));
        moved = λ j lives seen. rw longer (elim (Bool-cases (same id j)) [
          | inl i ↦
              subst (λ (t : Bytes). Placed (relocate c id).index (log ++ id ∷ []) t) (same→≡ id j i)
                (Placed-new live db before c id h)
          | inr i ↦
              Placed-old live db before c id j h i lives
                (sym (contains-snoc_ne j before id i) ∙ seen)
        ]);
        unmoved = λ j why.
            let (ne, old) = live_ne live before id j e why in
            p.get-put_ne c.index id (index_value c.new_head p.chunk_data_size) j (same_ne id j ne)
            ∙ h.unmoved j old;
      }

  -- One turn on a whole entry.
  pub turn-Compacts :
      (live : List Bytes) (db : p.Db) (before : List Bytes) (c : Compacted p) (id : Bytes)
      → Compacts live db before c
      → IsChunk p content id
      → length (kept (λ j. contains j live) before) * vlog_entry_size p + vlog_entry_size p < 2 ^ 63
      → (more : Compacted p) × (gc_turn p calm live c (entry_of p content id, false) ≡ go_on more)
        × Compacts live db (before ++ id ∷ []) more
  turn-Compacts live db before c id h chunk fits = elim (Bool-cases (contains id live)) [
    | inl e ↦
        (relocate c id, turn_live live c id chunk e, Compacts-live live db before c id h e fits)
    | inr e ↦ (c, turn_dead live c id chunk e, Compacts-dead live db before c id h e)
  ]
