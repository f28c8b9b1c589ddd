-- ===== src/Storage/Chunks/Append.antt =====
-- AppendChunk and DeleteChunk of internal/storage/vlog.go on the set of chunks.
use vyomanaut_v.Base.{
  ℕ, ◌+◌, ◌*◌, ◌^◌, ◌<◌, ◌≡◌, ◌≢◌, inl, inr, sym, ap, ◌∙◌, Bool, true, false, List, [], ◌∷◌, ◌++◌,
  none, some, length, arith, get_elem?, All-append, if◌then◌else◌, subst, length-append, Bool-cases,
  append-nil, ==_refl,
}
use vyomanaut_v.Base.Bytes.{Bytes, same, same_refl, same→≡}
use vyomanaut_v.Base.Result.{Result, ok}
use vyomanaut_v.Storage.{Platform, StorageError, vlog_entry_size, calm}
use vyomanaut_v.Storage.Index.{index_value, index_put, index_delete}
use vyomanaut_v.Storage.Vlog.{Store, append_to_vlog, index_chunk, append_chunk, delete_chunk}
use vyomanaut_v.Storage.Vlog.Entries.{
  IsChunk, entry_of, log_bytes, length-entry_of, length-log_bytes, log_bytes-append,
  get_elem?-append_left, get_elem?-append_last,
}
use vyomanaut_v.Storage.Chunks.{Chunks, Located, absent, present, Implements}

unfoldable pub append_id : Chunks → Bytes → Chunks
append_id c id = record {
  logged = c.logged ++ id ∷ [];
  held = λ other. if same id other then true else c.held other;
}

unfoldable pub delete_id : Chunks → Bytes → Chunks
delete_id c id = record c { held = λ other. if same id other then false else c.held other }

pub same_ne : (xs ys : Bytes) → same xs ys ≡ false → xs ≢ ys
same_ne xs ys h e = cc (h, same_refl xs, e)

module _ (p : Platform) (content : Bytes → Bytes) where
  -- A longer log has the entries where they were.
  pub Located-append :
      (db : p.Db) (logged more : List Bytes) (id : Bytes) {held : Bool}
      → Located p content db logged id held
      → Located p content db (logged ++ more) id held
  Located-append db logged more id (absent e) = absent e
  Located-append db logged more id (present k e g) =
      present k e (get_elem?-append_left logged more k g)

  -- What the index has of another id is not touched.
  pub Located-same :
      (db after : p.Db) (logged : List Bytes) (id : Bytes) {held : Bool}
      → p.get after id ≡ p.get db id
      → Located p content db logged id held
      → Located p content after logged id held
  Located-same db after logged id e (absent a) = absent (e ∙ a)
  Located-same db after logged id e (present k a g) = present k (e ∙ a) g

  pub Located-put :
      (db : p.Db) (logged : List Bytes) (held : Bytes → Bool) (id other : Bytes) (k : ℕ)
      → get_elem? logged k ≡ some id
      → ((j : Bytes) → Located p content db logged j (held j))
      → Located p content
          (p.put db id (index_value (k * vlog_entry_size p) p.chunk_data_size))
          logged
          other
          (if same id other then true else held other)
  Located-put db logged held id other k g h =
      let value = index_value (k * vlog_entry_size p) p.chunk_data_size in
      elim (Bool-cases (same id other)) [
        | inl e ↦ rw e (
            present k
              (subst (λ (t : Bytes). p.get (p.put db id value) t ≡ some value) (same→≡ id other e)
                (p.get-put_self db id value))
              (subst (λ (t : Bytes). get_elem? logged k ≡ some t) (same→≡ id other e) g))
        | inr e ↦ rw e (
            Located-same db (p.put db id value) logged other
              (p.get-put_ne db id value other (same_ne id other e)) (h other))
      ]

  Located-delete :
      (db : p.Db) (logged : List Bytes) (held : Bytes → Bool) (id other : Bytes)
      → ((j : Bytes) → Located p content db logged j (held j))
      → Located p content
          (p.delete db id)
          logged
          other
          (if same id other then false else held other)
  Located-delete db logged held id other h = elim (Bool-cases (same id other)) [
    | inl e ↦ rw e (
        absent (
          subst (λ (t : Bytes). p.get (p.delete db id) t ≡ none) (same→≡ id other e)
            (p.get-delete_self db id)))
    | inr e ↦ rw e (
        Located-same db (p.delete db id) logged other
          (p.get-delete_ne db id other (same_ne id other e)) (h other))
  ]

  -- what AppendChunk writes, as one more entry of the log
  pub log_bytes-snoc :
      (logged : List Bytes) (id : Bytes)
      → log_bytes p content (logged ++ id ∷ [])
        ≡ log_bytes p content logged ++ entry_of p content id
  unfolding log_bytes
  log_bytes-snoc logged id =
      log_bytes-append p content logged (id ∷ [])
      ∙ ap (λ (t : Bytes). log_bytes p content logged ++ t) (append-nil (entry_of p content id))

  abbrev pub appended : Store p → Bytes → Store p
  appended s id = record {
    index = p.put s.index id (index_value s.vlog_head p.chunk_data_size);
    vlog = s.vlog ++ entry_of p content id;
    vlog_head = s.vlog_head + vlog_entry_size p;
  }

  pub append_calm :
      (s : Store p) (id : Bytes)
      → IsChunk p content id
      → (s.vlog_head + vlog_entry_size p) < 2 ^ 63
      → append_chunk p calm s id (content id) ≡ (ok s.vlog_head, appended s id)
  unfolding append_chunk append_to_vlog index_chunk index_put
  append_calm s id h fits =
      rw (h.data_length, ==_refl p.chunk_data_size)
        (ap (λ (head : ℕ). (ok s.vlog_head, record (appended s id) { vlog_head = head }))
          (omega arith))

  head_position :
      (s : Store p) (c : Chunks)
      → Implements p content s c
      → s.vlog_head ≡ length c.logged * vlog_entry_size p
  head_position s c h =
      h.head_is
      ∙ ap length (h.readable.vlog_is ∙ append-nil (log_bytes p content c.logged))
      ∙ length-log_bytes p content c.logged h.readable.chunks

  pub appended-Implements :
      (s : Store p) (c : Chunks) (id : Bytes)
      → Implements p content s c
      → IsChunk p content id
      → length s.vlog + vlog_entry_size p < 2 ^ 63
      → Implements p content (appended s id) (append_id c id)
  unfolding append_id
  appended-Implements s c id h chunk fits = record {
    readable = record {
      vlog_is =
          ap (λ (t : Bytes). t ++ entry_of p content id)
            (h.readable.vlog_is ∙ append-nil (log_bytes p content c.logged))
          ∙ sym (log_bytes-snoc c.logged id)
          ∙ sym (append-nil (log_bytes p content (c.logged ++ id ∷ [])));
      chunks = All-append (IsChunk p content) c.logged (id ∷ []) h.readable.chunks (chunk, tt);
      fits =
          omega (
            arith,
            length-append s.vlog (entry_of p content id),
            length-entry_of p content id chunk,
          );
      located = λ other. rw (head_position s c h) (
          Located-put s.index (c.logged ++ id ∷ []) c.held id other (length c.logged)
            (get_elem?-append_last c.logged [] id)
            (λ j. Located-append s.index c.logged (id ∷ []) j (h.readable.located j)));
    };
    head_is = omega (
      arith,
      length-append s.vlog (entry_of p content id),
      length-entry_of p content id chunk,
      h.head_is,
    );
  }

  -- Appending a chunk, when no call fails, adds it to the set.
  pub append_chunk_adds :
      (s : Store p) (c : Chunks) (id : Bytes)
      → Implements p content s c
      → IsChunk p content id
      → length s.vlog + vlog_entry_size p < 2 ^ 63
      → ((append_chunk p calm s id (content id)).0 ≡ ok (length s.vlog))
        × Implements p content (append_chunk p calm s id (content id)).1 (append_id c id)
  append_chunk_adds s c id h chunk fits =
      let run = append_calm s id chunk (omega (arith, h.head_is)) in
      (
        ap (λ (o : Result StorageError ℕ × Store p). o.0) run ∙ ap ok h.head_is,
        subst (λ (t : Store p). Implements p content t (append_id c id))
            (sym (ap (λ (o : Result StorageError ℕ × Store p). o.1) run))
            (appended-Implements s c id h chunk fits),
      )

  -- Deleting a chunk takes it out of the set.
  pub delete_chunk_removes :
      (s : Store p) (c : Chunks) (id : Bytes)
      → Implements p content s c
      → Implements p content (delete_chunk p calm s id).1 (delete_id c id)
  unfolding delete_chunk index_delete delete_id
  delete_chunk_removes s c id h = record {
    readable = record {
      vlog_is = h.readable.vlog_is;
      chunks = h.readable.chunks;
      fits = h.readable.fits;
      located = λ other. Located-delete s.index c.logged c.held id other h.readable.located;
    };
    head_is = h.head_is;
  }
