-- ===== src/Storage/Chunks/Replay.antt =====
-- One turn of the loop of RecoverFromCrash of internal/storage/vlog.go on the set of chunks.
use vyomanaut_v.Base.{
  ℕ, ◌*◌, ◌≡◌, inl, inr, refl, Bool, true, false, List, [], ◌∷◌, some, arith, get_elem?,
  if◌then◌else◌, subst, Bool-cases, le→ltb,
}
use vyomanaut_v.Base.Bytes.{Bytes, same, same_refl, same→≡}
use vyomanaut_v.Storage.{Platform, vlog_entry_size, calm}
use vyomanaut_v.Storage.Index.{index_value, index_location, index_get, index_put}
use vyomanaut_v.Storage.Vlog.{Store}
use vyomanaut_v.Storage.Vlog.Recover.{next, reinserted, reindex, recover_turn}
use vyomanaut_v.Storage.Vlog.Entries.{
  IsChunk, entry_of, length-entry_of, take-entry_of, entry_data-entry_of, content_hash-entry_of,
}
use vyomanaut_v.Storage.Chunks.{Chunks, Located, absent, present, Readable}
use vyomanaut_v.Storage.Chunks.Append.{Located-put}

unfoldable pub hold_id : Chunks → Bytes → Chunks
hold_id c id = record c { held = λ other. if same id other then true else c.held other }

unfoldable pub hold_all : Chunks → List Bytes → Chunks
hold_all c [] = c
hold_all c (id ∷ ids) = hold_all (hold_id c id) ids

-- Every chunk that the log has is held again, also those that were deleted.
unfoldable pub recover_ids : Chunks → Chunks
recover_ids c = hold_all c c.logged

pub logged-hold_all : (c : Chunks) (ids : List Bytes) → (hold_all c ids).logged ≡ c.logged
unfolding hold_all hold_id
logged-hold_all c [] = refl
logged-hold_all c (id ∷ ids) = logged-hold_all (hold_id c id) ids

abbrev pub with_index : {p : Platform} → Store p → p.Db → Store p
with_index s db = record s { index = db }

module _ (p : Platform) (content : Bytes → Bytes) where
  -- one whole entry: the id is put in the index when it is not there
  pub turn-entry_of :
      (db : p.Db) (offset : ℕ) (id : Bytes)
      → IsChunk p content id
      → recover_turn p calm db offset (entry_of p content id, false)
        ≡ reindex p calm db id offset (index_location (p.get db id))
  unfolding recover_turn index_get
  turn-entry_of db offset id h =
      rw
        (
          length-entry_of p content id h,
          le→ltb (vlog_entry_size p) (vlog_entry_size p) (omega arith),
          entry_data-entry_of p content id h,
          content_hash-entry_of p content id h,
          same_refl (p.sha256 (content id)),
          take-entry_of p content id h,
        )
        refl

  Located-held :
      (db : p.Db) (logged : List Bytes) (held : Bytes → Bool) (id other : Bytes) (k : ℕ)
      → p.get db id ≡ some (index_value (k * vlog_entry_size p) p.chunk_data_size)
      → get_elem? logged k ≡ some id
      → ((j : Bytes) → Located p content db logged j (held j))
      → Located p content db logged other (if same id other then true else held other)
  Located-held db logged held id other k e g h = elim (Bool-cases (same id other)) [
    | inl i ↦ rw i (
        subst (λ (t : Bytes). Located p content db logged t true) (same→≡ id other i)
          (present k e g))
    | inr i ↦ rw i (h other)
  ]

  pub reindexed :
      (s : Store p) (c : Chunks) (tail : Bytes) (id : Bytes) (k : ℕ) {held : Bool}
      → Readable p content s c tail
      → get_elem? c.logged k ≡ some id
      → Located p content s.index c.logged id held
      → (db : p.Db) × (reindex p calm s.index id
            (k * vlog_entry_size p)
            (index_location (p.get s.index id))
          ≡ next db)
        × Readable p content (with_index s db) (hold_id c id) tail
  unfolding reindex index_location index_put reinserted hold_id
  reindexed s c tail id k h g (absent e) = (
    p.put s.index id (index_value (k * vlog_entry_size p) p.chunk_data_size),
    rw e refl,
    record {
      vlog_is = h.vlog_is;
      chunks = h.chunks;
      fits = h.fits;
      located = λ other. Located-put p content s.index c.logged c.held id other k g h.located;
    },
  )
  reindexed s c tail id k h g (present n e m) = (
    s.index,
    rw e refl,
    record {
      vlog_is = h.vlog_is;
      chunks = h.chunks;
      fits = h.fits;
      located = λ other. Located-held s.index c.logged c.held id other n e m h.located;
    },
  )
