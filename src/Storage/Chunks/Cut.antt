-- ===== src/Storage/Chunks/Cut.antt =====
-- What AppendChunk of internal/storage/vlog.go leaves behind when a call of it fails.
use vyomanaut_v.Base.{
  ℕ, ◌+◌, ◌^◌, ◌<◌, ◌≡◌, ◌⊎◌, inl, inr, refl, sym, ap, ◌∙◌, [], ◌∷◌, ◌++◌, length, take, arith,
  All-append, subst, length-append, Bool-cases, Option-cases, append-nil, ==_refl,
}
use vyomanaut_v.Base.Bytes.{Bytes}
use vyomanaut_v.Storage.{Platform, Calls, vlog_entry_size}
use vyomanaut_v.Storage.Index.{index_put}
use vyomanaut_v.Storage.Vlog.{Store, append_chunk, append_to_vlog, index_chunk}
use vyomanaut_v.Storage.Vlog.Entries.{IsChunk, entry_of, log_bytes, length-entry_of, take_all}
use vyomanaut_v.Storage.Chunks.{Chunks, Located, Readable}
use vyomanaut_v.Storage.Chunks.Append.{appended, Located-append, log_bytes-snoc}

unfoldable pub with_entry : Chunks → Bytes → Chunks
with_entry c id = record c { logged = c.logged ++ id ∷ [] }

module _ (p : Platform) (content : Bytes → Bytes) where
  -- What an append leaves: a part of its entry and the old index, or the whole and the new.
  pub append_leaves :
      (io : Calls) (s : Store p) (id : Bytes)
      → IsChunk p content id
      → let after = (append_chunk p io s id (content id)).1 in
        ((after.index ≡ s.index)
          × ((got : ℕ) × (after.vlog ≡ s.vlog ++ take got (entry_of p content id))))
        ⊎ ((after.index ≡ (appended p content s id).index)
            × (after.vlog ≡ (appended p content s id).vlog))
  unfolding append_chunk append_to_vlog index_chunk index_put
  append_leaves io s id h =
      let whole : s.vlog ++ entry_of p content id
          ≡ s.vlog ++ take (vlog_entry_size p) (entry_of p content id) =
        ap (λ (t : Bytes). s.vlog ++ t)
          (sym (
            take_all (vlog_entry_size p) (entry_of p content id)
              (omega (arith, length-entry_of p content id h)))) in
      rw (h.data_length, ==_refl p.chunk_data_size)
        (elim (Option-cases io.write) [
          | inr (got, cut) ↦ rw cut (inl (refl, (got, refl)))
          | inl full ↦ elim (Bool-cases io.sync) [
            | inl bad ↦ rw (full, bad) (inl (refl, (vlog_entry_size p, whole)))
            | inr fine ↦ elim (Bool-cases io.index_put) [
              | inl bad ↦ rw (full, fine, bad) (inl (refl, (vlog_entry_size p, whole)))
              | inr good ↦ rw (full, fine, good) (inr (refl, refl))
            ]
          ]
        ])

  pub Readable-same :
      (s t : Store p) (c : Chunks) (tail : Bytes)
      → t.index ≡ s.index
      → t.vlog ≡ s.vlog
      → Readable p content s c tail
      → Readable p content t c tail
  Readable-same s t c tail ei ev h = record {
    vlog_is = ev ∙ h.vlog_is;
    chunks = h.chunks;
    fits = omega (arith, ap length ev, h.fits);
    located = λ id.
        subst (λ (d : p.Db). Located p content d c.logged id (c.held id)) (sym ei) (h.located id);
  }

  -- a whole entry that the index does not have
  pub Readable-with_entry :
      (s t : Store p) (c : Chunks) (id : Bytes)
      → Readable p content s c []
      → IsChunk p content id
      → length s.vlog + vlog_entry_size p < 2 ^ 63
      → t.index ≡ s.index
      → t.vlog ≡ s.vlog ++ entry_of p content id
      → Readable p content t (with_entry c id) []
  unfolding with_entry
  Readable-with_entry s t c id h chunk fits ei ev = record {
    vlog_is =
        ev
        ∙ ap (λ (b : Bytes). b ++ entry_of p content id)
            (h.vlog_is ∙ append-nil (log_bytes p content c.logged))
        ∙ sym (log_bytes-snoc p content c.logged id)
        ∙ sym (append-nil (log_bytes p content (c.logged ++ id ∷ [])));
    chunks = All-append (IsChunk p content) c.logged (id ∷ []) h.chunks (chunk, tt);
    fits = omega (
      arith,
      ap length ev,
      length-append s.vlog (entry_of p content id),
      length-entry_of p content id chunk,
    );
    located = λ other. Located-append p content t.index c.logged (id ∷ []) other (
        subst (λ (d : p.Db). Located p content d c.logged other (c.held other)) (sym ei)
          (h.located other));
  }

  pub Readable-cut :
      (s t : Store p) (c : Chunks) (tail : Bytes)
      → Readable p content s c []
      → length s.vlog + length tail < 2 ^ 63
      → t.index ≡ s.index
      → t.vlog ≡ s.vlog ++ tail
      → Readable p content t c tail
  Readable-cut s t c tail h fits ei ev = record {
    vlog_is =
        ev ∙ ap (λ (b : Bytes). b ++ tail) (h.vlog_is ∙ append-nil (log_bytes p content c.logged));
    chunks = h.chunks;
    fits = omega (arith, ap length ev, length-append s.vlog tail);
    located = λ other.
        subst (λ (d : p.Db). Located p content d c.logged other (c.held other)) (sym ei)
          (h.located other);
  }
