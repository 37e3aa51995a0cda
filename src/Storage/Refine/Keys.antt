-- ===== src/Storage/Refine/Keys.antt =====
-- The calls of the shared buffer keep the AES key of the id's value (pkg/storage/storagedb.go).
use interactsh.Prelude.{
  ℕ, ◌-◌, ◌≡◌, refl, ◌∙◌, inl, inr, List, none, some, arith, Option-cases, Text,
}
use interactsh.Storage.Libraries.{Libs, DbReply-cases}
use interactsh.Storage.Types.{StorageDb}
use interactsh.Storage.Lines.{nonempty_lines}
use interactsh.Storage.Buffer.{
  data_len, set_value, shift_offsets, trim_record, apply_trim, forget_stale, drop_unread,
  evict_stale_consumers, enforce_max_buffer, evict_and_enforce_buffer, trim_consumed,
  compact_consumed_data, min_offset,
}
use interactsh.Storage.Sessions.{append_record, store_interaction, add_interaction_with_id}
use interactsh.Storage.Polling.{read_unseen, get_interactions_with_id_for_consumer, remove_consumer}
use interactsh.Storage.Isolation.Held.{touched}

module _ {L : Libs} (p : ℕ) (id : Text) where
  -- The value at `p` keeps its key.
  abbrev pub KeepsKey : StorageDb L → StorageDb L → Type 0
  KeepsKey s t = (t.heap p).aes_key ≡ (s.heap p).aes_key

  key-apply_trim : (s : StorageDb L) (n : ℕ) → KeepsKey s (apply_trim s p id n)
  unfolding apply_trim shift_offsets trim_record set_value
  key-apply_trim s n = ground arith

  key-evict : (s : StorageDb L) (now : ℕ) → KeepsKey s (evict_stale_consumers s p id now)
  unfolding evict_stale_consumers drop_unread
  key-evict s now = dropped (forget_stale s p now) ∙ forgot
    where
      dropped : (u : StorageDb L) → KeepsKey u (drop_unread u p id)
      dropped u = unfold drop_unread set_value in ground arith

      forgot : KeepsKey s (forget_stale s p now)
      forgot = unfold forget_stale set_value in ground arith

  key-enforce : (s : StorageDb L) → KeepsKey s (enforce_max_buffer s p id)
  unfolding enforce_max_buffer
  key-enforce s =
      ground (arith, key-apply_trim s (data_len s p id - s.options.max_shared_interactions))

  key-trim_consumed : (s : StorageDb L) → KeepsKey s (trim_consumed s p id)
  unfolding trim_consumed
  key-trim_consumed s = elim (Option-cases (min_offset none (s.heap p).read_offsets)) [
    | inl e ↦ rw (e, trim_consumed) refl
    | inr (low, e) ↦ ground (arith, e, key-apply_trim s low)
  ]

  key-compact : (s : StorageDb L) (now : ℕ) → KeepsKey s (compact_consumed_data s p id now)
  unfolding compact_consumed_data
  key-compact s now =
      let k = evict_stale_consumers s p id now in
      ground (arith, key-evict s now, key-trim_consumed k, key-enforce (trim_consumed k p id))

  key-read_unseen :
      (s : StorageDb L) (c : Text) (now : ℕ) (xs : List Text)
      → KeepsKey s (read_unseen s p id c now xs).1
  unfolding read_unseen evict_and_enforce_buffer
  key-read_unseen s c now xs = key-enforce _ ∙ key-evict _ now ∙ unfold set_value in ground arith

  module _ (s : StorageDb L) (held : L.cache.find s.cache id ≡ some p) where
    pub key-adds : (item : Text) → KeepsKey s (add_interaction_with_id s id item).1
    unfolding add_interaction_with_id store_interaction append_record
    key-adds item = ground (arith, held)

    pub key-reads :
        (c : Text) (now : ℕ) → KeepsKey s (get_interactions_with_id_for_consumer s id c now).1
    unfolding get_interactions_with_id_for_consumer
    key-reads c now =
        let in_memory = key-read_unseen (touched s id) c now (s.heap p).items in
        elim (DbReply-cases (L.db.get s.db id)) [
          | inl (raw, e) ↦
              ground (
                arith,
                held,
                e,
                in_memory,
                key-read_unseen (touched s id) c now (nonempty_lines raw),
              )
          | inr (inl e) ↦ ground (arith, held, e, in_memory)
          | inr (inr e) ↦ ground (arith, held, e, in_memory)
        ]

    pub key-leaves : (c : Text) (now : ℕ) → KeepsKey s (remove_consumer s id c now)
    unfolding remove_consumer
    key-leaves c now = rw held (key-compact _ now ∙ unfold set_value in ground arith)
