-- ===== src/Storage/Refine/Compact.antt =====
-- evictStaleConsumers, enforceMaxBuffer and compactConsumedData, seen through the view of a buffer.
use interactsh.Prelude.{
  ℕ, ◌-◌, ◌≡◌, refl, ap, ap₂, ◌∙◌, inl, inr, ◌⊎◌, false, none, arith, if◌then◌else◌, Bool-cases,
  Option-cases, length, Text,
}
use interactsh.Storage.Libraries.{Libs, DbReply, found, not_found, failed, get-delete_self}
use interactsh.Storage.Types.{StorageDb, Options, use_disk}
use interactsh.Storage.Buffer.{
  entries_of, apply_trim, data_len, forget_stale, drop_unread, evict_stale_consumers,
  enforce_max_buffer, evict_and_enforce_buffer, trim_consumed, min_offset, shift_offsets,
  trim_record,
}
use interactsh.Storage.Spec.{Shared, trim, cap, forget, unread, consumed}
use interactsh.Storage.Refine.Trim.{contents, view, IsReadable, apply_trim_memory, apply_trim_disk}

module _ {L : Libs} where
  abbrev pub limit : StorageDb L → ℕ
  limit s = s.options.max_shared_interactions

  abbrev pub ttl : StorageDb L → ℕ
  ttl s = s.options.eviction_ttl

  apply_trim-view :
      (s : StorageDb L) (p n : ℕ) (id : Text)
      → IsReadable s id
      → view (apply_trim s p id n) p id ≡ trim n (view s p id)
  unfolding IsReadable
  apply_trim-view s p n id (inl memory) = apply_trim_memory s p n id memory
  apply_trim-view s p n id (inr (raw, e)) = elim (Bool-cases (use_disk s.options)) [
    | inl disk ↦ apply_trim_disk s p n id raw disk e
    | inr memory ↦ apply_trim_memory s p n id memory
  ]

  data_len-contents :
      (s : StorageDb L) (p : ℕ) (id : Text) → data_len s p id ≡ length (contents s p id)
  unfolding data_len contents
  data_len-contents s p id = ground arith

  forget_stale-view :
      (s : StorageDb L) (p now : ℕ) (id : Text)
      → view (forget_stale s p now) p id ≡ forget (ttl s) now (view s p id)
  unfolding forget_stale forget contents
  forget_stale-view s p now id = ground arith

  drop_unread-view :
      (s : StorageDb L) (p : ℕ) (id : Text) → view (drop_unread s p id) p id ≡ unread (view s p id)
  unfolding drop_unread unread contents entries_of
  drop_unread-view s p id = ground (arith, get-delete_self L.db s.db id)

  -- A buffer that is not readable shows no entries.
  IsReadable-or_empty :
      (s : StorageDb L) (p : ℕ) (id : Text) → IsReadable s id ⊎ (length (contents s p id) ≡ 0)
  unfolding IsReadable contents entries_of
  IsReadable-or_empty s p id = go (L.db.get s.db id) refl
    where
      go :
          (r : DbReply)
          → L.db.get s.db id ≡ r
          → ((use_disk s.options ≡ false) ⊎ ((raw : Text) × (L.db.get s.db id ≡ found raw)))
            ⊎ (length
                  (if use_disk s.options then entries_of (L.db.get s.db id) else (s.heap p).items)
                ≡ 0)
      go (found raw) e = inl (inr (raw, e))
      go not_found e = ground (arith, e)
      go failed e = ground (arith, e)

  pub enforce_max_buffer-view :
      (s : StorageDb L) (p : ℕ) (id : Text)
      → view (enforce_max_buffer s p id) p id ≡ cap (limit s) (view s p id)
  unfolding enforce_max_buffer cap
  enforce_max_buffer-view s p id = elim (IsReadable-or_empty s p id) [
    | inl r ↦
        ground
          (arith, data_len-contents s p id, apply_trim-view s p (data_len s p id - limit s) id r)
    | inr e ↦ ground (arith, data_len-contents s p id)
  ]

  options-forget_stale : (s : StorageDb L) (p now : ℕ) → (forget_stale s p now).options ≡ s.options
  unfolding forget_stale
  options-forget_stale s p now = ground arith

  options-drop_unread :
      (s : StorageDb L) (p : ℕ) (id : Text) → (drop_unread s p id).options ≡ s.options
  unfolding drop_unread
  options-drop_unread s p id = ground arith

  pub options-evict :
      (s : StorageDb L) (p now : ℕ) (id : Text)
      → (evict_stale_consumers s p id now).options ≡ s.options
  unfolding evict_stale_consumers
  options-evict s p now id =
      options-drop_unread (forget_stale s p now) p id ∙ options-forget_stale s p now

  pub options-apply_trim :
      (s : StorageDb L) (p n : ℕ) (id : Text) → (apply_trim s p id n).options ≡ s.options
  unfolding apply_trim shift_offsets trim_record
  options-apply_trim s p n id = ground arith

  pub options-trim_consumed :
      (s : StorageDb L) (p : ℕ) (id : Text) → (trim_consumed s p id).options ≡ s.options
  unfolding trim_consumed
  options-trim_consumed s p id = elim (Option-cases (min_offset none (s.heap p).read_offsets)) [
    | inl e ↦ rw (e, trim_consumed) refl
    | inr (low, e) ↦ ground (arith, e, options-apply_trim s p low id)
  ]

  pub evict_stale_consumers-view :
      (s : StorageDb L) (p now : ℕ) (id : Text)
      → view (evict_stale_consumers s p id now) p id ≡ unread (forget (ttl s) now (view s p id))
  unfolding evict_stale_consumers
  evict_stale_consumers-view s p now id =
      let f = forget_stale s p now in
      drop_unread-view f p id ∙ ap unread (forget_stale-view s p now id)

  pub trim_consumed-view :
      (s : StorageDb L) (p : ℕ) (id : Text)
      → IsReadable s id
      → view (trim_consumed s p id) p id ≡ consumed (view s p id)
  unfolding trim_consumed consumed
  trim_consumed-view s p id r = elim (Option-cases (min_offset none (s.heap p).read_offsets)) [
    | inl e ↦ rw (e, trim_consumed, consumed) refl
    | inr (low, e) ↦ ground (arith, e, apply_trim-view s p low id r)
  ]

  -- What a poll does to the buffer after it has marked the consumer's position.
  pub evict_and_enforce_buffer-view :
      (s : StorageDb L) (p now : ℕ) (id : Text)
      → view (evict_and_enforce_buffer s p id now) p id
        ≡ cap (limit s) (unread (forget (ttl s) now (view s p id)))
  unfolding evict_and_enforce_buffer
  evict_and_enforce_buffer-view s p now id =
      enforce_max_buffer-view (evict_stale_consumers s p id now) p id
      ∙ ap₂ (λ (o : Options) (b : Shared). cap o.max_shared_interactions b)
          (options-evict s p now id) (evict_stale_consumers-view s p now id)
