-- ===== src/Storage/Refine/Departure.antt =====
-- compactConsumedData (pkg/storage/storagedb.go), seen through the view of a buffer.
use interactsh.Prelude.{
  ℕ, ◌≤◌, ◌≡◌, refl, ap₂, ◌∙◌, inl, inr, false, none, some, arith, ltb, if◌then◌else◌, Bool-cases,
  Option-cases, is_empty, Text, lookup,
}
use interactsh.Storage.Libraries.{Libs}
use interactsh.Storage.Types.{StorageDb, Options}
use interactsh.Storage.Buffer.{
  forget_stale, drop_unread, evict_stale_consumers, trim_consumed, compact_consumed_data,
  min_offset,
}
use interactsh.Storage.Spec.{Shared, cap, forget, unread, consumed}
use interactsh.Storage.Spec.Delivery.{min_offset-le}
use interactsh.Storage.Refine.Trim.{view, IsReadable}
use interactsh.Storage.Refine.Compact.{
  limit, ttl, options-evict, options-trim_consumed, enforce_max_buffer-view,
  evict_stale_consumers-view, trim_consumed-view,
}

abbrev compacted : ℕ → ℕ → ℕ → Shared → Shared
compacted n t now b =
    let kept = unread (forget t now b) in
    if is_empty kept.offsets then kept else cap n (consumed kept)

module _ {L : Libs} where
  -- With a consumer at position 0 nothing is trimmed.
  trim_consumed-none :
      (s : StorageDb L) (p : ℕ) (id d : Text)
      → lookup d (view s p id).offsets ≡ some 0
      → view (trim_consumed s p id) p id ≡ consumed (view s p id)
  unfolding trim_consumed consumed
  trim_consumed-none s p id d known =
      elim (Option-cases (min_offset none (s.heap p).read_offsets)) [
        | inl e ↦ rw (e, trim_consumed, consumed) refl
        | inr (low, e) ↦
            let first : low ≤ 0 = (min_offset-le (s.heap p).read_offsets none low e).1 d 0 known in
            let none_read : ltb 0 low ≡ false = ground arith in
            rw (e, trim_consumed, consumed) (rw none_read refl)
      ]

  -- An eviction that leaves a consumer leaves the record.
  IsReadable-evict :
      (s : StorageDb L) (p now : ℕ) (id : Text)
      → IsReadable s id
      → is_empty ((evict_stale_consumers s p id now).heap p).read_offsets ≡ false
      → IsReadable (evict_stale_consumers s p id now) id
  unfolding IsReadable evict_stale_consumers drop_unread forget_stale
  IsReadable-evict s p now id (inl memory) left = inl (ground arith)
  IsReadable-evict s p now id (inr (raw, e)) left = inr (raw, ground arith)

  -- The compaction, if what is trimmed is what all have read.
  compact-by_trim :
      (s : StorageDb L) (p now : ℕ) (id : Text)
      → (let k = evict_stale_consumers s p id now in
          is_empty (k.heap p).read_offsets ≡ false
          → view (trim_consumed k p id) p id ≡ consumed (view k p id))
      → view (compact_consumed_data s p id now) p id ≡ compacted (limit s) (ttl s) now (view s p id)
  unfolding compact_consumed_data
  compact-by_trim s p now id trims =
      let k = evict_stale_consumers s p id now in
      let seen = evict_stale_consumers-view s p now id in
      elim (Bool-cases (is_empty (k.heap p).read_offsets)) [
        | inl none_left ↦ rw (none_left, compact_consumed_data) (rw (← seen) (rw none_left refl))
        | inr some_left ↦
            rw (some_left, compact_consumed_data)
              (enforce_max_buffer-view (trim_consumed k p id) p id
                ∙ rw (← seen) (
                    rw some_left (
                      ap₂ (λ (o : Options) (b : Shared). cap o.max_shared_interactions b)
                        (options-trim_consumed k p id ∙ options-evict s p now id)
                        (trims some_left))))
      ]

  pub compact_consumed_data-view :
      (s : StorageDb L) (p now : ℕ) (id : Text)
      → IsReadable s id
      → view (compact_consumed_data s p id now) p id ≡ compacted (limit s) (ttl s) now (view s p id)
  compact_consumed_data-view s p now id r = compact-by_trim s p now id λ some_left.
      trim_consumed-view (evict_stale_consumers s p id now) p id
        (IsReadable-evict s p now id r some_left)

  -- The same for a buffer that cannot be read, with a consumer on it that stays.
  pub compact_consumed_data-unread :
      (s : StorageDb L) (p now : ℕ) (id d : Text)
      → lookup d (unread (forget (ttl s) now (view s p id))).offsets ≡ some 0
      → view (compact_consumed_data s p id now) p id ≡ compacted (limit s) (ttl s) now (view s p id)
  compact_consumed_data-unread s p now id d known = compact-by_trim s p now id λ some_left.
      trim_consumed-none (evict_stale_consumers s p id now) p id d
        (rw (evict_stale_consumers-view s p now id) known)
