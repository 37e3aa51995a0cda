-- ===== src/Storage/Buffer.antt =====
-- The shared buffer of an id, and the compaction of it (pkg/storage/storagedb.go: dataLen,
-- applyTrim, evictStaleConsumers, enforceMaxBuffer, compactConsumedData).
use interactsh.Prelude.{
  ℕ, ◌-◌, List, [], ◌∷◌, Option, none, some, ltb, leb, if◌then◌else◌, length, drop, is_empty, Text,
  Assoc, delete, map_values,
}
use interactsh.Storage.Lines.{newline, join, nonempty_lines}
use interactsh.Storage.Libraries.{Libs, DbReply, found, not_found, failed}
use interactsh.Storage.Types.{StorageDb, CorrelationData, use_disk, update}

-- The entries that a read of the database gives; a read that fails gives none.
unfoldable pub entries_of : DbReply → List Text
unfolding nonempty_lines
entries_of (found raw) = nonempty_lines raw
entries_of not_found = []
entries_of failed = []

-- The ids whose last poll is more than the time to live ago.
unfoldable pub stale_consumers : ℕ → ℕ → Assoc ℕ → List Text
stale_consumers now ttl [] = []
stale_consumers now ttl ((cid, seen) ∷ rest) =
    let more = stale_consumers now ttl rest in if ltb ttl (now - seen) then cid ∷ more else more

unfoldable pub delete_all : List Text → Assoc ℕ → Assoc ℕ
delete_all [] m = m
delete_all (k ∷ ks) m = delete_all ks (delete k m)

-- The loop over the read offsets; `none` is the initial -1.
unfoldable pub min_offset : Option ℕ → Assoc ℕ → Option ℕ
min_offset low [] = low
min_offset none ((cid, off) ∷ rest) = min_offset (some off) rest
min_offset (some low) ((cid, off) ∷ rest) =
    min_offset (some (if ltb off low then off else low)) rest

module _ {L : Libs} where
  unfoldable pub set_value : StorageDb L → ℕ → CorrelationData → StorageDb L
  set_value s p value = record s { heap = update s.heap p value }

  unfoldable pub db_put : StorageDb L → Text → Text → StorageDb L
  db_put s id raw = record s { db = L.db.put s.db id raw }

  unfoldable pub db_delete : StorageDb L → Text → StorageDb L
  db_delete s id = record s { db = L.db.delete s.db id }

  unfoldable pub data_len : StorageDb L → ℕ → Text → ℕ
  data_len s p id =
      if use_disk s.options then length (entries_of (L.db.get s.db id)) else length (s.heap p).items

  -- The disk half of applyTrim, after the read.
  unfoldable pub trim_record : StorageDb L → Text → List Text → ℕ → StorageDb L
  unfolding db_put db_delete
  trim_record s id all_data trim_count =
      if leb (length all_data) trim_count
      then db_delete s id
      else db_put s id (join newline (drop trim_count all_data))

  -- for cid, off := range value.ReadOffsets { value.ReadOffsets[cid] = max(off-trimCount, 0) }
  unfoldable pub shift_offsets : StorageDb L → ℕ → ℕ → StorageDb L
  unfolding set_value
  shift_offsets s p trim_count = set_value s p (record (s.heap p) {
    read_offsets = map_values (λ off. off - trim_count) (s.heap p).read_offsets;
  })

  -- A disk read that fails ends the call before the offsets are shifted.
  unfoldable pub apply_trim : StorageDb L → ℕ → Text → ℕ → StorageDb L
  unfolding set_value
  apply_trim s p id trim_count =
      if use_disk s.options
      then (elim (L.db.get s.db id) [
        | found raw ↦ shift_offsets (trim_record s id (nonempty_lines raw) trim_count) p trim_count
        | not_found ↦ s
        | failed ↦ s
      ])
      else shift_offsets
          (set_value s p (record (s.heap p) {
            items =
                if leb (length (s.heap p).items) trim_count
                then []
                else drop trim_count (s.heap p).items;
          }))
          p trim_count

  -- The first half of evictStaleConsumers: forget the consumers that are stale.
  unfoldable pub forget_stale : StorageDb L → ℕ → ℕ → StorageDb L
  unfolding set_value
  forget_stale s p now =
      let value = s.heap p in
      let ttl = s.options.eviction_ttl in
      let stale = stale_consumers now ttl value.last_seen in
      if ltb 0 ttl
      then set_value s p (record value {
        read_offsets = delete_all stale value.read_offsets;
        last_seen = delete_all stale value.last_seen;
      })
      else s

  -- The second half: with no consumer left, the data goes.
  unfoldable pub drop_unread : StorageDb L → ℕ → Text → StorageDb L
  unfolding set_value db_delete
  drop_unread s p id =
      if is_empty (s.heap p).read_offsets
      then (let cleared = set_value s p (record (s.heap p) { items = [] }) in
          if use_disk s.options then db_delete cleared id else cleared)
      else s

  unfoldable pub evict_stale_consumers : StorageDb L → ℕ → Text → ℕ → StorageDb L
  evict_stale_consumers s p id now = drop_unread (forget_stale s p now) p id

  unfoldable pub enforce_max_buffer : StorageDb L → ℕ → Text → StorageDb L
  enforce_max_buffer s p id =
      let len = data_len s p id in
      if leb len s.options.max_shared_interactions
      then s
      else apply_trim s p id (len - s.options.max_shared_interactions)

  unfoldable pub evict_and_enforce_buffer : StorageDb L → ℕ → Text → ℕ → StorageDb L
  evict_and_enforce_buffer s p id now = enforce_max_buffer (evict_stale_consumers s p id now) p id

  -- `if minOffset > 0 { s.applyTrim(value, id, minOffset) }`
  unfoldable pub trim_consumed : StorageDb L → ℕ → Text → StorageDb L
  trim_consumed s p id = elim (min_offset none (s.heap p).read_offsets) [
    | none ↦ s
    | some low ↦ if ltb 0 low then apply_trim s p id low else s
  ]

  unfoldable pub compact_consumed_data : StorageDb L → ℕ → Text → ℕ → StorageDb L
  compact_consumed_data s p id now =
      let kept = evict_stale_consumers s p id now in
      if is_empty (kept.heap p).read_offsets
      then kept
      else enforce_max_buffer (trim_consumed kept p id) p id
