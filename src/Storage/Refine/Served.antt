-- ===== src/Storage/Refine/Served.antt =====
-- A consumer that the shared buffer of an id serves (pkg/storage/storagedb.go), through the calls
-- of others and its own polls, in memory and on disk, with or without a record.
use interactsh.Prelude.{
  ℕ, ◌≡◌, refl, ap, ◌∙◌, inl, inr, ◌⊎◌, true, false, [], ◌++◌, some, arith, if◌then◌else◌,
  Bool-cases, length, Text, text_eq, lookup, delete,
}
use interactsh.Storage.Libraries.{Libs, not_found, failed, DbReply-cases}
use interactsh.Storage.Types.{StorageDb, use_disk}
use interactsh.Storage.Polling.{get_interactions_with_id_for_consumer, remove_consumer}
use interactsh.Storage.Spec.{Shared, mark, forget, unread, leave}
use interactsh.Storage.Spec.Positions.{unseen, IsFresh, entries-forget, unread-known}
use interactsh.Storage.Spec.Delivery.{gone}
use interactsh.Storage.Spec.Served.{IsServed, IsServed-gone, unseen-leave}
use interactsh.Storage.Spec.Histories.{poll-unseen, IsServed-poll, IsServed-leave}
use interactsh.Storage.Buffer.{entries_of}
use interactsh.Storage.Isolation.Held.{touched}
use interactsh.Storage.Refine.Trim.{contents, view, IsReadable}
use interactsh.Storage.Refine.Compact.{limit, ttl}
use interactsh.Storage.Refine.Departure.{compact_consumed_data-unread}
use interactsh.Storage.Refine.Calls.{
  get_interactions_with_id_for_consumer-poll, remove_consumer-leave, left, left-view,
  remove_consumer-compact,
}

module _ {L : Libs} where
  -- The record of the id is on disk and cannot be read, or there is none.
  IsUnread : StorageDb L → Text → Type 0
  IsUnread s id =
      (use_disk s.options ≡ true) × ((L.db.get s.db id ≡ not_found) ⊎ (L.db.get s.db id ≡ failed))

  IsReadable-or_not : (s : StorageDb L) (id : Text) → IsReadable s id ⊎ IsUnread s id
  unfolding IsReadable IsUnread
  IsReadable-or_not s id = elim (Bool-cases (use_disk s.options)) [
    | inr memory ↦ inl (inl memory)
    | inl disk ↦ elim (DbReply-cases (L.db.get s.db id)) [
      | inl r ↦ inl (inr r)
      | inr r ↦ inr (disk, r)
    ]
  ]

  module _ (s : StorageDb L) (p : ℕ) (id : Text) (held : L.cache.find s.cache id ≡ some p) where
    contents-unread : IsUnread s id → contents s p id ≡ []
    unfolding IsUnread contents entries_of
    contents-unread (disk, inl e) = rw (disk, e) refl
    contents-unread (disk, inr e) = rw (disk, e) refl

    poll-unread :
        (c : Text) (now : ℕ)
        → IsUnread s id
        → let r = get_interactions_with_id_for_consumer s id c now in
          (r.0.0 ≡ []) × (r.1 ≡ touched s id)
    unfolding IsUnread get_interactions_with_id_for_consumer
    poll-unread c now (disk, inl e) = rw (held, disk, e) (refl, refl)
    poll-unread c now (disk, inr e) = rw (held, disk, e) (refl, refl)

    module _ (d : Text) (room : ℕ) (h : IsServed (limit s) room d (view s p id)) where
      -- What a poll returns with what it leaves for `d` is what `d` had not seen, and `d` is served.
      pub IsServed-reads :
          (c : Text) (now : ℕ)
          → IsFresh (ttl s) d now (mark c now (view s p id))
          → let r = get_interactions_with_id_for_consumer s id c now in
            ((if text_eq c d then r.0.0 else []) ++ unseen d (view r.1 p id)
              ≡ unseen d (view s p id))
            × IsServed (limit s) room d (view r.1 p id)
      IsServed-reads c now fresh = elim (IsReadable-or_not s id) [
        | inl readable ↦
            let r = get_interactions_with_id_for_consumer-poll s p now id c held readable in
            rw (r.0, r.1)
              (
                poll-unseen (limit s) (ttl s) d room now c (view s p id) fresh h,
                IsServed-poll (limit s) (ttl s) d room now c (view s p id) fresh h,
              )
        | inr bad ↦
            let r = poll-unread c now bad in
            rw (r.0, r.1)
              (unfold contents in
                (elim (Bool-cases (text_eq c d)) [ inl e ↦ rw e refl | inr e ↦ rw e refl ], h))
      ]

      -- The departure of another consumer is a departure of the specification.
      remove_consumer-leave_served :
          (c : Text) (now : ℕ)
          → text_eq c d ≡ false
          → IsFresh (ttl s) d now (record (view s p id) {
            offsets = delete c (s.heap p).read_offsets;
            seen = delete c (s.heap p).last_seen;
          })
          → view (remove_consumer s id c now) p id ≡ leave (limit s) (ttl s) c now (view s p id)
      unfolding leave
      remove_consumer-leave_served c now other fresh = elim (IsReadable-or_not s id) [
        | inl readable ↦ unfold leave in remove_consumer-leave s p now id c held readable
        | inr bad ↦
            let g = IsServed-gone (limit s) (ttl s) d room now c (view s p id) other fresh h in
            let none_read : g.offset ≡ 0 = omega (
              arith,
              ap length (contents-unread bad),
              ap length (
                  entries-forget (ttl s) now (record (view s p id) {
                    offsets = delete c (s.heap p).read_offsets;
                    seen = delete c (s.heap p).last_seen;
                  })),
            ) in
            let kept = gone (ttl s) now c (view s p id) in
            let at_start : lookup d
                  (unread (forget (ttl (left s p id c)) now (view (left s p id c) p id))).offsets
                ≡ some 0 =
              rw (left-view s p id c) (
                unfold left in
                ap (λ (b : Shared). lookup d b.offsets) (unread-known d kept g.offset g.known)
                ∙ g.known
                ∙ ap some none_read) in
            rw (remove_consumer-compact s p now id c held) (
              compact_consumed_data-unread (left s p id c) p now id d at_start
              ∙ rw (left-view s p id c) (unfold left in refl))
      ]

      pub IsServed-leaves :
          (c : Text) (now : ℕ)
          → text_eq c d ≡ false
          → IsFresh (ttl s) d now (record (view s p id) {
            offsets = delete c (s.heap p).read_offsets;
            seen = delete c (s.heap p).last_seen;
          })
          → let t = remove_consumer s id c now in
            (unseen d (view t p id) ≡ unseen d (view s p id))
            × IsServed (limit s) room d (view t p id)
      IsServed-leaves c now other fresh =
          let g = IsServed-gone (limit s) (ttl s) d room now c (view s p id) other fresh h in
          rw (remove_consumer-leave_served c now other fresh) (
            unseen-leave (limit s) (ttl s) d room now c (view s p id) other fresh h,
            IsServed-leave (limit s) (ttl s) d room now c (view s p id) g,
          )
