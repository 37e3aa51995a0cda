-- ===== src/Storage/Refine/Calls.antt =====
-- The calls of the shared buffer against Spec: GetInteractionsWithIdForConsumer is `poll`,
-- RemoveConsumer is `leave`, and AddInteractionWithId on an id with no key is `push`.
use interactsh.Prelude.{
  ℕ, ◌≡◌, refl, sym, ap, ◌∙◌, inl, inr, true, false, List, [], ◌∷◌, ◌++◌, none, some, arith,
  Bool-cases, length, is_empty-length, Text, delete, insert,
}
use interactsh.Storage.Lines.{
  newline, IsLine, append_many, nonempty_lines, nonempty_lines-append_many, nonempty_lines-IsLine,
}
use interactsh.Storage.Libraries.{Libs, DbReply, found, not_found, failed, get-put_self}
use interactsh.Storage.Types.{StorageDb, use_disk}
use interactsh.Storage.Buffer.{entries_of, set_value, compact_consumed_data}
use interactsh.Storage.Sessions.{
  existing, append_record, store_interaction, add_interaction_with_id,
}
use interactsh.Storage.Polling.{read_unseen, get_interactions_with_id_for_consumer, remove_consumer}
use interactsh.Storage.Spec.{offset_of, push, mark, forget, unread, cap, poll, leave}
use interactsh.Storage.Refine.Trim.{contents, view, IsReadable}
use interactsh.Storage.Refine.Compact.{limit, ttl, evict_and_enforce_buffer-view}
use interactsh.Storage.Refine.Departure.{compact_consumed_data-view}

module _ {L : Libs} where
  mark-view :
      (s : StorageDb L) (p n now : ℕ) (id c : Text)
      → n ≡ length (contents s p id)
      → view
          (set_value s p (record (s.heap p) {
            read_offsets = insert c n (s.heap p).read_offsets;
            last_seen = insert c now (s.heap p).last_seen;
          }))
          p
          id
        ≡ mark c now (view s p id)
  unfolding mark set_value contents
  mark-view s p n now id c e = ground arith

  read_unseen-poll :
      (s : StorageDb L) (p now : ℕ) (id c : Text) (all_data : List Text)
      → all_data ≡ contents s p id
      → let r = read_unseen s p id c now all_data in
        (r.0 ≡ (poll (limit s) (ttl s) c now (view s p id)).0)
        × (view r.1 p id ≡ (poll (limit s) (ttl s) c now (view s p id)).1)
  unfolding read_unseen poll offset_of
  read_unseen-poll s p now id c all_data e = (
    rw e refl,
    evict_and_enforce_buffer-view _ p now id
        ∙ ap (λ b. cap (limit s) (unread (forget (ttl s) now b)))
            (unfold set_value in mark-view s p (length all_data) now id c (ap length e)),
  )

  contents-memory :
      (s : StorageDb L) (p : ℕ) (id : Text)
      → use_disk s.options ≡ false
      → contents s p id ≡ (s.heap p).items
  unfolding contents
  contents-memory s p id memory = rw memory refl

  contents-disk :
      (s : StorageDb L) (p : ℕ) (id raw : Text)
      → use_disk s.options ≡ true
      → L.db.get s.db id ≡ found raw
      → contents s p id ≡ nonempty_lines raw
  unfolding contents entries_of
  contents-disk s p id raw disk e = rw (disk, e) refl

  abbrev touched : StorageDb L → Text → StorageDb L
  touched s id = record s { cache = L.cache.touch s.cache id }

  pub contents-touched :
      (s : StorageDb L) (p : ℕ) (id : Text) → contents (touched s id) p id ≡ contents s p id
  unfolding contents
  contents-touched s p id = refl

  poll_memory :
      (s : StorageDb L) (p now : ℕ) (id c : Text)
      → L.cache.find s.cache id ≡ some p
      → use_disk s.options ≡ false
      → let r = get_interactions_with_id_for_consumer s id c now in
        (r.0 ≡ ((poll (limit s) (ttl s) c now (view s p id)).0, none))
        × (view r.1 p id ≡ (poll (limit s) (ttl s) c now (view s p id)).1)
  unfolding get_interactions_with_id_for_consumer
  poll_memory s p now id c held memory = ground (
    arith,
    contents-touched s p id,
    read_unseen-poll (touched s id) p now id c (s.heap p).items
        (sym (contents-memory (touched s id) p id memory)),
  )

  poll_disk :
      (s : StorageDb L) (p now : ℕ) (id c raw : Text)
      → L.cache.find s.cache id ≡ some p
      → use_disk s.options ≡ true
      → L.db.get s.db id ≡ found raw
      → let r = get_interactions_with_id_for_consumer s id c now in
        (r.0 ≡ ((poll (limit s) (ttl s) c now (view s p id)).0, none))
        × (view r.1 p id ≡ (poll (limit s) (ttl s) c now (view s p id)).1)
  unfolding get_interactions_with_id_for_consumer
  poll_disk s p now id c raw held disk e = ground (
    arith,
    contents-touched s p id,
    read_unseen-poll (touched s id) p now id c (nonempty_lines raw)
        (sym (contents-disk (touched s id) p id raw disk e)),
  )

  -- GetInteractionsWithIdForConsumer, on an id that the cache holds and a buffer that can be read,
  -- returns what a poll of the specification returns, and leaves the buffer that it leaves.
  pub get_interactions_with_id_for_consumer-poll :
      (s : StorageDb L) (p now : ℕ) (id c : Text)
      → L.cache.find s.cache id ≡ some p
      → IsReadable s id
      → let r = get_interactions_with_id_for_consumer s id c now in
        (r.0 ≡ ((poll (limit s) (ttl s) c now (view s p id)).0, none))
        × (view r.1 p id ≡ (poll (limit s) (ttl s) c now (view s p id)).1)
  unfolding IsReadable
  get_interactions_with_id_for_consumer-poll s p now id c held (inl memory) =
      poll_memory s p now id c held memory
  get_interactions_with_id_for_consumer-poll s p now id c held (inr (raw, e)) =
      elim (Bool-cases (use_disk s.options)) [
        | inl disk ↦ poll_disk s p now id c raw held disk e
        | inr memory ↦ poll_memory s p now id c held memory
      ]

  unfoldable pub left : StorageDb L → ℕ → Text → Text → StorageDb L
  unfolding set_value
  left s p id c = set_value (touched s id) p (record (s.heap p) {
    read_offsets = delete c (s.heap p).read_offsets;
    last_seen = delete c (s.heap p).last_seen;
  })

  pub left-view :
      (s : StorageDb L) (p : ℕ) (id c : Text)
      → view (left s p id c) p id ≡ record (view s p id) {
        offsets = delete c (s.heap p).read_offsets;
        seen = delete c (s.heap p).last_seen;
      }
  unfolding left contents
  left-view s p id c = ground arith

  left-IsReadable :
      (s : StorageDb L) (p : ℕ) (id c : Text) → IsReadable s id → IsReadable (left s p id c) id
  unfolding left IsReadable
  left-IsReadable s p id c (inl memory) = inl memory
  left-IsReadable s p id c (inr r) = inr r

  pub remove_consumer-compact :
      (s : StorageDb L) (p now : ℕ) (id c : Text)
      → L.cache.find s.cache id ≡ some p
      → remove_consumer s id c now ≡ compact_consumed_data (left s p id c) p id now
  unfolding remove_consumer left
  remove_consumer-compact s p now id c held = ground arith

  -- RemoveConsumer, under the same conditions, leaves the buffer that `leave` leaves.
  pub remove_consumer-leave :
      (s : StorageDb L) (p now : ℕ) (id c : Text)
      → L.cache.find s.cache id ≡ some p
      → IsReadable s id
      → view (remove_consumer s id c now) p id ≡ leave (limit s) (ttl s) c now (view s p id)
  unfolding leave
  remove_consumer-leave s p now id c held readable =
      rw (remove_consumer-compact s p now id c held) (
        compact_consumed_data-view (left s p id c) p now id (left-IsReadable s p id c readable)
        ∙ rw (left-view s p id c) (unfold left in refl))

  pub append_record-contents :
      (s : StorageDb L) (p : ℕ) (id item : Text)
      → use_disk s.options ≡ true
      → contents (append_record s id item) p id ≡ contents s p id ++ nonempty_lines item
  unfolding contents append_record entries_of
  append_record-contents s p id item disk =
      rw
        (
          disk,
          get-put_self L.db s.db id (append_many newline (existing (L.db.get s.db id) ∷ item ∷ [])),
        )
        (nonempty_lines-append_many (existing (L.db.get s.db id)) item
          ∙ ap (λ xs. xs ++ nonempty_lines item) (lines_existing (L.db.get s.db id)))
    where
      lines_existing : (r : DbReply) → nonempty_lines (existing r) ≡ entries_of r
      lines_existing (found raw) = unfold existing entries_of in refl
      lines_existing not_found = unfold existing entries_of nonempty_lines in refl
      lines_existing failed = unfold existing entries_of nonempty_lines in refl

  store-push :
      (s : StorageDb L) (p : ℕ) (id item : Text)
      → (s.heap p).aes_key ≡ []
      → IsLine item
      → let r = store_interaction s p id item in
        (r.0 ≡ none) × (view r.1 p id ≡ push item (view s p id))
  unfolding store_interaction push
  store-push s p id item no_key line = elim (Bool-cases (use_disk s.options)) [
    | inl disk ↦ rw disk (
        unfold append_record in
        ground
          (arith, no_key, append_record-contents s p id item disk, nonempty_lines-IsLine item line))
    | inr memory ↦ unfold contents in ground (arith, memory)
  ]

  -- AddInteractionWithId on an id with no key appends its entry to the buffer, and returns no error.
  pub add_interaction_with_id-push :
      (s : StorageDb L) (p : ℕ) (id item : Text)
      → L.cache.find s.cache id ≡ some p
      → (s.heap p).aes_key ≡ []
      → IsLine item
      → let r = add_interaction_with_id s id item in
        (r.0 ≡ none) × (view r.1 p id ≡ push item (view s p id))
  unfolding add_interaction_with_id
  add_interaction_with_id-push s p id item held no_key line = ground (
    arith,
    contents-touched s p id,
    line.nonempty,
    is_empty-length item,
    store-push (touched s id) p id item no_key line,
  )
