-- ===== src/Storage/Refine/Bounds.antt =====
-- The size of a shared buffer after the calls that enforce MaxSharedInteractions.
use interactsh.Prelude.{
  subst, sym, ℕ, ◌-◌, ◌≤◌, ◌≡◌, true, some, arith, length, is_empty, length-drop, Text, delete,
}
use interactsh.Storage.Libraries.{Libs}
use interactsh.Storage.Types.{StorageDb}
use interactsh.Storage.Polling.{get_interactions_with_id_for_consumer, remove_consumer}
use interactsh.Storage.Spec.{Shared, trim, forget, unread, cap, consumed, mark, poll, leave}
use interactsh.Storage.Refine.Trim.{contents, view, IsReadable}
use interactsh.Storage.Refine.Compact.{limit, ttl}
use interactsh.Storage.Refine.Calls.{
  get_interactions_with_id_for_consumer-poll, remove_consumer-leave,
}

cap-bounded : (n : ℕ) (b : Shared) → length (cap n b).entries ≤ n
unfolding cap trim
cap-bounded n b = ground (arith, length-drop (length b.entries - n) b.entries)

poll-bounded : (n t now : ℕ) (c : Text) (b : Shared) → length (poll n t c now b).1.entries ≤ n
unfolding poll
poll-bounded n t now c b = cap-bounded n (unread (forget t now (mark c now b)))

unread-empty : (b : Shared) → is_empty (unread b).offsets ≡ true → length (unread b).entries ≡ 0
unfolding unread
unread-empty b e = ground arith

leave-bounded : (n t now : ℕ) (c : Text) (b : Shared) → length (leave n t c now b).entries ≤ n
unfolding leave
leave-bounded n t now c b =
    let g = forget t now (record b { offsets = delete c b.offsets; seen = delete c b.seen }) in
    ground (arith, unread-empty g, cap-bounded n (consumed (unread g)))

module _ {L : Libs} where
  -- GetInteractionsWithIdForConsumer and RemoveConsumer, on an id that the cache holds and a buffer
  -- that can be read, leave no more than MaxSharedInteractions entries in the buffer.
  pub shared_buffer-bounded :
      (s : StorageDb L) (p now : ℕ) (id c : Text)
      → L.cache.find s.cache id ≡ some p
      → IsReadable s id
      → (length (contents (get_interactions_with_id_for_consumer s id c now).1 p id) ≤ limit s)
        × (length (contents (remove_consumer s id c now) p id) ≤ limit s)
  shared_buffer-bounded s p now id c held readable = (
    (let polled = (get_interactions_with_id_for_consumer-poll s p now id c held readable).1 in
        subst (λ (b : Shared). length b.entries ≤ limit s) (sym polled)
          (poll-bounded (limit s) (ttl s) now c (view s p id))),
    (let left = remove_consumer-leave s p now id c held readable in
        subst (λ (b : Shared). length b.entries ≤ limit s) (sym left)
          (leave-bounded (limit s) (ttl s) now c (view s p id))),
  )
