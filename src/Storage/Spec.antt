-- ===== src/Storage/Spec.antt =====
-- What the shared buffer of an id promises to its consumers, with nothing of the cache, the
-- pointers, the locks or the disk record: a log of entries and a reading position for each
-- consumer. `limit` is MaxSharedInteractions and `ttl` is EvictionTTL.
pub mod Positions
pub mod Delivery
pub mod Served
pub mod Histories
use interactsh.Prelude.{
  ℕ, ◌-◌, List, [], ◌∷◌, ◌++◌, Option, none, some, ltb, leb, if◌then◌else◌, length, drop, min,
  is_empty, Text, Assoc, lookup, insert, delete, map_values,
}
use interactsh.Storage.Buffer.{stale_consumers, delete_all, min_offset}

pub record Shared : Type 0 where
  pub entries : List Text
  pub offsets : Assoc ℕ
  pub seen : Assoc ℕ

-- The reading position of a consumer, 0 for a consumer that is not known.
unfoldable pub offset_of : Text → Assoc ℕ → ℕ
offset_of c m = elim (lookup c m) [ none ↦ 0 | some off ↦ off ]

-- A new entry.
unfoldable pub push : Text → Shared → Shared
push item b = record b { entries = b.entries ++ (item ∷ []) }

-- The oldest `n` entries go, and every position moves back by as much.
unfoldable pub trim : ℕ → Shared → Shared
trim n b = record b { entries = drop n b.entries; offsets = map_values (λ off. off - n) b.offsets }

unfoldable pub forget : ℕ → ℕ → Shared → Shared
forget ttl now b =
    let stale = stale_consumers now ttl b.seen in
    if ltb 0 ttl
    then record b { offsets = delete_all stale b.offsets; seen = delete_all stale b.seen }
    else b

unfoldable pub unread : Shared → Shared
unread b = if is_empty b.offsets then record b { entries = [] } else b

unfoldable pub cap : ℕ → Shared → Shared
cap limit b = if leb (length b.entries) limit then b else trim (length b.entries - limit) b

unfoldable pub consumed : Shared → Shared
consumed b = elim (min_offset none b.offsets) [
  | none ↦ b
  | some low ↦ if ltb 0 low then trim low b else b
]

unfoldable pub mark : Text → ℕ → Shared → Shared
mark c now b = record b {
  offsets = insert c (length b.entries) b.offsets;
  seen = insert c now b.seen;
}

module _ (limit ttl : ℕ) where
  -- A poll returns the entries from the consumer's position on.
  unfoldable pub poll : Text → ℕ → Shared → List Text × Shared
  poll c now b = (
    drop (min (offset_of c b.offsets) (length b.entries)) b.entries,
    cap limit (unread (forget ttl now (mark c now b))),
  )

  -- A consumer that goes; what all others have read goes too.
  unfoldable pub leave : Text → ℕ → Shared → Shared
  leave c now b =
      let kept =
        unread
          (forget ttl now (record b { offsets = delete c b.offsets; seen = delete c b.seen })) in
      if is_empty kept.offsets then kept else cap limit (consumed kept)
