-- ===== src/Storage/Spec/Served.antt =====
-- A consumer that the shared buffer serves, and what keeps it served.
use interactsh.Prelude.{
  ℕ, suc, ◌+◌, ◌-◌, ◌≤◌, ◌≡◌, refl, ap, ◌∙◌, inl, inr, false, [], ◌∷◌, none, some, arith, ltb,
  Bool-cases, Option-cases, length, is_empty, Text, text_eq, Assoc, lookup, delete, lookup-delete,
  lookup-map_values, length-drop, length-append,
}
use interactsh.Storage.Buffer.{min_offset}
use interactsh.Storage.Spec.{Shared, push, trim, forget, consumed, mark, leave}
use interactsh.Storage.Spec.Positions.{unseen, IsFresh, lookup-forget, entries-forget, unread-known}
use interactsh.Storage.Spec.Delivery.{lookup-mark, unseen-ext, cap-small, gone, unseen-consumed}

-- The consumer is known, within bounds, and there is room for `room` more entries.
pub record IsServed (limit room : ℕ) (d : Text) (b : Shared) : Type 0 where
  pub offset : ℕ
  pub known : lookup d b.offsets ≡ some offset
  pub within : offset ≤ length b.entries
  pub space : length b.entries + room ≤ limit

-- A known consumer is on the map.
not_empty : (d : Text) (off : ℕ) (m : Assoc ℕ) → lookup d m ≡ some off → is_empty m ≡ false
unfolding lookup
not_empty d off [] h = cc
not_empty d off (x ∷ m) h = refl

module _ (limit ttl : ℕ) (d : Text) where
  pub IsServed-push :
      (room : ℕ) (item : Text) (b : Shared)
      → IsServed limit (suc room) d b
      → IsServed limit room d (push item b)
  unfolding push
  IsServed-push room item b h = record {
    offset = h.offset;
    known = h.known;
    within = omega (arith, length-append b.entries (item ∷ []));
    space = omega (arith, length-append b.entries (item ∷ []));
  }

  pub IsServed-mark :
      (room now : ℕ) (c : Text) (b : Shared)
      → IsServed limit room d b
      → IsServed limit room d (mark c now b)
  IsServed-mark room now c b h = elim (Bool-cases (text_eq c d)) [
    | inl e ↦ record {
      offset = length b.entries;
      known = lookup-mark c d now b ∙ rw e refl;
      within = unfold mark in omega arith;
      space = unfold mark in h.space;
    }
    | inr e ↦ record {
      offset = h.offset;
      known = lookup-mark c d now b ∙ rw e h.known;
      within = unfold mark in h.within;
      space = unfold mark in h.space;
    }
  ]

  pub IsServed-forget :
      (room now : ℕ) (b : Shared)
      → IsFresh ttl d now b
      → IsServed limit room d b
      → IsServed limit room d (forget ttl now b)
  IsServed-forget room now b fresh h = record {
    offset = h.offset;
    known = lookup-forget ttl now d b fresh ∙ h.known;
    within = rw (entries-forget ttl now b) h.within;
    space = rw (entries-forget ttl now b) h.space;
  }

  pub IsServed-trim :
      (room low : ℕ) (b : Shared) → IsServed limit room d b → IsServed limit room d (trim low b)
  unfolding trim
  IsServed-trim room low b h = record {
    offset = h.offset - low;
    known = lookup-map_values (λ (off : ℕ). off - low) d b.offsets ∙ rw h.known refl;
    within = omega (arith, length-drop low b.entries);
    space = omega (arith, length-drop low b.entries);
  }

  pub IsServed-consumed :
      (room : ℕ) (b : Shared) → IsServed limit room d b → IsServed limit room d (consumed b)
  unfolding consumed
  IsServed-consumed room b h = elim (Option-cases (min_offset none b.offsets)) [
    | inl e ↦ rw (e, consumed) h
    | inr (low, e) ↦ elim (Bool-cases (ltb 0 low)) [
      | inl some_read ↦ rw (e, consumed) (rw some_read (IsServed-trim room low b h))
      | inr none_read ↦ rw (e, consumed) (rw none_read h)
    ]
  ]

  -- A departure of another consumer is a trim of what all have read.
  pub leave-quiet :
      (room now : ℕ) (c : Text) (b : Shared)
      → IsServed limit room d (gone ttl now c b)
      → leave limit ttl c now b ≡ consumed (gone ttl now c b)
  unfolding leave
  leave-quiet room now c b h =
      let g = gone ttl now c b in
      let served = IsServed-consumed room g h in
      rw (unread-known d g h.offset h.known, not_empty d h.offset g.offsets h.known)
        (cap-small limit (consumed g) (omega (arith, served.space)))

  pub IsServed-gone :
      (room now : ℕ) (c : Text) (b : Shared)
      → text_eq c d ≡ false
      → IsFresh ttl d now (record b { offsets = delete c b.offsets; seen = delete c b.seen })
      → IsServed limit room d b
      → IsServed limit room d (gone ttl now c b)
  IsServed-gone room now c b other fresh h = IsServed-forget room now _ fresh (record {
    offset = h.offset;
    known = lookup-delete c d b.offsets ∙ rw other h.known;
    within = h.within;
    space = h.space;
  })

  pub unseen-leave :
      (room now : ℕ) (c : Text) (b : Shared)
      → text_eq c d ≡ false
      → IsFresh ttl d now (record b { offsets = delete c b.offsets; seen = delete c b.seen })
      → IsServed limit room d b
      → unseen d (leave limit ttl c now b) ≡ unseen d b
  unseen-leave room now c b other fresh h =
      let g = gone ttl now c b in
      let served = IsServed-gone room now c b other fresh h in
      ap (unseen d) (leave-quiet room now c b served)
      ∙ unseen-consumed d g served.offset served.known served.within
      ∙ unseen-ext d g b (entries-forget ttl now _)
          (lookup-forget ttl now d _ fresh ∙ lookup-delete c d b.offsets ∙ rw other refl)
