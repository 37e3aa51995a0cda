-- ===== src/Storage/Spec/Histories.antt =====
-- Exactly-once, in-order delivery over a history of pushes, polls and departures.
use interactsh.Prelude.{
  ℕ, ◌≤◌, ◌≡◌, refl, sym, ap, ◌∙◌, inl, inr, false, List, [], ◌∷◌, ◌++◌, some, arith, if◌then◌else◌,
  Bool-cases, length, min, Text, text_eq, text_eq_iff, lookup, delete, drop-eq-nil, append_assoc,
  append-nil,
}
use interactsh.Storage.Spec.{Shared, offset_of, push, mark, poll, leave}
use interactsh.Storage.Spec.Positions.{unseen, IsFresh, lookup-forget, entries-forget}
use interactsh.Storage.Spec.Delivery.{
  lookup-mark, offset_of-known, unseen-ext, unseen-push, poll-quiet, gone,
}
use interactsh.Storage.Spec.Served.{
  IsServed, IsServed-push, IsServed-mark, IsServed-forget, IsServed-consumed, leave-quiet,
  IsServed-gone, unseen-leave,
}

-- `polled` and `left` carry the consumer and the time.
pub data Event : Type 0 where
  pushed : Text → Event
  polled left : Text → ℕ → Event

module _ (limit ttl : ℕ) where
  unfoldable pub step : Event → Shared → Shared
  step (pushed item) b = push item b
  step (polled c now) b = (poll limit ttl c now b).1
  step (left c now) b = leave limit ttl c now b

  unfoldable pub run : List Event → Shared → Shared
  unfolding step
  run [] b = b
  run (e ∷ es) b = run es (step e b)

  -- What the polls of `d` return, in order.
  unfoldable pub received : Text → List Event → Shared → List Text
  unfolding step
  received d [] b = []
  received d (pushed item ∷ es) b = received d es (step (pushed item) b)
  received d (polled c now ∷ es) b =
      let rest = received d es (step (polled c now) b) in
      if text_eq c d then (poll limit ttl c now b).0 ++ rest else rest
  received d (left c now ∷ es) b = received d es (step (left c now) b)

  -- `d` does not leave, and is never older than the time to live when stale consumers are sought.
  abbrev pub StaysOn : Text → List Event → Shared → Type 0
  StaysOn d [] b = Unit
  StaysOn d (pushed item ∷ es) b = StaysOn d es (step (pushed item) b)
  StaysOn d (polled c now ∷ es) b =
      IsFresh ttl d now (mark c now b) × StaysOn d es (step (polled c now) b)
  StaysOn d (left c now ∷ es) b =
      (text_eq c d ≡ false)
      × IsFresh ttl d now (record b { offsets = delete c b.offsets; seen = delete c b.seen })
      × StaysOn d es (step (left c now) b)

-- The entries that a history pushes, in order.
unfoldable pub pushes : List Event → List Text
pushes [] = []
pushes (pushed item ∷ es) = item ∷ pushes es
pushes (polled c now ∷ es) = pushes es
pushes (left c now ∷ es) = pushes es

module _ (limit ttl : ℕ) (d : Text) where
  poll-eq-unseen : (now : ℕ) (c : Text) (b : Shared) → (poll limit ttl c now b).0 ≡ unseen c b
  unfolding poll unseen
  poll-eq-unseen now c b = refl

  -- A position at the end leaves nothing unseen.
  unseen-marked : (b : Shared) → lookup d b.offsets ≡ some (length b.entries) → unseen d b ≡ []
  unfolding unseen
  unseen-marked b e =
      drop-eq-nil (min (offset_of d b.offsets) (length b.entries)) b.entries
        (omega (arith, offset_of-known d b.offsets (length b.entries) e))

  -- What a poll returns with what it leaves is what was unseen.
  pub poll-unseen :
      (room now : ℕ) (c : Text) (b : Shared)
      → IsFresh ttl d now (mark c now b)
      → IsServed limit room d b
      → (if text_eq c d then (poll limit ttl c now b).0 else [])
          ++ unseen d (poll limit ttl c now b).1
        ≡ unseen d b
  unfolding mark
  poll-unseen room now c b fresh h =
      let m = IsServed-mark limit ttl d room now c b h in
      let small : length b.entries ≤ limit = omega (arith, h.space) in
      let after : unseen d (poll limit ttl c now b).1 ≡ unseen d (mark c now b) =
        ap (unseen d) (poll-quiet limit ttl now c d b m.offset small fresh m.known)
        ∙ unseen-ext d _ (mark c now b) (entries-forget ttl now (mark c now b))
            (lookup-forget ttl now d (mark c now b) fresh) in
      elim (Bool-cases (text_eq c d)) [
        | inl e ↦
            let here : unseen d (mark c now b) ≡ [] =
              unseen-marked (mark c now b) (lookup-mark c d now b ∙ rw e refl) in
            rw (e, after, here)
              (append-nil (poll limit ttl c now b).0
                ∙ poll-eq-unseen now c b
                ∙ ap (λ k. unseen k b) ((text_eq_iff c d).0 e))
        | inr e ↦
            rw (e, after)
              (unseen-ext d (mark c now b) b (unfold mark in refl)
                (lookup-mark c d now b ∙ rw e refl))
      ]

  pub IsServed-poll :
      (room now : ℕ) (c : Text) (b : Shared)
      → IsFresh ttl d now (mark c now b)
      → IsServed limit room d b
      → IsServed limit room d (poll limit ttl c now b).1
  IsServed-poll room now c b fresh h =
      let m = IsServed-mark limit ttl d room now c b h in
      let small : length b.entries ≤ limit = omega (arith, h.space) in
      rw (poll-quiet limit ttl now c d b m.offset small fresh m.known)
        (IsServed-forget limit ttl d room now (mark c now b) fresh m)

  pub IsServed-leave :
      (room now : ℕ) (c : Text) (b : Shared)
      → IsServed limit room d (gone ttl now c b)
      → IsServed limit room d (leave limit ttl c now b)
  IsServed-leave room now c b h =
      rw (leave-quiet limit ttl d room now c b h)
        (IsServed-consumed limit ttl d room (gone ttl now c b) h)

  received-polled :
      (c : Text) (now : ℕ) (es : List Event) (b : Shared)
      → received limit ttl d (polled c now ∷ es) b
        ≡ (if text_eq c d then (poll limit ttl c now b).0 else [])
          ++ received limit ttl d es (poll limit ttl c now b).1
  unfolding received
  received-polled c now es b = ground arith

  -- A consumer that is on the buffer, stays on it and is never forgotten receives, over any
  -- history of pushes, polls and departures of others that fits the buffer, what it had not seen
  -- and then every entry pushed: in order, each once, up to what is still unseen at the end.
  pub exactly_once :
      (es : List Event) (b : Shared)
      → IsServed limit (length (pushes es)) d b
      → StaysOn limit ttl d es b
      → received limit ttl d es b ++ unseen d (run limit ttl es b) ≡ unseen d b ++ pushes es
  unfolding run received pushes
  exactly_once [] b h on = sym (append-nil (unseen d b))
  exactly_once (pushed item ∷ es) b h on =
      exactly_once es (push item b) (IsServed-push limit ttl d (length (pushes es)) item b h) on
      ∙ ap (λ xs. xs ++ pushes es)
          (unseen-push d item b (rw (offset_of-known d b.offsets h.offset h.known) h.within))
      ∙ append_assoc (unseen d b) (item ∷ []) (pushes es)
  exactly_once (polled c now ∷ es) b h on =
      let room = length (pushes es) in
      let after = (poll limit ttl c now b).1 in
      ap (λ xs. xs ++ unseen d (run limit ttl es after)) (received-polled c now es b)
      ∙ append_assoc (if text_eq c d then (poll limit ttl c now b).0 else []) _ _
      ∙ ap (◌++◌ (if text_eq c d then (poll limit ttl c now b).0 else []))
          (exactly_once es after (IsServed-poll room now c b on.0 h) on.1)
      ∙ sym (append_assoc (if text_eq c d then (poll limit ttl c now b).0 else []) _ _)
      ∙ ap (λ xs. xs ++ pushes es) (poll-unseen room now c b on.0 h)
  exactly_once (left c now ∷ es) b h on =
      let room = length (pushes es) in
      let served =
        IsServed-leave room now c b (IsServed-gone limit ttl d room now c b on.0 on.1 h) in
      exactly_once es (leave limit ttl c now b) served on.2
      ∙ ap (λ xs. xs ++ pushes es) (unseen-leave limit ttl d room now c b on.0 on.1 h)
