-- ===== src/Storage/Spec/Delivery.antt =====
-- Delivery of the shared buffer over a history of pushes, polls and departures.
use interactsh.Prelude.{
  ℕ, ◌-◌, ◌≤◌, ◌≡◌, refl, ap, ◌∙◌, inl, inr, [], ◌∷◌, ◌++◌, Option, none, some, arith, ltb,
  if◌then◌else◌, Option-cases, length, drop, min, Text, text_eq, Assoc, lookup, delete,
  lookup-insert, length-append, drop-append,
}
use interactsh.Storage.Buffer.{min_offset}
use interactsh.Storage.Spec.{
  Shared, offset_of, push, trim, forget, unread, cap, consumed, mark, poll,
}
use interactsh.Storage.Spec.Positions.{
  unseen, IsFresh, lookup-forget, entries-forget, unread-known, unseen-trim,
}

pub lookup-mark :
    (c d : Text) (now : ℕ) (b : Shared)
    → lookup d (mark c now b).offsets
      ≡ (if text_eq c d then some (length b.entries) else lookup d b.offsets)
unfolding mark
lookup-mark c d now b = lookup-insert c d (length b.entries) b.offsets

pub offset_of-known :
    (c : Text) (m : Assoc ℕ) (off : ℕ) → lookup c m ≡ some off → offset_of c m ≡ off
unfolding offset_of
offset_of-known c m off known = ground arith

-- What is left for a consumer does not depend on the rest of the state.
pub unseen-ext :
    (c : Text) (a b : Shared)
    → a.entries ≡ b.entries
    → lookup c a.offsets ≡ lookup c b.offsets
    → unseen c a ≡ unseen c b
unfolding unseen offset_of
unseen-ext c a b e o = cc

-- A push adds its entry at the end of what a consumer within bounds has still to read.
pub unseen-push :
    (c item : Text) (b : Shared)
    → offset_of c b.offsets ≤ length b.entries
    → unseen c (push item b) ≡ unseen c b ++ (item ∷ [])
unfolding unseen push
unseen-push c item b h =
    ap (λ k. drop k (b.entries ++ (item ∷ []))) (omega (arith, length-append b.entries (item ∷ [])))
    ∙ drop-append (min (offset_of c b.offsets) (length b.entries)) b.entries (item ∷ [])
        (omega arith)

pub cap-small : (limit : ℕ) (b : Shared) → length b.entries ≤ limit → cap limit b ≡ b
unfolding cap
cap-small limit b h = ground arith

-- A poll that finds room and a consumer `d` that is known and fresh drops nothing.
pub poll-quiet :
    (limit ttl now : ℕ) (c d : Text) (b : Shared) (off : ℕ)
    → length b.entries ≤ limit
    → IsFresh ttl d now (mark c now b)
    → lookup d (mark c now b).offsets ≡ some off
    → (poll limit ttl c now b).1 ≡ forget ttl now (mark c now b)
unfolding poll
poll-quiet limit ttl now c d b off small fresh known =
    let f = forget ttl now (mark c now b) in
    let here = unread-known d f off (lookup-forget ttl now d (mark c now b) fresh ∙ known) in
    cap-small limit (unread f)
      (rw (here, entries-forget ttl now (mark c now b)) (unfold mark in small))
    ∙ here

-- The state that a departure of `c` trims.
abbrev pub gone : ℕ → ℕ → Text → Shared → Shared
gone ttl now c b =
    forget ttl now (record b { offsets = delete c b.offsets; seen = delete c b.seen })

pub min_offset-le :
    (m : Assoc ℕ) (start : Option ℕ) (low : ℕ)
    → min_offset start m ≡ some low
    → ((s : ℕ) → start ≡ some s → low ≤ s)
      × ((d : Text) (off : ℕ) → lookup d m ≡ some off → low ≤ off)
unfolding min_offset lookup
min_offset-le [] start low h = (λ s e. ground arith, λ d off e. cc)
min_offset-le ((k, v) ∷ m) none low h = (
  λ s e. cc,
  λ d off e.
      ground (
        arith,
        (min_offset-le m (some v) low h).0 v refl,
        (min_offset-le m (some v) low h).1 d off,
      ),
)
min_offset-le ((k, v) ∷ m) (some s) low h =
    let ih = min_offset-le m (some (if ltb v s then v else s)) low h in
    (
      λ t e. ground (arith, ih.0 (if ltb v s then v else s) refl),
      λ d off e. ground (arith, ih.0 (if ltb v s then v else s) refl, ih.1 d off),
    )

-- Dropping what every consumer has read leaves a consumer all that it has not read.
pub unseen-consumed :
    (d : Text) (b : Shared) (off : ℕ)
    → lookup d b.offsets ≡ some off
    → off ≤ length b.entries
    → unseen d (consumed b) ≡ unseen d b
unfolding consumed
unseen-consumed d b off known within = elim (Option-cases (min_offset none b.offsets)) [
  | inl e ↦ rw (e, consumed) refl
  | inr (low, e) ↦
      let le : low ≤ off = (min_offset-le b.offsets none low e).1 d off known in
      let at = offset_of-known d b.offsets off known in
      let all_read : low - min (offset_of d b.offsets) (length b.entries) ≡ 0 = omega arith in
      let same : unseen d (trim low b) ≡ unseen d b =
        unseen-trim low d b ∙ ap (λ k. drop k (unseen d b)) all_read in
      ground (arith, e, same)
]
