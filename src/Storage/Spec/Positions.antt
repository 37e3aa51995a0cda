-- ===== src/Storage/Spec/Positions.antt =====
-- What each operation of the shared buffer does to the positions of its consumers.
use interactsh.Prelude.{
  ℕ, ◌-◌, ◌≤◌, ◌≡◌, refl, sym, ap, ap₂, ◌∙◌, inl, inr, true, false, List, [], ◌∷◌, none, some,
  arith, if◌then◌else◌, Bool-cases, length, ltb, drop, min, is_empty, Text, text_eq, Assoc, lookup,
  delete, has, map_values, lookup-delete, lookup-map_values, length-drop, drop-drop, All,
}
use interactsh.Storage.Buffer.{stale_consumers, delete_all}
use interactsh.Storage.Spec.{Shared, offset_of, trim, forget, unread}

-- What a poll of the consumer would return.
unfoldable pub unseen : Text → Shared → List Text
unseen c b = drop (min (offset_of c b.offsets) (length b.entries)) b.entries

-- With a time to live, which is 0 for none, the last poll of the consumer is at most that old. (A
-- map has at most one entry for it.)
abbrev pub IsFresh : ℕ → Text → ℕ → Shared → Type 0
IsFresh ttl c now b =
    ltb 0 ttl ≡ true → All (λ (e : Text × ℕ). text_eq e.0 c ≡ true → now - e.1 ≤ ttl) b.seen

lookup-delete_all :
    (ks : List Text) (j : Text) (m : Assoc ℕ)
    → lookup j (delete_all ks m) ≡ (if has j ks then none else lookup j m)
unfolding delete_all has
lookup-delete_all [] j m = refl
lookup-delete_all (k ∷ ks) j m =
    ground (arith, lookup-delete_all ks j (delete k m), lookup-delete k j m)

has-stale :
    (now ttl : ℕ) (c : Text) (seen : Assoc ℕ)
    → All (λ (e : Text × ℕ). text_eq e.0 c ≡ true → now - e.1 ≤ ttl) seen
    → has c (stale_consumers now ttl seen) ≡ false
unfolding stale_consumers has
has-stale now ttl c [] h = refl
has-stale now ttl c ((k, t) ∷ rest) h = elim (Bool-cases (text_eq k c)) [
  | inl e ↦ ground (arith, has-stale now ttl c rest h.1, h.0 e)
  | inr e ↦ ground (arith, has-stale now ttl c rest h.1)
]

-- A consumer that is fresh is not forgotten.
pub lookup-forget :
    (ttl now : ℕ) (c : Text) (b : Shared)
    → IsFresh ttl c now b
    → lookup c (forget ttl now b).offsets ≡ lookup c b.offsets
unfolding forget
lookup-forget ttl now c b h = elim (Bool-cases (ltb 0 ttl)) [
  | inl e ↦ ground (
    arith,
    e,
    has-stale now ttl c b.seen (h e),
    lookup-delete_all (stale_consumers now ttl b.seen) c b.offsets,
  )
  | inr e ↦ ground (arith, e)
]

pub entries-forget : (ttl now : ℕ) (b : Shared) → (forget ttl now b).entries ≡ b.entries
unfolding forget
entries-forget ttl now b = ground arith

-- While a consumer is known, no entry is dropped as unread.
pub unread-known : (c : Text) (b : Shared) (off : ℕ) → lookup c b.offsets ≡ some off → unread b ≡ b
unfolding unread
unread-known c b off h = known b.offsets refl
  where
    known :
        (m : Assoc ℕ)
        → b.offsets ≡ m
        → (if is_empty b.offsets then record b { entries = [] } else b) ≡ b
    known [] e = absurd (unfold lookup in let q : lookup c [] ≡ some off = (rw e at h) in cc q)
    known (x ∷ m) e = rw e refl

offset_of-trim :
    (n : ℕ) (c : Text) (m : Assoc ℕ)
    → offset_of c (map_values (λ off. off - n) m) ≡ offset_of c m - n
unfolding offset_of
offset_of-trim n c m = ground (arith, lookup-map_values (λ (off : ℕ). off - n) c m)

-- A trim of `n` entries takes from a consumer only those of them that it has not read.
pub unseen-trim :
    (n : ℕ) (c : Text) (b : Shared)
    → unseen c (trim n b) ≡ drop (n - min (offset_of c b.offsets) (length b.entries)) (unseen c b)
unfolding unseen trim
unseen-trim n c b =
    ap₂ (λ (m k : ℕ). drop (min m k) (drop n b.entries)) (offset_of-trim n c b.offsets)
      (length-drop n b.entries)
    ∙ drop-drop _ n b.entries
    ∙ ap (λ k. drop k b.entries) (omega arith)
    ∙ sym (drop-drop (n - min (offset_of c b.offsets) (length b.entries)) _ b.entries)
