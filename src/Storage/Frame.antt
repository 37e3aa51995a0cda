-- ===== src/Storage/Frame.antt =====
-- What the operations of pkg/storage/storagedb.go on one id leave alone: the values and the
-- records of all other ids.
use interactsh.Prelude.{
  ℕ, ◌≡◌, refl, ◌∙◌, inl, inr, Bool, true, false, List, [], Option, none, some, arith,
  if◌then◌else◌, Bool-cases, ltb, is_empty, Text, text_eq, ◌==◌,
}
use interactsh.Storage.Lines.{nonempty_lines}
use interactsh.Storage.Libraries.{Libs, DbReply, found, not_found, failed}
use interactsh.Storage.Types.{StorageDb, CorrelationData, Error, encrypt_failed, db_error, use_disk}
use interactsh.Storage.Buffer.{
  set_value, db_put, db_delete, trim_record, shift_offsets, apply_trim, forget_stale, drop_unread,
  evict_stale_consumers, enforce_max_buffer, evict_and_enforce_buffer, trim_consumed,
  compact_consumed_data, min_offset,
}
use interactsh.Storage.Sessions.{append_record, store_interaction}
use interactsh.Storage.Polling.{take_interactions, read_unseen}

-- `t` is `s` but for the value at `p`, the record of `id`, and the random source.
pub record Frame {L : Libs} (p : ℕ) (id : Text) (s t : StorageDb L) : Type 0 where
  pub heap : (q : ℕ) → (q == p) ≡ false → t.heap q ≡ s.heap q
  pub db : (j : Text) → text_eq id j ≡ false → L.db.get t.db j ≡ L.db.get s.db j
  pub cache : t.cache ≡ s.cache
  pub next : t.next ≡ s.next
  pub options : t.options ≡ s.options

module _ {L : Libs} (p : ℕ) (id : Text) where
  pub Frame-refl : (s : StorageDb L) → Frame p id s s
  Frame-refl s = record {
    heap = λ q h. refl;
    db = λ j h. refl;
    cache = refl;
    next = refl;
    options = refl;
  }

  pub Frame-trans : {s t u : StorageDb L} → Frame p id s t → Frame p id t u → Frame p id s u
  Frame-trans f g = record {
    heap = λ q h. g.heap q h ∙ f.heap q h;
    db = λ j h. g.db j h ∙ f.db j h;
    cache = g.cache ∙ f.cache;
    next = g.next ∙ f.next;
    options = g.options ∙ f.options;
  }

  pub Frame-if :
      {s : StorageDb L} (b : Bool) (t u : StorageDb L)
      → Frame p id s t
      → Frame p id s u
      → Frame p id s (if b then t else u)
  Frame-if true t u f g = f
  Frame-if false t u f g = g

  pub Frame-set_value : (s : StorageDb L) (v : CorrelationData) → Frame p id s (set_value s p v)
  unfolding set_value
  Frame-set_value s v = record {
    heap = λ q h. ground arith;
    db = λ j h. refl;
    cache = refl;
    next = refl;
    options = refl;
  }

  pub Frame-db_put : (s : StorageDb L) (raw : Text) → Frame p id s (db_put s id raw)
  unfolding db_put
  Frame-db_put s raw = record {
    heap = λ q h. refl;
    db = λ j h. L.db.get-put s.db id j raw ∙ rw h refl;
    cache = refl;
    next = refl;
    options = refl;
  }

  pub Frame-db_delete : (s : StorageDb L) → Frame p id s (db_delete s id)
  unfolding db_delete
  Frame-db_delete s = record {
    heap = λ q h. refl;
    db = λ j h. L.db.get-delete s.db id j ∙ rw h refl;
    cache = refl;
    next = refl;
    options = refl;
  }

  pub Frame-entropy : (s : StorageDb L) (e : ℕ → ℕ) → Frame p id s (record s { entropy = e })
  Frame-entropy s e = record {
    heap = λ q h. refl;
    db = λ j h. refl;
    cache = refl;
    next = refl;
    options = refl;
  }

  Frame-trim_record :
      (s : StorageDb L) (xs : List Text) (n : ℕ) → Frame p id s (trim_record s id xs n)
  unfolding trim_record
  Frame-trim_record s xs n = Frame-if _ _ _ (Frame-db_delete s) (Frame-db_put s _)

  Frame-shift_offsets : (s : StorageDb L) (n : ℕ) → Frame p id s (shift_offsets s p n)
  unfolding shift_offsets
  Frame-shift_offsets s n = Frame-set_value s _

  Frame-apply_trim : (s : StorageDb L) (n : ℕ) → Frame p id s (apply_trim s p id n)
  unfolding apply_trim
  Frame-apply_trim s n =
      Frame-if (use_disk s.options) _ _ (on_disk (L.db.get s.db id))
        (Frame-trans (Frame-set_value s _) (Frame-shift_offsets _ n))
    where
      on_disk :
          (r : DbReply)
          → Frame p id s (elim r as (λ r. StorageDb L) [
            | found raw ↦ shift_offsets (trim_record s id (nonempty_lines raw) n) p n
            | not_found ↦ s
            | failed ↦ s
          ])
      on_disk (found raw) =
          Frame-trans (Frame-trim_record s (nonempty_lines raw) n) (Frame-shift_offsets _ n)
      on_disk not_found = Frame-refl s
      on_disk failed = Frame-refl s

  Frame-forget_stale : (s : StorageDb L) (now : ℕ) → Frame p id s (forget_stale s p now)
  unfolding forget_stale
  Frame-forget_stale s now = Frame-if _ _ _ (Frame-set_value s _) (Frame-refl s)

  Frame-drop_unread : (s : StorageDb L) → Frame p id s (drop_unread s p id)
  unfolding drop_unread
  Frame-drop_unread s =
      Frame-if _ _ _
        (Frame-if _ _ _ (Frame-trans (Frame-set_value s _) (Frame-db_delete _))
          (Frame-set_value s _))
        (Frame-refl s)

  Frame-evict : (s : StorageDb L) (now : ℕ) → Frame p id s (evict_stale_consumers s p id now)
  unfolding evict_stale_consumers
  Frame-evict s now = Frame-trans (Frame-forget_stale s now) (Frame-drop_unread _)

  Frame-enforce : (s : StorageDb L) → Frame p id s (enforce_max_buffer s p id)
  unfolding enforce_max_buffer
  Frame-enforce s = Frame-if _ _ _ (Frame-refl s) (Frame-apply_trim s _)

  Frame-trim_consumed : (s : StorageDb L) → Frame p id s (trim_consumed s p id)
  unfolding trim_consumed
  Frame-trim_consumed s = by_low (min_offset none (s.heap p).read_offsets)
    where
      by_low :
          (o : Option ℕ)
          → Frame p id s (elim o as (λ o. StorageDb L) [
            | none ↦ s
            | some low ↦ if ltb 0 low then apply_trim s p id low else s
          ])
      by_low none = Frame-refl s
      by_low (some low) = Frame-if (ltb 0 low) _ _ (Frame-apply_trim s low) (Frame-refl s)

  pub Frame-compact : (s : StorageDb L) (now : ℕ) → Frame p id s (compact_consumed_data s p id now)
  unfolding compact_consumed_data
  Frame-compact s now =
      Frame-if _ _ _ (Frame-evict s now)
        (Frame-trans (Frame-evict s now) (Frame-trans (Frame-trim_consumed _) (Frame-enforce _)))

  pub Frame-read_unseen :
      (s : StorageDb L) (c : Text) (now : ℕ) (xs : List Text)
      → Frame p id s (read_unseen s p id c now xs).1
  unfolding read_unseen evict_and_enforce_buffer
  Frame-read_unseen s c now xs =
      Frame-trans (Frame-set_value s _) (Frame-trans (Frame-evict _ now) (Frame-enforce _))

  pub Frame-append_record : (s : StorageDb L) (ct : Text) → Frame p id s (append_record s id ct)
  unfolding append_record
  Frame-append_record s ct = Frame-db_put s _

  pub Frame-store : (s : StorageDb L) (item : Text) → Frame p id s (store_interaction s p id item).1
  unfolding store_interaction
  Frame-store s item = elim (Bool-cases (use_disk s.options)) [
    | inl disk ↦ elim (Bool-cases (is_empty (s.heap p).aes_key)) [
      | inl plain ↦ rw disk (rw plain (Frame-append_record s item))
      | inr keyed ↦ rw disk (rw keyed (sealed_or_not _))
    ]
    | inr memory ↦ rw memory (Frame-set_value s _)
  ]
    where
      sealed_or_not :
          (r : Option Text × (ℕ → ℕ))
          → Frame p id s
              (elim r.0 as (λ o. Option Error × StorageDb L) [
                | none ↦ (some encrypt_failed, record s { entropy = r.1 })
                | some ct ↦ (none, append_record (record s { entropy = r.1 }) id ct)
              ]).1
      sealed_or_not (none, left) = Frame-entropy s left
      sealed_or_not (some ct, left) =
          Frame-trans (Frame-entropy s left) (Frame-append_record (record s { entropy = left }) ct)

  pub Frame-take : (s : StorageDb L) → Frame p id s (take_interactions s p id).1
  unfolding take_interactions
  Frame-take s = elim (Bool-cases (use_disk s.options)) [
    | inl disk ↦ rw disk (on_disk (L.db.get s.db id))
    | inr memory ↦ rw memory (Frame-trans (Frame-set_value s _) (Frame-entropy _ _))
  ]
    where
      on_disk :
          (r : DbReply)
          → Frame p id s
              (elim r as (λ r. (List Text × Option Error) × StorageDb L) [
                | found raw ↦ ((nonempty_lines raw, none), db_delete s id)
                | not_found ↦ (([], none), s)
                | failed ↦ (([], some db_error), s)
              ]).1
      on_disk (found raw) = Frame-db_delete s
      on_disk not_found = Frame-refl s
      on_disk failed = Frame-refl s
