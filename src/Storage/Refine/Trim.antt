-- ===== src/Storage/Refine/Trim.antt =====
-- applyTrim and the functions built on it, seen through the view of a buffer.
use interactsh.Prelude.{
  ℕ, ◌≡◌, refl, sym, inl, inr, ◌⊎◌, true, false, List, arith, leb, if◌then◌else◌, Bool-cases,
  length, drop, Text, drop-eq-nil, All-drop,
}
use interactsh.Storage.Lines.{
  newline, IsLine, nonempty_lines, join, nonempty_lines-join, nonempty_lines-All,
}
use interactsh.Storage.Libraries.{Libs, found, get-put_self, get-delete_self}
use interactsh.Storage.Types.{StorageDb, use_disk}
use interactsh.Storage.Buffer.{entries_of, trim_record, shift_offsets, apply_trim}
use interactsh.Storage.Spec.{Shared, trim}

module _ {L : Libs} where
  -- The entries of the buffer of `id`, whose value is at `p`.
  unfoldable pub contents : StorageDb L → ℕ → Text → List Text
  contents s p id = if use_disk s.options then entries_of (L.db.get s.db id) else (s.heap p).items

  abbrev pub view : StorageDb L → ℕ → Text → Shared
  view s p id = record {
    entries = contents s p id;
    offsets = (s.heap p).read_offsets;
    seen = (s.heap p).last_seen;
  }

  -- In memory, or with a record on disk that can be read.
  unfoldable pub IsReadable : StorageDb L → Text → Type 0
  IsReadable s id = (use_disk s.options ≡ false) ⊎ ((raw : Text) × (L.db.get s.db id ≡ found raw))

  trim_record-contents :
      (s : StorageDb L) (p n : ℕ) (id raw : Text)
      → use_disk s.options ≡ true
      → contents (trim_record s id (nonempty_lines raw) n) p id ≡ drop n (nonempty_lines raw)
  unfolding contents trim_record entries_of
  trim_record-contents s p n id raw disk = elim (Bool-cases (leb (length (nonempty_lines raw)) n)) [
    | inl e ↦
        rw (e, disk, get-delete_self L.db s.db id)
          (sym (drop-eq-nil n (nonempty_lines raw) (ground arith)))
    | inr e ↦
        rw (e, disk, get-put_self L.db s.db id (join newline (drop n (nonempty_lines raw))))
          (nonempty_lines-join (drop n (nonempty_lines raw))
            (All-drop IsLine n (nonempty_lines raw) (nonempty_lines-All raw)))
  ]

  -- In memory, applyTrim is the trim of Spec.
  pub apply_trim_memory :
      (s : StorageDb L) (p n : ℕ) (id : Text)
      → use_disk s.options ≡ false
      → view (apply_trim s p id n) p id ≡ trim n (view s p id)
  unfolding apply_trim shift_offsets trim contents
  apply_trim_memory s p n id memory = ground (arith, drop-eq-nil n (s.heap p).items, memory)

  trim_record-heap :
      (s : StorageDb L) (id : Text) (xs : List Text) (n : ℕ)
      → ((trim_record s id xs n).heap ≡ s.heap) × ((trim_record s id xs n).options ≡ s.options)
  unfolding trim_record
  trim_record-heap s id xs n = ground arith

  contents-shift :
      (s : StorageDb L) (p n : ℕ) (id : Text)
      → use_disk s.options ≡ true
      → contents (shift_offsets s p n) p id ≡ contents s p id
  unfolding contents shift_offsets
  contents-shift s p n id disk = rw disk refl

  entries_of-found :
      (s : StorageDb L) (p : ℕ) (id raw : Text)
      → use_disk s.options ≡ true
      → L.db.get s.db id ≡ found raw
      → contents s p id ≡ nonempty_lines raw
  unfolding contents entries_of
  entries_of-found s p id raw disk e = rw (disk, e) refl

  pub apply_trim_disk :
      (s : StorageDb L) (p n : ℕ) (id raw : Text)
      → use_disk s.options ≡ true
      → L.db.get s.db id ≡ found raw
      → view (apply_trim s p id n) p id ≡ trim n (view s p id)
  unfolding apply_trim trim
  apply_trim_disk s p n id raw disk e =
      let r = trim_record s id (nonempty_lines raw) n in
      let kept = trim_record-heap s id (nonempty_lines raw) n in
      rw (disk, e)
        (unfold shift_offsets in
          ground (
            arith,
            kept.0,
            kept.1,
            entries_of-found s p id raw disk e,
            contents-shift r p n id (rw kept.1 disk),
            trim_record-contents s p n id raw disk,
          ))
