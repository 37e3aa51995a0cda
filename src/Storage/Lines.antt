-- ===== src/Storage/Lines.antt =====
-- The disk record of an id: entries joined by "\n" (pkg/storage/util.go, AppendMany, and the
-- bytes.Split loops of pkg/storage/storagedb.go).
use interactsh.Prelude.{
  ℕ, ◌≡◌, refl, sym, ◌∙◌, ◌≢◌, inl, inr, List, [], ◌∷◌, ◌++◌, append-nil, arith, ◌==◌, ==_iff,
  if◌then◌else◌, Bool-cases, is_empty, All, Text,
}

abbrev pub newline : ℕ
newline = b'\n'

-- Puts a byte in front of the first piece of a split.
abbrev pub cons_first : ℕ → List Text → List Text
cons_first c [] = (c ∷ []) ∷ []
cons_first c (x ∷ xs) = (c ∷ x) ∷ xs

-- bytes.Split and strings.Split at a separator of one byte.
unfoldable pub split : ℕ → Text → List Text
split sep [] = [] ∷ []
split sep (c ∷ cs) = let rest = split sep cs in if c == sep then [] ∷ rest else cons_first c rest

-- bytes.Join and strings.Join with a separator of one byte.
unfoldable pub join : ℕ → List Text → Text
join sep [] = []
join sep (x ∷ []) = x
join sep (x ∷ y ∷ xs) = x ++ (sep ∷ join sep (y ∷ xs))

-- if len(d) > 0 { out = append(out, d) }
unfoldable pub keep_nonempty : List Text → List Text
keep_nonempty [] = []
keep_nonempty (x ∷ xs) = let rest = keep_nonempty xs in if is_empty x then rest else x ∷ rest

-- The entries of a disk record.
unfoldable pub nonempty_lines : Text → List Text
unfolding split keep_nonempty
nonempty_lines raw = keep_nonempty (split newline raw)

-- AppendMany(sep, slices...), at a separator of one byte.
unfoldable pub append_many : ℕ → List Text → Text
unfolding join keep_nonempty
append_many sep slices = join sep (keep_nonempty slices)

keep_nonempty-append :
    (xs ys : List Text) → keep_nonempty (xs ++ ys) ≡ keep_nonempty xs ++ keep_nonempty ys
unfolding keep_nonempty
keep_nonempty-append [] ys = refl
keep_nonempty-append (x ∷ xs) ys = ground (arith, keep_nonempty-append xs ys)

pub split-ne-nil : (sep : ℕ) (a : Text) → split sep a ≢ []
unfolding split
split-ne-nil sep [] e = cc
split-ne-nil sep (c ∷ cs) e = ground (arith, split-ne-nil sep cs)

cons_first-append :
    (c : ℕ) (xs ys : List Text) → xs ≢ [] → cons_first c (xs ++ ys) ≡ cons_first c xs ++ ys
cons_first-append c [] ys h = absurd (h refl)
cons_first-append c (x ∷ xs) ys h = refl

split-append : (sep : ℕ) (a b : Text) → split sep (a ++ (sep ∷ b)) ≡ split sep a ++ split sep b
unfolding split
split-append sep [] b = ground (arith, ==_iff sep sep)
split-append sep (c ∷ cs) b = ground (
  arith,
  split-append sep cs b,
  cons_first-append c (split sep cs) (split sep b),
  split-ne-nil sep cs,
)

-- Two records joined by a newline hold the entries of the first and then those of the second.
pub nonempty_lines-append :
    (a b : Text) → nonempty_lines (a ++ (newline ∷ b)) ≡ nonempty_lines a ++ nonempty_lines b
unfolding nonempty_lines
nonempty_lines-append a b =
    rw (split-append newline a b) (keep_nonempty-append (split newline a) (split newline b))

-- Appending to a record adds the entries of the new text at the end.
pub nonempty_lines-append_many :
    (a b : Text)
    → nonempty_lines (append_many newline (a ∷ b ∷ [])) ≡ nonempty_lines a ++ nonempty_lines b
unfolding append_many nonempty_lines
nonempty_lines-append_many [] [] = refl
nonempty_lines-append_many [] (d ∷ b) = refl
nonempty_lines-append_many (c ∷ a) [] = sym (append-nil (nonempty_lines (c ∷ a)))
nonempty_lines-append_many (c ∷ a) (d ∷ b) = nonempty_lines-append (c ∷ a) (d ∷ b)

-- An entry that a record can hold: not empty, and without a newline.
abbrev pub HasNone : ℕ → Text → Type 0
HasNone sep = All (λ c. c ≢ sep)

pub record IsLine (l : Text) : Type 0 where
  pub nonempty : l ≢ []
  pub no_newline : HasNone newline l

pub split-HasNone : (sep : ℕ) (a : Text) → HasNone sep a → split sep a ≡ a ∷ []
unfolding split
split-HasNone sep [] h = refl
split-HasNone sep (c ∷ cs) h = ground (arith, split-HasNone sep cs, h.0, h.1)

pub nonempty_lines-IsLine : (l : Text) → IsLine l → nonempty_lines l ≡ l ∷ []
unfolding nonempty_lines
nonempty_lines-IsLine [] h = absurd (h.nonempty refl)
nonempty_lines-IsLine (c ∷ cs) h = rw (split-HasNone newline (c ∷ cs) h.no_newline) refl

-- Joining entries and reading the record back gives the entries.
pub nonempty_lines-join : (xs : List Text) → All IsLine xs → nonempty_lines (join newline xs) ≡ xs
unfolding join
nonempty_lines-join [] h = unfold nonempty_lines in refl
nonempty_lines-join (x ∷ []) h = nonempty_lines-IsLine x h.0
nonempty_lines-join (x ∷ y ∷ xs) h =
    nonempty_lines-append x (join newline (y ∷ xs))
    ∙ rw (nonempty_lines-IsLine x h.0, nonempty_lines-join (y ∷ xs) h.1) refl

All-HasNone-cons_first :
    (sep c : ℕ) (xs : List Text)
    → c ≢ sep
    → All (HasNone sep) xs
    → All (HasNone sep) (cons_first c xs)
All-HasNone-cons_first sep c [] n h = ((n, tt), tt)
All-HasNone-cons_first sep c (x ∷ xs) n h = ((n, h.0), h.1)

split-All : (sep : ℕ) (a : Text) → All (HasNone sep) (split sep a)
unfolding split
split-All sep [] = (tt, tt)
split-All sep (c ∷ cs) = elim (Bool-cases (c == sep)) [
  | inl e ↦ rw e (tt, split-All sep cs)
  | inr e ↦ rw e (All-HasNone-cons_first sep c (split sep cs) (ground arith) (split-All sep cs))
]

keep_nonempty-All : (xs : List Text) → All (HasNone newline) xs → All IsLine (keep_nonempty xs)
unfolding keep_nonempty
keep_nonempty-All [] h = tt
keep_nonempty-All ([] ∷ xs) h = keep_nonempty-All xs h.1
keep_nonempty-All ((c ∷ cs) ∷ xs) h =
    (record { nonempty = λ e. cc; no_newline = h.0 }, keep_nonempty-All xs h.1)

-- What is read from any record is a list of entries that a record can hold.
pub nonempty_lines-All : (raw : Text) → All IsLine (nonempty_lines raw)
unfolding nonempty_lines
nonempty_lines-All raw = keep_nonempty-All (split newline raw) (split-All newline raw)
