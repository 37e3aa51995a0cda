-- ===== src/Server/Watching/Lines.antt =====
-- Which lines of a log file are sent.
use interactsh.Prelude.{
  ◌≡◌, refl, sym, ap, ◌∙◌, inl, inr, true, List, [], ◌∷◌, ◌++◌, arith, if◌then◌else◌, Bool-cases,
  Text, has, text_eq_iff,
}
use interactsh.Server.Watching.{scan_lines, tick, watch_from}

-- The texts that are not in the first list.
unfoldable pub without : List Text → List Text → List Text
without seen [] = []
without seen (x ∷ xs) = let rest = without seen xs in if has x seen then rest else x ∷ rest

-- The first occurrences of a list's texts.
unfoldable pub distinct : List Text → List Text
unfolding without
distinct [] = []
distinct (x ∷ xs) = x ∷ without (x ∷ []) (distinct xs)

unfoldable pub all_lines : List Text → List Text
unfolding scan_lines
all_lines [] = []
all_lines (content ∷ contents) = scan_lines content ++ all_lines contents

without-without :
    (x : Text) (seen xs : List Text) → without seen (without (x ∷ []) xs) ≡ without (x ∷ seen) xs
unfolding without has
without-without x seen [] = refl
without-without x seen (y ∷ ys) = ground (arith, without-without x seen ys)

without-known :
    (x : Text) (seen xs : List Text) → has x seen ≡ true → without (x ∷ seen) xs ≡ without seen xs
unfolding without has
without-known x seen [] h = refl
without-known x seen (y ∷ ys) h = ground (arith, without-known x seen ys h, text_eq_iff x y, h)

tick-without : (xs seen : List Text) → (tick xs seen).0 ≡ without seen (distinct xs)
unfolding tick without distinct
tick-without [] seen = refl
tick-without (x ∷ xs) seen = elim (Bool-cases (has x seen)) [
  | inl known ↦ ground (
    arith,
    known,
    tick-without xs seen,
    without-without x seen (distinct xs),
    without-known x seen (distinct xs) known,
  )
  | inr fresh ↦
      ground (arith, fresh, tick-without xs (x ∷ seen), without-without x seen (distinct xs))
]

tick-append :
    (xs ys seen : List Text)
    → (tick (xs ++ ys) seen).0 ≡ (tick xs seen).0 ++ (tick ys (tick xs seen).1).0
unfolding tick
tick-append [] ys seen = refl
tick-append (x ∷ xs) ys seen = elim (Bool-cases (has x seen)) [
  | inl known ↦ ground (arith, known, tick-append xs ys seen)
  | inr fresh ↦ ground (arith, fresh, tick-append xs ys (x ∷ seen))
]

watch_from-tick :
    (contents seen : List Text) → watch_from seen contents ≡ (tick (all_lines contents) seen).0
unfolding watch_from all_lines tick
watch_from-tick [] seen = refl
watch_from-tick (content ∷ contents) seen =
    ap (λ t. (tick (scan_lines content) seen).0 ++ t)
      (watch_from-tick contents (tick (scan_lines content) seen).1)
    ∙ sym (tick-append (scan_lines content) (all_lines contents) seen)

without-nil : (xs : List Text) → without [] xs ≡ xs
unfolding without has
without-nil [] = refl
without-nil (x ∷ xs) = ap (λ t. x ∷ t) (without-nil xs)

-- Over all ticks, and whatever the file contains at each of them, Watch sends the distinct lines
-- that it has read, each once and in the order in which they were first read.
pub watch_from-distinct :
    (contents : List Text) → watch_from [] contents ≡ distinct (all_lines contents)
watch_from-distinct contents =
    watch_from-tick contents []
    ∙ tick-without (all_lines contents) []
    ∙ without-nil (distinct (all_lines contents))
