-- ===== src/Prelude/Maps.antt =====
-- Go's map with string keys, as an association list. A nil map reads, deletes and ranges like an
-- empty one. The source's loops over a map do not depend on the order of the entries.

use mathlib.Core.Path.{◌≡◌, refl}
use mathlib.Core.Bool.{Bool, false, ◌||◌}
use mathlib.Core.List.{List, [], ◌∷◌}
use mathlib.Core.Option.{Option, none, some}
use native.Mathlib.Omega.{arith}
use interactsh.Prelude.Tests.{if◌then◌else◌}
use interactsh.Prelude.Strings.{Text, text_eq, text_eq_iff}

abbrev pub Assoc {ℓ} : Type ℓ → Type ℓ
Assoc V = List (Text × V)

-- Whether a key is in a list.
unfoldable pub has : Text → List Text → Bool
has j [] = false
has j (k ∷ ks) = text_eq k j || has j ks

module _ {ℓ} {V : Type ℓ} where
  unfoldable pub lookup : Text → Assoc V → Option V
  lookup k [] = none
  lookup k ((j, v) ∷ m) = if text_eq j k then some v else lookup k m

  unfoldable pub delete : Text → Assoc V → Assoc V
  delete k [] = []
  delete k ((j, v) ∷ m) = let rest = delete k m in if text_eq j k then rest else (j, v) ∷ rest

  unfoldable pub insert : Text → V → Assoc V → Assoc V
  unfolding delete
  insert k v m = (k, v) ∷ delete k m

  pub lookup-delete :
      (k j : Text) (m : Assoc V)
      → lookup j (delete k m) ≡ (if text_eq k j then none else lookup j m)
  unfolding lookup delete
  lookup-delete k j [] = ground arith
  lookup-delete k j ((i, v) ∷ m) =
      ground (arith, lookup-delete k j m, text_eq_iff i k, text_eq_iff i j, text_eq_iff k j)

  pub lookup-insert :
      (k j : Text) (v : V) (m : Assoc V)
      → lookup j (insert k v m) ≡ (if text_eq k j then some v else lookup j m)
  unfolding lookup insert
  lookup-insert k j v m = ground (arith, lookup-delete k j m)

module _ {ℓ κ} {V : Type ℓ} {W : Type κ} where
  -- for k, v := range m { m[k] = f(v) }
  unfoldable pub map_values : (V → W) → Assoc V → Assoc W
  map_values f [] = []
  map_values f ((j, v) ∷ m) = (j, f v) ∷ map_values f m

  pub lookup-map_values :
      (f : V → W) (j : Text) (m : Assoc V)
      → lookup j (map_values f m) ≡ (elim (lookup j m) [ none ↦ none | some v ↦ some (f v) ])
  unfolding lookup map_values
  lookup-map_values f j [] = refl
  lookup-map_values f j ((i, v) ∷ m) = ground (arith, lookup-map_values f j m)
