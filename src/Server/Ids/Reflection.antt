-- ===== src/Server/Ids/Reflection.antt =====
-- URLReflection of pkg/server/server.go: where it panics.
use interactsh.Prelude.{ℕ, ◌≤◌, ◌≡◌, ◌≢◌, refl, List, [], ◌∷◌, none, arith, length, Text}
use mathlib.Core.List.{Memᴰ}
use interactsh.Storage.Lines.{split, cons_first, HasNone, split-HasNone, split-ne-nil}
use interactsh.Server.Options.{ServerOptions, Utilities}
use interactsh.Server.Ids.{dot, get_url_id_component, url_reflection}
use interactsh.Server.Http.Types.{Request}
use interactsh.Server.Http.Pages.{Site, default_handler}

length-cons_first : (c : ℕ) (xs : List Text) → xs ≢ [] → length (cons_first c xs) ≡ length xs
length-cons_first c [] h = absurd (h refl)
length-cons_first c (x ∷ xs) h = refl

length_pos : (xs : List Text) → xs ≢ [] → 1 ≤ length xs
length_pos [] h = absurd (h refl)
length_pos (x ∷ xs) h = omega arith

split-length : (sep : ℕ) (a : Text) → Memᴰ sep a → 2 ≤ length (split sep a)
unfolding split
split-length sep [] m = elim m [ ]
split-length sep (c ∷ cs) (Memᴰ.head e) =
    ground (arith, e, length_pos (split sep cs) (split-ne-nil sep cs))
split-length sep (c ∷ cs) (Memᴰ.tail m) =
    ground (arith, split-length sep cs m, length-cons_first c (split sep cs) (split-ne-nil sep cs))

-- A request for any page makes the handler panic, before a page is chosen, if its Host has no
-- dot; if it has one, a page is chosen.
pub default_handler-panics :
    (u : Utilities) (options : ServerOptions) (site : Site) (req : Request)
    → (HasNone dot req.host → default_handler u options site req ≡ none)
      × (Memᴰ dot req.host → default_handler u options site req ≢ none)
unfolding default_handler url_reflection get_url_id_component
default_handler-panics u options site req = (
  λ bare. ground (arith, split-HasNone dot req.host bare),
  λ dotted e. ground (arith, split-length dot req.host dotted),
)
