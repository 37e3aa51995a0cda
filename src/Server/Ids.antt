-- ===== src/Server/Ids.antt =====
-- Where the servers find correlation ids: isCorrelationID (pkg/server/util.go), URLReflection and
-- getURLIDComponent (pkg/server/server.go), and the loops that search a request for ids.
pub mod Reflection
use interactsh.Prelude.{
  ℕ, zero, suc, ◌+◌, ◌-◌, ◌≡◌, Bool, true, false, not, ◌&&◌, ◌||◌, List, [], ◌∷◌, ◌++◌, Option,
  none, some, ltb, ◌==◌, if◌then◌else◌, length, take, Text, to_lower,
}
use mathlib.Core.List.{reverse}
use interactsh.Storage.Lines.{split, join}
use interactsh.Server.Options.{ServerOptions, Utilities, get_id_length}

abbrev pub dot : ℕ
dot = b'.'

-- The pairs of a unique id and a full id that a search meets, in its order.
abbrev pub Matches : Type 0
Matches = List (Text × Text)

-- What is left in `uniqueID` and `fullID` by a loop that assigns at each match.
unfoldable pub last_match : Matches → Option (Text × Text)
last_match [] = none
last_match (m ∷ []) = some m
last_match (m ∷ n ∷ ms) = last_match (n ∷ ms)

module _ (u : Utilities) (options : ServerOptions) where
  -- An xid is asked for where the length is that of an xid, 12 here.
  unfoldable pub is_correlation_id : Text → Bool
  unfolding get_id_length
  is_correlation_id s =
      length s == get_id_length options
      && u.is_alphanumeric s
      && (not (options.correlation_id_length == 12)
          || u.is_xid (to_lower (take options.correlation_id_length s)))

  -- The windows of a text that are ids, each read through `normalize`, with the given full id.
  unfoldable pub ids_among : (Text → Text) → (Text → Text) → List Text → Matches
  ids_among normalize full [] = []
  ids_among normalize full (w ∷ ws) =
      let rest = ids_among normalize full ws in
      if is_correlation_id (normalize w) then (normalize w, full w) ∷ rest else rest

  -- for i, part := range parts: the full id is parts[:i+1], joined by dots.
  unfoldable pub scan_parts : (Text → Text) → List Text → List Text → Matches
  unfolding join
  scan_parts normalize before [] = []
  scan_parts normalize before (part ∷ parts) =
      ids_among normalize (λ w. join dot (before ++ (part ∷ [])))
        (u.slide_with_length part (get_id_length options))
      ++ scan_parts normalize (before ++ (part ∷ [])) parts

  -- for _, chunk := range chunks, with a full id that depends on the chunk and the window.
  unfoldable pub scan_chunks : (Text → Text → Text) → List Text → Matches
  unfolding ids_among
  scan_chunks full [] = []
  scan_chunks full (chunk ∷ chunks) =
      ids_among to_lower (full chunk) (u.slide_with_length chunk (get_id_length options))
      ++ scan_chunks full chunks

  -- A part that is itself an id (pkg/server/smtp_server.go); it is not lowered.
  unfoldable pub exact_parts : List Text → List Text → Matches
  unfolding join
  exact_parts before [] = []
  exact_parts before (part ∷ parts) =
      ids_among (λ w. w) (λ w. join dot (before ++ (part ∷ []))) (part ∷ [])
      ++ exact_parts (before ++ (part ∷ [])) parts

  -- A loop of getURLIDComponent: the last part with an id in it.
  unfoldable pub last_part_with_id : Text → List Text → Text
  unfolding ids_among
  last_part_with_id found [] = found
  last_part_with_id found (part ∷ parts) =
      last_part_with_id
        (elim (ids_among (λ w. w) (λ w. part) (u.slide_with_length part (get_id_length options))) [
          | [] ↦ found
          | m ∷ ms ↦ part
        ])
        parts

  -- `none` is the panic of parts[:len(parts)-2] on a URL with no dot.
  unfoldable pub get_url_id_component : Text → Option Text
  unfolding split last_part_with_id
  get_url_id_component url =
      let parts = split dot url in
      if ltb (length parts) 2
      then none
      else some (last_part_with_id [] (take (length parts - 2) parts))

  unfoldable pub url_reflection : Text → Option Text
  url_reflection url = elim (get_url_id_component url) [
    | none ↦ none
    | some random_id ↦ some (reverse random_id)
  ]
