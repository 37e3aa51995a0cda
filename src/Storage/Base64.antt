-- ===== src/Storage/Base64.antt =====
-- base64.StdEncoding, as pkg/storage/util.go and pkg/client/client.go use it.
pub mod Decoding
use interactsh.Prelude.{
  ℕ, ◌+◌, ◌-◌, ◌*◌, ◌/◌, ◌%◌, [], ◌∷◌, Option, none, some, ◌||◌, ltb, leb, ◌==◌, ◌&&◌,
  if◌then◌else◌, Text,
}

-- The letter of a six-bit value.
unfoldable pub letter : ℕ → ℕ
letter n =
    if ltb n 26
    then n + 65
    else if ltb n 52
    then n + 71
    else if ltb n 62
    then n - 4
    else if n == 62
    then 43
    else 47

-- The six-bit value of a letter.
unfoldable pub value_of : ℕ → Option ℕ
value_of c =
    if leb 65 c && leb c 90
    then some (c - 65)
    else if leb 97 c && leb c 122
    then some (c - 71)
    else if leb 48 c && leb c 57
    then some (c + 4)
    else if c == 43
    then some 62
    else if c == 47
    then some 63
    else none

abbrev pad : ℕ
pad = b'='

-- EncodeToString.
unfoldable pub encode : Text → Text
unfolding letter
encode [] = []
encode (a ∷ []) = letter (a / 4) ∷ letter (a % 4 * 16) ∷ pad ∷ pad ∷ []
encode (a ∷ b ∷ []) = letter (a / 4) ∷ letter (a % 4 * 16 + b / 16) ∷ letter (b % 16 * 4) ∷ pad ∷ []
encode (a ∷ b ∷ c ∷ rest) =
    letter (a / 4)
    ∷ letter (a % 4 * 16 + b / 16)
    ∷ letter (b % 16 * 4 + c / 64)
    ∷ letter (c % 64)
    ∷ encode rest

-- The bytes of a last group of four letters, which may be padded.
unfoldable pub last_group : Option ℕ → Option ℕ → ℕ → ℕ → Option Text
unfolding value_of
last_group none v c d = none
last_group (some u) none c d = none
last_group (some u) (some v) c d = elim (value_of c) [
  | none ↦ if c == pad && d == pad then some ((u * 4 + v / 16) ∷ []) else none
  | some w ↦ elim (value_of d) [
    | none ↦ if d == pad then some ((u * 4 + v / 16) ∷ (v % 16 * 16 + w / 4) ∷ []) else none
    | some x ↦ some ((u * 4 + v / 16) ∷ (v % 16 * 16 + w / 4) ∷ (w % 4 * 64 + x) ∷ [])
  ]
]

-- The bytes of a group that is not the last: it has no padding.
unfoldable pub full_group : Option ℕ → Option ℕ → Option ℕ → Option ℕ → Option Text → Option Text
full_group (some u) (some v) (some w) (some x) (some rest) =
    some ((u * 4 + v / 16) ∷ (v % 16 * 16 + w / 4) ∷ (w % 4 * 64 + x) ∷ rest)
full_group _ _ _ _ _ = none

-- Decoding of a text with no line breaks.
unfoldable pub decode_groups : Text → Option Text
unfolding last_group full_group value_of
decode_groups [] = some []
decode_groups (a ∷ b ∷ c ∷ d ∷ []) = last_group (value_of a) (value_of b) c d
decode_groups (a ∷ b ∷ c ∷ d ∷ e ∷ rest) =
    full_group (value_of a) (value_of b) (value_of c) (value_of d) (decode_groups (e ∷ rest))
decode_groups _ = none

-- The decoder passes over '\r' and '\n'.
unfoldable pub drop_breaks : Text → Text
drop_breaks [] = []
drop_breaks (c ∷ cs) = let rest = drop_breaks cs in if c == 10 || c == 13 then rest else c ∷ rest

-- DecodeString.
unfoldable pub decode : Text → Option Text
unfolding decode_groups drop_breaks
decode s = decode_groups (drop_breaks s)
