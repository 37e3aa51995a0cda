-- ===== src/Storage/Base64/Decoding.antt =====
-- Decoding what was encoded gives the bytes back.
use interactsh.Prelude.{
  ℕ, ◌+◌, ◌*◌, ◌/◌, ◌%◌, ◌<◌, ◌≡◌, refl, ◌≢◌, ap, ◌∙◌, [], ◌∷◌, none, some, arith, All, Text,
}
use interactsh.Storage.Lines.{newline, HasNone, IsLine}
use interactsh.Storage.Base64.{
  letter, value_of, pad, encode, last_group, full_group, decode_groups, drop_breaks, decode,
}

-- A byte.
abbrev pub IsByte : ℕ → Type 0
IsByte b = b < 256

value_of-letter : (n : ℕ) → n < 64 → value_of (letter n) ≡ some n
unfolding value_of letter
value_of-letter n h = ground arith

value_of-pad : value_of pad ≡ none
unfolding value_of
value_of-pad = refl

-- No letter is a line break.
IsVisible : ℕ → Type 0
IsVisible c = (c ≢ 10) × (c ≢ 13)

letter-IsVisible : (n : ℕ) → n < 64 → IsVisible (letter n)
unfolding letter IsVisible
letter-IsVisible n h = (λ e. ground arith, λ e. ground arith)

drop_breaks-visible : (s : Text) → All IsVisible s → drop_breaks s ≡ s
unfolding drop_breaks IsVisible
drop_breaks-visible [] h = refl
drop_breaks-visible (c ∷ cs) h = ground (arith, drop_breaks-visible cs h.1, h.0.0, h.0.1)

pad-IsVisible : IsVisible pad
unfolding IsVisible
pad-IsVisible = (λ e. omega arith, λ e. omega arith)

visible-HasNone : (s : Text) → All IsVisible s → HasNone newline s
unfolding IsVisible
visible-HasNone [] h = tt
visible-HasNone (c ∷ cs) h = (h.0.0, visible-HasNone cs h.1)

encode-IsVisible : (s : Text) → All IsByte s → All IsVisible (encode s)
unfolding encode
encode-IsVisible [] h = tt
encode-IsVisible (a ∷ []) h =
    let v = λ (n : ℕ). letter-IsVisible n in
    (v (a / 4) (omega arith), (v (a % 4 * 16) (omega arith), (pad-IsVisible, (pad-IsVisible, tt))))
encode-IsVisible (a ∷ b ∷ []) h =
    let v = λ (n : ℕ). letter-IsVisible n in
    (
      v (a / 4) (omega arith),
      (v (a % 4 * 16 + b / 16) (omega arith), (v (b % 16 * 4) (omega arith), (pad-IsVisible, tt))),
    )
encode-IsVisible (a ∷ b ∷ c ∷ rest) h =
    let v = λ (n : ℕ). letter-IsVisible n in
    (
      v (a / 4) (omega arith),
      (
        v (a % 4 * 16 + b / 16) (omega arith),
        (
          v (b % 16 * 4 + c / 64) (omega arith),
          (v (c % 64) (omega arith), encode-IsVisible rest h.1.1.1),
        ),
      ),
    )

-- A group that is not the last.
decode_groups-cons :
    (w x y z : ℕ) (t : Text)
    → t ≢ []
    → decode_groups (w ∷ x ∷ y ∷ z ∷ t)
      ≡ full_group (value_of w) (value_of x) (value_of y) (value_of z) (decode_groups t)
unfolding decode_groups
decode_groups-cons w x y z [] h = absurd (h refl)
decode_groups-cons w x y z (c ∷ t) h = refl

encode-ne-nil : (c : ℕ) (s : Text) → encode (c ∷ s) ≢ []
unfolding encode
encode-ne-nil a [] e = cc
encode-ne-nil a (b ∷ []) e = cc
encode-ne-nil a (b ∷ c ∷ rest) e = cc

decode_groups-encode : (s : Text) → All IsByte s → decode_groups (encode s) ≡ some s
unfolding encode decode_groups last_group
decode_groups-encode [] h = refl
decode_groups-encode (a ∷ []) h =
    ground (arith, value_of-letter (a / 4), value_of-letter (a % 4 * 16), value_of-pad)
decode_groups-encode (a ∷ b ∷ []) h = ground (
  arith,
  value_of-letter (a / 4),
  value_of-letter (a % 4 * 16 + b / 16),
  value_of-letter (b % 16 * 4),
  value_of-pad,
)
decode_groups-encode (a ∷ b ∷ c ∷ []) h = ground (
  arith,
  value_of-letter (a / 4),
  value_of-letter (a % 4 * 16 + b / 16),
  value_of-letter (b % 16 * 4 + c / 64),
  value_of-letter (c % 64),
)
decode_groups-encode (a ∷ b ∷ c ∷ d ∷ rest) h =
    decode_groups-cons (letter (a / 4)) (letter (a % 4 * 16 + b / 16))
      (letter (b % 16 * 4 + c / 64)) (letter (c % 64)) (encode (d ∷ rest)) (encode-ne-nil d rest)
    ∙ unfold full_group in
      ground (
        arith,
        decode_groups-encode (d ∷ rest),
        value_of-letter (a / 4),
        value_of-letter (a % 4 * 16 + b / 16),
        value_of-letter (b % 16 * 4 + c / 64),
        value_of-letter (c % 64),
      )

-- Decoding the encoding of bytes gives the bytes, whatever the padding.
pub decode-encode : (s : Text) → All IsByte s → decode (encode s) ≡ some s
unfolding decode
decode-encode s h =
    ap decode_groups (drop_breaks-visible (encode s) (encode-IsVisible s h))
    ∙ decode_groups-encode s h

-- The encoding of a text that is not empty is one line.
pub encode-IsLine : (s : Text) → s ≢ [] → All IsByte s → IsLine (encode s)
unfolding IsVisible
encode-IsLine [] h b = absurd (h refl)
encode-IsLine (c ∷ cs) h b = record {
  nonempty = encode-ne-nil c cs;
  no_newline = visible-HasNone (encode (c ∷ cs)) (encode-IsVisible (c ∷ cs) b);
}
