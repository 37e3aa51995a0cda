-- ===== src/Storage/Cipher/Bytes.antt =====
-- Exclusive or of bytes, counted over every pair.
use Prim.Native.Nat.{bit_xor}
use interactsh.Prelude.{
  ℕ, zero, suc, ◌+◌, ◌<◌, ◌≡◌, refl, inl, inr, Bool, true, ◌&&◌, if◌then◌else◌, arith, ◌==◌, ==_iff,
  ltb, Bool-cases,
}
use interactsh.Storage.Base64.Decoding.{IsByte}

-- Whether a second exclusive or with `y` gives `x` back, from a byte.
abbrev undoes : ℕ → ℕ → Bool
undoes x y = (bit_xor (bit_xor x y) y == x) && ltb (bit_xor x y) 256

-- How many `y` below the bound do not undo, for one `x`, and for each `x` below a bound.
misses_of : ℕ → ℕ → ℕ
misses_of x zero = 0
misses_of x (suc y) = let others = misses_of x y in if undoes x y then others else suc others

misses : ℕ → ℕ → ℕ
unfolding misses_of
misses zero bound = 0
misses (suc x) bound = misses_of x bound + misses x bound

no_miss : misses 256 256 ≡ 0
unfolding misses
no_miss = refl

misses_of-undoes : (x y bound : ℕ) → y < bound → misses_of x bound ≡ 0 → undoes x y ≡ true
unfolding misses_of
misses_of-undoes x y zero below none_missed = absurd (omega arith)
misses_of-undoes x y (suc bound) below none_missed = elim (Bool-cases (undoes x bound)) [
  | inr missed ↦ absurd (ground (arith, missed, none_missed))
  | inl fine ↦ elim (Bool-cases (y == bound)) [
    | inl last ↦ ground (arith, fine, last, ==_iff y bound)
    | inr earlier ↦
        misses_of-undoes x y bound (ground (arith, earlier, below))
          (ground (arith, fine, none_missed))
  ]
]

misses-undoes :
    (x y size bound : ℕ) → x < size → y < bound → misses size bound ≡ 0 → undoes x y ≡ true
unfolding misses
misses-undoes x y zero bound in_rows below none_missed = absurd (omega arith)
misses-undoes x y (suc size) bound in_rows below none_missed = elim (Bool-cases (x == size)) [
  | inl last ↦
      let same : x ≡ size = (==_iff x size).0 last in
      misses_of-undoes x y bound below (ground (arith, same, none_missed))
  | inr earlier ↦
      misses-undoes x y size bound (ground (arith, earlier, in_rows)) below
        (ground (arith, none_missed))
]

pub xor_twice :
    (x y : ℕ) → IsByte x → IsByte y → (bit_xor (bit_xor x y) y ≡ x) × IsByte (bit_xor x y)
xor_twice x y x_byte y_byte =
    let undone = misses-undoes x y 256 256 x_byte y_byte no_miss in ground (arith, undone)
