-- ===== src/Storage/Cipher/Sealing.antt =====
-- The random source and the key stream of AESEncrypt: a sealed text holds its message.

use interactsh.Prelude.{
  ℕ, zero, suc, ◌+◌, ◌≤◌, ◌≡◌, refl, ap, ap₂, [], ◌∷◌, ◌++◌, some, arith, length, take, drop, All,
  All-append, Text, length-append, inl, inr, Bool-cases, subst, ◌≢◌,
}
use interactsh.Storage.Base64.{encode, decode}
use interactsh.Storage.Base64.Decoding.{IsByte, decode-encode, encode-IsLine}
use interactsh.Storage.Lines.{IsLine}
use interactsh.Storage.Cipher.Bytes.{xor_twice}
use interactsh.Storage.Libraries.{CryptoLib}
use interactsh.Storage.Cipher.{rand_read, xor_key_stream, seal, block_size, aes_encrypt, valid_key}

-- A key stream of bytes.
abbrev pub IsSource : (ℕ → ℕ) → Type 0
IsSource source = (i : ℕ) → IsByte (source i)

pub rand_read-IsByte : (n : ℕ) (source : ℕ → ℕ) → All IsByte (rand_read n source).0
unfolding rand_read
rand_read-IsByte zero source = tt
rand_read-IsByte (suc n) source = (omega arith, rand_read-IsByte n (λ i. source (i + 1)))

pub length-rand_read : (n : ℕ) (source : ℕ → ℕ) → length (rand_read n source).0 ≡ n
unfolding rand_read
length-rand_read zero source = refl
length-rand_read (suc n) source = ap suc (length-rand_read n (λ i. source (i + 1)))

module _ (stream : ℕ → ℕ) (bytes : IsSource stream) where
  pub xor_key_stream-IsByte :
      (i : ℕ) (message : Text) → All IsByte message → All IsByte (xor_key_stream stream i message)
  unfolding xor_key_stream
  xor_key_stream-IsByte i [] h = tt
  xor_key_stream-IsByte i (c ∷ cs) h =
      ((xor_twice c (stream i) h.0 (bytes i)).1, xor_key_stream-IsByte (i + 1) cs h.1)

  pub xor_key_stream_twice :
      (i : ℕ) (message : Text)
      → All IsByte message
      → xor_key_stream stream i (xor_key_stream stream i message) ≡ message
  unfolding xor_key_stream
  xor_key_stream_twice i [] h = refl
  xor_key_stream_twice i (c ∷ cs) h =
      ap₂ ◌∷◌ (xor_twice c (stream i) h.0 (bytes i)).0 (xor_key_stream_twice (i + 1) cs h.1)

take-of-append : (n : ℕ) (a b : Text) → length a ≡ n → take n (a ++ b) ≡ a
take-of-append zero [] b h = refl
take-of-append zero (x ∷ a) b h = absurd (omega arith)
take-of-append (suc n) [] b h = absurd (omega arith)
take-of-append (suc n) (x ∷ a) b h = ap (◌∷◌ x) (take-of-append n a b (omega arith))

drop-of-append : (n : ℕ) (a b : Text) → length a ≡ n → drop n (a ++ b) ≡ b
drop-of-append zero [] b h = refl
drop-of-append zero (x ∷ a) b h = absurd (omega arith)
drop-of-append (suc n) [] b h = absurd (omega arith)
drop-of-append (suc n) (x ∷ a) b h = drop-of-append n a b (omega arith)

module _ (c : CryptoLib) (key iv message : Text) where
  -- What seal encodes.
  abbrev pub sealed_bytes : Text
  sealed_bytes = iv ++ xor_key_stream (c.keystream key iv) 0 message

  pub decode-seal :
      All IsByte iv → All IsByte message → decode (seal c key iv message) ≡ some sealed_bytes
  unfolding seal
  decode-seal hi hm = decode-encode sealed_bytes (
      All-append IsByte iv _ hi
        (xor_key_stream-IsByte (c.keystream key iv) (c.keystream-lt key iv) 0 message hm))

  pub take-sealed : length iv ≡ block_size → take block_size sealed_bytes ≡ iv
  take-sealed h = take-of-append block_size iv _ h

  pub drop-sealed :
      length iv ≡ block_size
      → drop block_size sealed_bytes ≡ xor_key_stream (c.keystream key iv) 0 message
  drop-sealed h = drop-of-append block_size iv _ h

  pub length-sealed : length iv ≡ block_size → block_size ≤ length sealed_bytes
  length-sealed h = omega (arith, length-append iv (xor_key_stream (c.keystream key iv) 0 message))

  pub sealed-IsByte : All IsByte iv → All IsByte message → All IsByte sealed_bytes
  sealed-IsByte hi hm =
      All-append IsByte iv _ hi
        (xor_key_stream-IsByte (c.keystream key iv) (c.keystream-lt key iv) 0 message hm)

-- What AESEncrypt makes of bytes is one line.
pub aes_encrypt-IsLine :
    (c : CryptoLib) (key message sealed : Text) (source : ℕ → ℕ)
    → All IsByte message
    → (aes_encrypt c key message source).0 ≡ some sealed
    → IsLine sealed
unfolding aes_encrypt seal
aes_encrypt-IsLine c key message sealed source bytes done =
    let iv = (rand_read block_size source).0 in
    elim (Bool-cases (valid_key key)) [
      | inr bad ↦ absurd (ground (arith, bad, done))
      | inl valid ↦
          let text : encode (sealed_bytes c key iv message) ≡ sealed =
            ground (arith, valid, done) in
          subst IsLine text (
            encode-IsLine (sealed_bytes c key iv message)
              (iv-nonempty (length-rand_read block_size source))
              (sealed-IsByte c key iv message (rand_read-IsByte block_size source) bytes))
    ]
  where
    iv-nonempty :
        length (rand_read block_size source).0 ≡ block_size
        → sealed_bytes c key (rand_read block_size source).0 message ≢ []
    iv-nonempty size e = absurd (
        omega (
          arith,
          ap length e,
          length-append (rand_read block_size source).0
              (xor_key_stream (c.keystream key (rand_read block_size source).0) 0 message),
        ))
