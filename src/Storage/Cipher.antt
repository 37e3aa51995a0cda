-- ===== src/Storage/Cipher.antt =====
-- pkg/storage/util.go: ParseB64RSAPublicKeyFromPEM and AESEncrypt.
pub mod Bytes
pub mod Sealing
use interactsh.Prelude.{
  ℕ, zero, suc, ◌+◌, ◌%◌, Bool, [], ◌∷◌, ◌++◌, Option, none, some, ◌||◌, ◌==◌, if◌then◌else◌,
  length, Text,
}
use interactsh.Storage.Base64.{encode, decode}
use interactsh.Storage.Libraries.{CryptoLib, ParsedKey, rsa_key, other_key}

-- `n` bytes of the random source, whose values are read as bytes, and the source that is left. A read of it never fails.
unfoldable pub rand_read : ℕ → (ℕ → ℕ) → Text × (ℕ → ℕ)
rand_read zero source = ([], source)
rand_read (suc n) source =
    let (rest, left) = rand_read n (λ i. source (i + 1)) in (source 0 % 256 ∷ rest, left)

abbrev pub block_size : ℕ
block_size = 16

-- The key sizes that aes.NewCipher accepts.
unfoldable pub valid_key : Text → Bool
valid_key key = length key == 16 || length key == 24 || length key == 32

-- XORKeyStream, from byte `i` of the key stream on.
unfoldable pub xor_key_stream : (ℕ → ℕ) → ℕ → Text → Text
xor_key_stream stream i [] = []
xor_key_stream stream i (c ∷ cs) =
    Prim.Native.Nat.bit_xor c (stream i) ∷ xor_key_stream stream (i + 1) cs

module _ (c : CryptoLib) where
  only_rsa : ParsedKey c.PublicKey → Option c.PublicKey
  only_rsa (rsa_key k) = some k
  only_rsa other_key = none

  -- Nothing of the error is kept.
  unfoldable pub parse_b64_rsa_public_key_from_pem : Text → Option c.PublicKey
  unfolding only_rsa
  parse_b64_rsa_public_key_from_pem pub_pem = elim (decode pub_pem) [
    | none ↦ none
    | some decoded ↦ elim (c.pem_decode decoded) [
      | none ↦ none
      | some block ↦ elim (c.parse_pkix_public_key block) [ none ↦ none | some key ↦ only_rsa key ]
    ]
  ]

  -- The text of a message under the initialisation vector `iv`.
  unfoldable pub seal : Text → Text → Text → Text
  unfolding encode xor_key_stream
  seal key iv message = encode (iv ++ xor_key_stream (c.keystream key iv) 0 message)

  -- `none` is the error of aes.NewCipher.
  unfoldable pub aes_encrypt : Text → Text → (ℕ → ℕ) → Option Text × (ℕ → ℕ)
  unfolding valid_key rand_read seal
  aes_encrypt key message source =
      if valid_key key
      then (let (iv, left) = rand_read block_size source in (some (seal key iv message), left))
      else (none, source)
