-- ===== src/Client/Messages/Decryption.antt =====
-- decryptMessage opens what AESEncrypt of pkg/storage/util.go has sealed.
use interactsh.Prelude.{
  ℕ, ◌≡◌, ap, ◌∙◌, sym, true, some, arith, inl, inr, Bool-cases, All, Text, length,
}
use interactsh.Storage.Base64.{encode, decode}
use interactsh.Storage.Base64.Decoding.{IsByte, decode-encode}
use interactsh.Storage.Libraries.{CryptoLib}
use interactsh.Storage.Cipher.{rand_read, seal, block_size, aes_encrypt, valid_key}
use interactsh.Storage.Cipher.Sealing.{
  rand_read-IsByte, length-rand_read, xor_key_stream_twice, sealed_bytes, decode-seal, take-sealed,
  drop-sealed, length-sealed,
}
use interactsh.Client.Messages.{open_sealed, decrypt_message}

module _ (c : CryptoLib) where
  open_sealed-bytes :
      (key iv message : Text)
      → valid_key key ≡ true
      → length iv ≡ block_size
      → All IsByte message
      → open_sealed c key (sealed_bytes c key iv message) ≡ some message
  unfolding open_sealed
  open_sealed-bytes key iv message valid size bytes =
      let stream = c.keystream key iv in
      let fits = length-sealed c key iv message size in
      rw valid (
        rw (take-sealed c key iv message size, drop-sealed c key iv message size)
          (ground
            (arith, fits, xor_key_stream_twice stream (c.keystream-lt key iv) 0 message bytes)))

  decrypt_message-opens :
      (k : c.PrivateKey) (key decoded plain secure cipher_text : Text)
      → decode key ≡ some decoded
      → c.decrypt_oaep k decoded ≡ some plain
      → decode secure ≡ some cipher_text
      → decrypt_message c k key secure ≡ open_sealed c plain cipher_text
  unfolding decrypt_message
  decrypt_message-opens k key decoded plain secure cipher_text d e f = ground (arith, d, e, f)

  -- A message that AESEncrypt has sealed under an AES key, with bytes of the random source, is what
  -- decryptMessage gives back, from the base64 text of that key encrypted to the public key.
  pub decrypt_message-aes_encrypt :
      (k : c.PrivateKey) (seed key encrypted_key message sealed : Text) (source : ℕ → ℕ)
      → c.encrypt_oaep (c.public k) seed key ≡ some encrypted_key
      → All IsByte encrypted_key
      → All IsByte message
      → (aes_encrypt c key message source).0 ≡ some sealed
      → decrypt_message c k (encode encrypted_key) sealed ≡ some message
  unfolding aes_encrypt
  decrypt_message-aes_encrypt k seed key encrypted_key message sealed source enc eb mb done =
      let iv = (rand_read block_size source).0 in
      let iv_bytes = rand_read-IsByte block_size source in
      let size = length-rand_read block_size source in
      elim (Bool-cases (valid_key key)) [
        | inr bad ↦ absurd (ground (arith, bad, done))
        | inl valid ↦
            let text : seal c key iv message ≡ sealed = ground (arith, valid, done) in
            let opened : decode sealed ≡ some (sealed_bytes c key iv message) =
              ap decode (sym text) ∙ decode-seal c key iv message iv_bytes mb in
            decrypt_message-opens k (encode encrypted_key) encrypted_key key sealed
              (sealed_bytes c key iv message) (decode-encode encrypted_key eb)
              (c.decrypt_oaep-encrypt_oaep k seed key encrypted_key enc) opened
            ∙ open_sealed-bytes key iv message valid size mb
      ]
