-- ===== src/Client/Keys.antt =====
-- How a client writes and reads keys (pkg/client/client.go): encodePublicKey and decodePublicKey.
use interactsh.Prelude.{Option, none, some, Text, ◌≡◌, All}
use interactsh.Storage.Base64.{encode, decode}
use interactsh.Storage.Base64.Decoding.{IsByte}
use interactsh.Storage.Libraries.{CryptoLib, ParsedKey, rsa_key, other_key}
use interactsh.Server.Http.Sessions.{RegisterRequest}

-- crypto/x509, encoding/pem and jsoniter. The laws: a private key is read back from its PKCS #1
-- form, a public key from its PKIX form in a PEM block, and both forms
-- are of bytes.
pub record KeyLib (c : CryptoLib) : Type 0 where
  pub marshal_pkcs1 : c.PrivateKey → Text
  pub parse_pkcs1 : Text → Option c.PrivateKey
  pub marshal_pkix : c.PublicKey → Option Text
  pub pem_encode : Text → Text
  pub marshal_request : RegisterRequest → Option Text
  pub parse_pkcs1-marshal_pkcs1 : (k : c.PrivateKey) → parse_pkcs1 (marshal_pkcs1 k) ≡ some k
  pub parse_pkix-marshal_pkix :
      (k : c.PublicKey) (t : Text)
      → marshal_pkix k ≡ some t
      → c.parse_pkix_public_key t ≡ some (rsa_key k)
  pub pem_decode-pem_encode : (t : Text) → c.pem_decode (pem_encode t) ≡ some t
  pub marshal_pkix-IsByte : (k : c.PublicKey) (t : Text) → marshal_pkix k ≡ some t → All IsByte t
  pub pem_encode-IsByte : (t : Text) → All IsByte t → All IsByte (pem_encode t)

module _ (c : CryptoLib) where
  only_rsa : ParsedKey c.PublicKey → Option c.PublicKey
  only_rsa (rsa_key k) = some k
  only_rsa other_key = none

  -- decodePublicKey
  unfoldable pub decode_public_key : Text → Option c.PublicKey
  unfolding only_rsa
  decode_public_key data_text = elim (decode data_text) [
    | none ↦ none
    | some decoded ↦ elim (c.pem_decode decoded) [
      | none ↦ none
      | some block ↦ elim (c.parse_pkix_public_key block) [ none ↦ none | some key ↦ only_rsa key ]
    ]
  ]

  module _ (keys : KeyLib c) where
    -- encodePublicKey
    unfoldable pub encode_public_key : c.PublicKey → Option Text
    encode_public_key k = elim (keys.marshal_pkix k) [
      | none ↦ none
      | some der ↦ some (encode (keys.pem_encode der))
    ]
