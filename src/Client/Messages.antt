-- ===== src/Client/Messages.antt =====
-- What a client makes of a poll's answer (pkg/client/client.go): getInteractions and decryptMessage.
pub mod Decryption
use interactsh.Prelude.{
  ℕ, Bool, true, false, ◌||◌, ◌&&◌, List, [], ◌∷◌, ◌++◌, Option, none, some, if◌then◌else◌, ltb,
  ◌==◌, length, take, drop, is_empty, Text, codes,
}
use interactsh.Storage.Base64.{decode}
use interactsh.Storage.Libraries.{CryptoLib}
use interactsh.Storage.Cipher.{valid_key, block_size, xor_key_stream}
use interactsh.Server.Options.{Interaction}
use interactsh.Server.Http.Types.{PollResponse}
use interactsh.Client.Lifecycle.{
  ClientError, request_failed, bad_status, unauthorized, bad_response, id_not_found,
}

-- The part of decryptMessage after both texts are decoded and the key is decrypted.
unfoldable pub open_sealed : (c : CryptoLib) → Text → Text → Option Text
open_sealed c key cipher_text =
    if valid_key key
    then (if ltb (length cipher_text) block_size
        then none
        else some (
            xor_key_stream (c.keystream key (take block_size cipher_text)) 0
              (drop block_size cipher_text)))
    else none

-- decryptMessage; `none` is each of its errors.
unfoldable pub decrypt_message : (c : CryptoLib) → c.PrivateKey → Text → Text → Option Text
unfolding open_sealed
decrypt_message c priv_key key secure_message = elim (decode key) [
  | none ↦ none
  | some decoded_key ↦ elim (c.decrypt_oaep priv_key decoded_key) [
    | none ↦ none
    | some key_plaintext ↦ elim (decode secure_message) [
      | none ↦ none
      | some cipher_text ↦ open_sealed c key_plaintext cipher_text
    ]
  ]
]

-- bytes.TrimRight(plaintext, " \t\r\n")
unfoldable pub trim_right : Text → Text
trim_right [] = []
trim_right (c ∷ cs) =
    let rest = trim_right cs in
    if is_empty rest && (c == 32 || c == 9 || c == 13 || c == 10) then [] else c ∷ rest

-- What the server makes of a poll: no answer, a status other than 200 with its body, a body that
-- does not decode, or an answer.
pub data PollReply : Type 0 where
  no_answer : PollReply
  refused_unauthorized : PollReply
  refused : Text → PollReply
  undecodable : PollReply
  answered : PollResponse → PollReply

-- jsoniter.Unmarshal into an Interaction, and whether an error text says that the id is not found.
pub record ClientLib : Type 0 where
  pub unmarshal : Text → Option Interaction
  pub says_not_found : Text → Bool

abbrev pub push_if : Option Interaction → List Interaction → List Interaction
push_if none is = is
push_if (some i) is = i ∷ is

module _ (c : CryptoLib) (lib : ClientLib) (priv_key : c.PrivateKey) where
  -- The loop over the encrypted entries: one that does not decrypt or decode is passed over.
  unfoldable pub receive_sealed : Text → List Text → List Interaction
  unfolding decrypt_message trim_right
  receive_sealed key [] = []
  receive_sealed key (entry ∷ entries) =
      let rest = receive_sealed key entries in
      elim (decrypt_message c priv_key key entry) [
        | none ↦ rest
        | some plaintext ↦ push_if (lib.unmarshal (trim_right plaintext)) rest
      ]

  -- The loop over the entries that are not encrypted.
  unfoldable pub receive_extra : List Text → List Interaction
  receive_extra [] = []
  receive_extra (entry ∷ entries) =
      let rest = receive_extra entries in push_if (lib.unmarshal entry) rest

  -- The loop over the root-tld entries, which passes over empty ones.
  unfoldable pub receive_tld : List Text → List Interaction
  receive_tld [] = []
  receive_tld (entry ∷ entries) =
      let rest = receive_tld entries in
      if is_empty entry then rest else push_if (lib.unmarshal entry) rest

  -- getInteractions: its error, and the interactions that the callback gets, in order.
  unfoldable pub get_interactions : PollReply → Option ClientError × List Interaction
  unfolding receive_sealed receive_extra receive_tld
  get_interactions no_answer = (some request_failed, [])
  get_interactions refused_unauthorized = (some unauthorized, [])
  get_interactions (refused body) =
      (some (if lib.says_not_found body then id_not_found else bad_status), [])
  get_interactions undecodable = (some bad_response, [])
  get_interactions (answered r) =
      (none, receive_sealed r.aes_key r.items ++ (receive_extra r.extra ++ receive_tld r.tld_data))
