-- ===== src/Storage/Access.antt =====
-- What a caller with the secret of an id gets of it, and whose ids can be registered
-- (pkg/storage/storagedb.go).
use interactsh.Prelude.{
  ℕ, ◌≡◌, ◌≢◌, refl, inl, inr, true, List, [], ◌∷◌, none, some, arith, Bool-cases, Option-cases,
  length, Text, text_eq_refl,
}
use interactsh.Storage.Libraries.{Libs, DbReply, found, not_found, failed, get-delete_self}
use interactsh.Storage.Types.{StorageDb, id_exists, use_disk}
use interactsh.Storage.Cipher.{parse_b64_rsa_public_key_from_pem}
use interactsh.Storage.Buffer.{entries_of}
use interactsh.Storage.Sessions.{set_with_key, set_id_public_key, put_new}
use interactsh.Storage.Cipher.{rand_read, aes_encrypt}
use interactsh.Storage.Polling.{encrypt_items, take_interactions, get_interactions}
use interactsh.Storage.Refine.Trim.{contents}

-- AESEncrypt keeps the number of the entries.
encrypt_items-length :
    (L : Libs) (key : Text) (items : List Text) (source : ℕ → ℕ)
    → length (encrypt_items L key items source).0 ≡ length items
unfolding encrypt_items
encrypt_items-length L key [] source = refl
encrypt_items-length L key (item ∷ items) source =
    let (sealed, left) = aes_encrypt L.crypto key item source in
    ground (arith, encrypt_items-length L key items left)

module _ {L : Libs} where
  -- Taking the interactions of an id, in memory or on disk with a database that answers the read,
  -- leaves an empty buffer.
  take_interactions-empties :
      (s : StorageDb L) (p : ℕ) (id : Text)
      → L.db.get s.db id ≢ failed
      → contents (take_interactions s p id).1 p id ≡ []
  unfolding take_interactions contents entries_of
  take_interactions-empties s p id answers = elim (Bool-cases (use_disk s.options)) [
    | inl disk ↦ go (L.db.get s.db id) refl disk
    | inr memory ↦ ground (arith, memory)
  ]
    where
      go :
          (r : DbReply)
          → L.db.get s.db id ≡ r
          → use_disk s.options ≡ true
          → contents (take_interactions s p id).1 p id ≡ []
      go (found raw) e disk = ground (arith, e, disk, get-delete_self L.db s.db id)
      go not_found e disk = ground (arith, e, disk)
      go failed e disk = absurd (answers e)

  take_interactions-length :
      (s : StorageDb L) (p : ℕ) (id : Text)
      → length (take_interactions s p id).0.0 ≡ length (contents s p id)
  unfolding take_interactions contents entries_of
  take_interactions-length s p id =
      ground (arith, encrypt_items-length L (s.heap p).aes_key (s.heap p).items s.entropy)

  -- A poll of an id with its secret, where the database answers the read, takes all that the id
  -- has: an entry comes back for each one that was stored, and nothing is left.
  pub get_interactions-drains :
      (s : StorageDb L) (p : ℕ) (id secret : Text)
      → L.cache.find s.cache id ≡ some p
      → L.equal_fold (s.heap p).secret_key secret ≡ true
      → L.db.get s.db id ≢ failed
      → (length (get_interactions s id secret).0.0 ≡ length (contents s p id))
        × ((get_interactions s id secret).0.1 ≡ (s.heap p).aes_key_encrypted)
        × (contents (get_interactions s id secret).1 p id ≡ [])
  unfolding get_interactions contents
  get_interactions-drains s p id secret held right answers =
      let t : StorageDb L = record s { cache = L.cache.touch s.cache id } in
      rw (held, right)
        (take_interactions-length t p id, refl, take_interactions-empties t p id answers)

  set_with_key-fresh :
      (s : StorageDb L) (id secret : Text) (key : L.crypto.PublicKey)
      → (set_with_key s id secret key).0 ≡ none
      → let t = (set_with_key s id secret key).1 in
        (L.cache.find t.cache id ≡ some s.next)
        × ((t.heap s.next).secret_key ≡ secret)
        × (contents t s.next id ≡ [])
  unfolding set_with_key put_new contents entries_of
  set_with_key-fresh s id secret key ok =
      let (aes_key, left) = rand_read 32 s.entropy in
      let (seed, last) = rand_read 32 left in
      elim (Option-cases (L.crypto.encrypt_oaep key seed aes_key)) [
        | inl e ↦ ground (arith, e)
        | inr (c, e) ↦ ground (
          arith,
          e,
          L.cache.find-put s.cache id id s.next,
          text_eq_refl id,
          get-delete_self L.db s.db id,
        )
      ]

  -- Registration of an id: a nil error means that the id was not in use and now is, with the secret
  -- that was given and an empty buffer, whatever record of an earlier session the disk still had;
  -- and that it cannot be registered again.
  pub set_id_public_key-fresh :
      (s : StorageDb L) (id secret key other_secret other_key : Text)
      → (set_id_public_key s id secret key).0 ≡ none
      → let t = (set_id_public_key s id secret key).1 in
        (L.cache.find s.cache id ≡ none)
        × (L.cache.find t.cache id ≡ some s.next)
        × ((t.heap s.next).secret_key ≡ secret)
        × (contents t s.next id ≡ [])
        × ((set_id_public_key t id other_secret other_key).0 ≡ some id_exists)
  unfolding set_id_public_key
  set_id_public_key-fresh s id secret key other_secret other_key ok =
      elim (Option-cases (L.cache.find s.cache id)) [
        | inr (p, e) ↦ ground (arith, e)
        | inl e ↦ elim (Option-cases (parse_b64_rsa_public_key_from_pem L.crypto key)) [
          | inl bad ↦ ground (arith, e, bad)
          | inr (k, good) ↦
              let t : StorageDb L = record s { cache = L.cache.touch s.cache id } in
              ground (arith, e, good, set_with_key-fresh t id secret k)
        ]
      ]
