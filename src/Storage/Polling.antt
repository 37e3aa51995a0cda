-- ===== src/Storage/Polling.antt =====
-- Reading: GetInteractions, GetInteractionsWithId, GetInteractionsWithIdForConsumer, RemoveConsumer
-- and getInteractions of pkg/storage/storagedb.go. The conventions are those of Sessions.
use interactsh.Prelude.{
  ℕ, Bool, true, false, List, [], ◌∷◌, Option, none, some, if◌then◌else◌, length, drop, min, Text,
  lookup, insert, delete,
}
use interactsh.Storage.Lines.{nonempty_lines}
use interactsh.Storage.Libraries.{Libs, found, not_found, failed}
use interactsh.Storage.Types.{
  StorageDb, CorrelationData, Error, correlation_id_not_found, encrypt_failed, invalid_secret,
  id_not_in_cache, db_error, use_disk,
}
use interactsh.Storage.Cipher.{aes_encrypt}
use interactsh.Storage.Buffer.{
  set_value, db_delete, evict_and_enforce_buffer, compact_consumed_data,
}
use interactsh.Storage.Sessions.{get_if_present}

-- AESEncrypt over the items of a poll: an item that cannot be encrypted is passed on as it is.
unfoldable pub encrypt_items : (L : Libs) → Text → List Text → (ℕ → ℕ) → List Text × Bool × (ℕ → ℕ)
encrypt_items L key [] source = ([], true, source)
encrypt_items L key (item ∷ items) source =
    let (sealed, left) = aes_encrypt L.crypto key item source in
    let (rest, fine, last) = encrypt_items L key items left in
    elim sealed [ none ↦ (item ∷ rest, false, last) | some ct ↦ (ct ∷ rest, fine, last) ]

-- value.ReadOffsets[consumerID], which is 0 for a missing key.
unfoldable pub read_offset : Text → CorrelationData → ℕ
read_offset consumer_id value = elim (lookup consumer_id value.read_offsets) [
  | none ↦ 0
  | some off ↦ off
]

module _ {L : Libs} where
  -- getInteractions: the entries, with an error, of the value that `p` points to.
  unfoldable pub take_interactions :
      StorageDb L → ℕ → Text → (List Text × Option Error) × StorageDb L
  unfolding set_value db_delete
  take_interactions s p id =
      if use_disk s.options
      then (elim (L.db.get s.db id) [
        | found raw ↦ ((nonempty_lines raw, none), db_delete s id)
        | not_found ↦ (([], none), s)
        | failed ↦ (([], some db_error), s)
      ])
      else (let (items, fine, left) =
            encrypt_items L (s.heap p).aes_key (s.heap p).items s.entropy in
          (
            (items, if fine then none else some encrypt_failed),
            record (set_value s p (record (s.heap p) { items = [] })) { entropy = left },
          ))

  -- The data, the encrypted AES key, and the error.
  unfoldable pub get_interactions :
      StorageDb L → Text → Text → (List Text × Text × Option Error) × StorageDb L
  unfolding get_if_present
  get_interactions s correlation_id secret =
      let (pointer, s') = get_if_present s correlation_id in
      elim pointer [
        | none ↦ (([], [], some correlation_id_not_found), s')
        | some p ↦
            if L.equal_fold (s.heap p).secret_key secret
            then (let ((items, e), s'') = take_interactions s' p correlation_id in
                ((items, (s.heap p).aes_key_encrypted, e), s''))
            else (([], [], some invalid_secret), s')
      ]

  unfoldable pub get_interactions_with_id :
      StorageDb L → Text → (List Text × Option Error) × StorageDb L
  unfolding get_if_present
  get_interactions_with_id s id =
      let (pointer, s') = get_if_present s id in
      elim pointer [ none ↦ (([], some id_not_in_cache), s') | some p ↦ take_interactions s' p id ]

  -- The part of GetInteractionsWithIdForConsumer after the entries are read.
  unfoldable pub read_unseen :
      StorageDb L → ℕ → Text → Text → ℕ → List Text → List Text × StorageDb L
  unfolding set_value read_offset
  read_unseen s p id consumer_id now all_data =
      let value = s.heap p in
      let offset = min (read_offset consumer_id value) (length all_data) in
      let marked = set_value s p (record value {
        read_offsets = insert consumer_id (length all_data) value.read_offsets;
        last_seen = insert consumer_id now value.last_seen;
      }) in
      (drop offset all_data, evict_and_enforce_buffer marked p id now)

  unfoldable pub get_interactions_with_id_for_consumer :
      StorageDb L → Text → Text → ℕ → (List Text × Option Error) × StorageDb L
  unfolding get_if_present
  get_interactions_with_id_for_consumer s id consumer_id now =
      let (pointer, s') = get_if_present s id in
      elim pointer [
        | none ↦ (([], some id_not_in_cache), s')
        | some p ↦
            if use_disk s.options
            then (elim (L.db.get s.db id) [
              | found raw ↦
                  (let (unseen, s'') = read_unseen s' p id consumer_id now (nonempty_lines raw) in
                    ((unseen, none), s''))
              | not_found ↦ (([], none), s')
              | failed ↦ (([], some db_error), s')
            ])
            else (let (unseen, s'') = read_unseen s' p id consumer_id now (s.heap p).items in
                ((unseen, none), s''))
      ]

  unfoldable pub remove_consumer : StorageDb L → Text → Text → ℕ → StorageDb L
  unfolding get_if_present set_value
  remove_consumer s id consumer_id now =
      let (pointer, s') = get_if_present s id in
      elim pointer [
        | none ↦ s'
        | some p ↦
            compact_consumed_data
              (set_value s' p (record (s'.heap p) {
                read_offsets = delete consumer_id (s'.heap p).read_offsets;
                last_seen = delete consumer_id (s'.heap p).last_seen;
              }))
              p id now
      ]
