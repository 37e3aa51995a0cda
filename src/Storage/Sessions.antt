-- ===== src/Storage/Sessions.antt =====
-- Registration, storing and removal: New, OnCacheRemovalCallback, SetIDPublicKey, SetID,
-- AddInteraction, AddInteractionWithId, RemoveID and GetCacheItem of pkg/storage/storagedb.go. Each takes the time where the source reads the
-- clock, and returns the new state with its result; `none` is a nil error. Every value of the
-- cache is a *CorrelationData, so the type assertions always succeed.
use interactsh.Prelude.{
  ℕ, suc, Bool, [], ◌∷◌, ◌++◌, Option, none, some, if◌then◌else◌, ◌==◌, is_empty, Text,
}
use interactsh.Storage.Lines.{newline, append_many}
use interactsh.Storage.Base64.{encode}
use interactsh.Storage.Libraries.{Libs, DbReply, found, not_found, failed}
use interactsh.Storage.Types.{
  StorageDb, Options, CorrelationData, Error, correlation_id_not_found, id_exists, bad_public_key,
  encrypt_failed, invalid_secret, cache_item_not_found, db_error, empty_data,
  default_max_shared_interactions, use_disk, update,
}
use interactsh.Storage.Cipher.{rand_read, aes_encrypt, parse_b64_rsa_public_key_from_pem}
use interactsh.Storage.Buffer.{set_value, db_put, db_delete}

-- existingData is what the read returns, and empty if it fails.
unfoldable pub existing : DbReply → Text
existing (found raw) = raw
existing not_found = []
existing failed = []

module _ {L : Libs} where
  -- s.cache.GetIfPresent(id)
  unfoldable pub get_if_present : StorageDb L → Text → Option ℕ × StorageDb L
  get_if_present s id = (L.cache.find s.cache id, record s { cache = L.cache.touch s.cache id })

  -- s.cache.Put(id, &value)
  unfoldable pub put_new : StorageDb L → Text → CorrelationData → StorageDb L
  put_new s id value = record s {
    cache = L.cache.put s.cache id s.next;
    heap = update s.heap s.next value;
    next = suc s.next;
  }

  unfoldable pub on_cache_removal_callback : StorageDb L → Text → StorageDb L
  unfolding db_delete
  on_cache_removal_callback s key = db_delete s key

  -- The part of SetIDPublicKey after the public key is read.
  unfoldable pub set_with_key :
      StorageDb L → Text → Text → L.crypto.PublicKey → Option Error × StorageDb L
  unfolding db_delete put_new
  set_with_key s correlation_id secret_key key =
      let (aes_key, left) = rand_read 32 s.entropy in
      let (seed, last) = rand_read 32 left in
      let s' = record s { entropy = last } in
      elim (L.crypto.encrypt_oaep key seed aes_key) [
        | none ↦ (some encrypt_failed, s')
        | some ciphertext ↦ (
          none,
          put_new (if use_disk s.options then db_delete s' correlation_id else s') correlation_id
              (record empty_data {
                secret_key = secret_key;
                aes_key = aes_key;
                aes_key_encrypted = encode ciphertext;
              }),
        )
      ]

  unfoldable pub set_id_public_key : StorageDb L → Text → Text → Text → Option Error × StorageDb L
  unfolding get_if_present
  set_id_public_key s correlation_id secret_key public_key =
      let (pointer, s') = get_if_present s correlation_id in
      elim pointer [
        | some p ↦ (some id_exists, s')
        | none ↦ elim (parse_b64_rsa_public_key_from_pem L.crypto public_key) [
          | none ↦ (some bad_public_key, s')
          | some key ↦ set_with_key s' correlation_id secret_key key
        ]
      ]

  unfoldable pub set_id : StorageDb L → Text → StorageDb L
  unfolding put_new
  set_id s id = put_new s id empty_data

  -- s.db.Put(id, AppendMany("\n", existingData, ct))
  unfoldable pub append_record : StorageDb L → Text → Text → StorageDb L
  unfolding db_put existing
  append_record s id ct = db_put s id (append_many newline (existing (L.db.get s.db id) ∷ ct ∷ []))

  -- The part of AddInteraction and AddInteractionWithId after the look-up.
  unfoldable pub store_interaction : StorageDb L → ℕ → Text → Text → Option Error × StorageDb L
  unfolding set_value
  store_interaction s p id item =
      if use_disk s.options
      then (if is_empty (s.heap p).aes_key
          then (none, append_record s id item)
          else (let (sealed, left) = aes_encrypt L.crypto (s.heap p).aes_key item s.entropy in
              elim sealed [
                | none ↦ (some encrypt_failed, record s { entropy = left })
                | some ct ↦ (none, append_record (record s { entropy = left }) id ct)
              ]))
      else (none, set_value s p (record (s.heap p) { items = (s.heap p).items ++ (item ∷ []) }))

  unfoldable pub add_interaction : StorageDb L → Text → Text → Option Error × StorageDb L
  unfolding get_if_present
  add_interaction s correlation_id item =
      let (pointer, s') = get_if_present s correlation_id in
      if is_empty item then (none, s) else elim pointer [
        | none ↦ (some correlation_id_not_found, s')
        | some p ↦ store_interaction s' p correlation_id item
      ]

  unfoldable pub add_interaction_with_id : StorageDb L → Text → Text → Option Error × StorageDb L
  unfolding get_if_present
  add_interaction_with_id s id item =
      let (pointer, s') = get_if_present s id in
      if is_empty item then (none, s) else elim pointer [
        | none ↦ (some correlation_id_not_found, s')
        | some p ↦ store_interaction s' p id item
      ]

  unfoldable pub remove_id : StorageDb L → Text → Text → Option Error × StorageDb L
  unfolding get_if_present set_value db_delete
  remove_id s correlation_id secret =
      let (pointer, s') = get_if_present s correlation_id in
      elim pointer [
        | none ↦ (some correlation_id_not_found, s')
        | some p ↦
            if L.equal_fold (s.heap p).secret_key secret
            then (let cleared = set_value s' p (record (s'.heap p) { items = [] }) in
                let gone = record cleared {
                  cache = L.cache.invalidate cleared.cache correlation_id;
                } in
                if use_disk s.options
                then (
                  if L.db.delete_error s.db correlation_id then some db_error else none,
                  db_delete gone correlation_id,
                )
                else (none, gone))
            else (some invalid_secret, s')
      ]

  unfoldable pub get_cache_item :
      StorageDb L → Text → (Option CorrelationData × Option Error) × StorageDb L
  unfolding get_if_present
  get_cache_item s token =
      let (pointer, s') = get_if_present s token in
      elim pointer [
        | none ↦ ((none, some cache_item_not_found), s')
        | some p ↦ ((some (s.heap p), none), s')
      ]

-- New. The cache and the database are opened by their packages; `folder_exists` is what the file
-- system says of DbPath, and the errors of MkdirAll and OpenFile are not modelled.
unfoldable pub new :
    (L : Libs) → Options → L.cache.State → L.db.State → (ℕ → ℕ) → Bool → Option (StorageDb L)
new L options cache db entropy folder_exists =
    let opened : StorageDb L = record {
      options =
          (if options.max_shared_interactions == 0
            then record options { max_shared_interactions = default_max_shared_interactions }
            else options);
      cache = cache;
      db = db;
      heap = λ p. empty_data;
      next = 0;
      entropy = entropy;
    } in
    if use_disk options then (if folder_exists then some opened else none) else some opened
