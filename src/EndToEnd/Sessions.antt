-- ===== src/EndToEnd/Sessions.antt =====
-- A registered session in the storage, and what a client that holds its private key can read of it.
use interactsh.Prelude.{
  ℕ, ◌≡◌, refl, sym, ap, ap₂, ◌∙◌, inl, inr, Bool, true, false, List, [], ◌∷◌, Option, some, arith,
  map, subst, Bool-cases, Option-cases, All, Text,
}
use interactsh.Storage.Base64.{encode}
use interactsh.Storage.Base64.Decoding.{IsByte}
use interactsh.Storage.Libraries.{Libs, DbReply}
use interactsh.Storage.Types.{StorageDb, CorrelationData, use_disk}
use interactsh.Storage.Cipher.{rand_read, seal, block_size, aes_encrypt, valid_key}
use interactsh.Storage.Buffer.{entries_of}
use interactsh.Storage.Polling.{encrypt_items, take_interactions, get_interactions}
use interactsh.Storage.Isolation.{value_at}
use interactsh.Client.Messages.{decrypt_message}
use interactsh.Client.Messages.Decryption.{decrypt_message-aes_encrypt}

module _ (L : Libs) (k : L.crypto.PrivateKey) where
  -- The keys of a value: an AES key, and its encryption to the public key of `k`.
  pub record HasKeys (v : CorrelationData) : Type 0 where
    pub seed : Text
    pub encrypted : Text
    pub encrypts : L.crypto.encrypt_oaep (L.crypto.public k) seed v.aes_key ≡ some encrypted
    pub shown : v.aes_key_encrypted ≡ encode encrypted
    pub valid : valid_key v.aes_key ≡ true

  -- What a client makes of entries that come with an encrypted key.
  abbrev pub opened : Text → List Text → List (Option Text)
  opened key entries = map (λ e. decrypt_message L.crypto k key e) entries

  -- The value and the reply of the database hold the items, in the open in memory and sealed on disk.
  abbrev pub Stores : Bool → CorrelationData → DbReply → List Text → Type 0
  Stores true v r items = opened v.aes_key_encrypted (entries_of r) ≡ map some items
  Stores false v r items = v.items ≡ items

  -- The id has a session with the secret and the items.
  pub record IsSession (s : StorageDb L) (id secret : Text) (items : List Text) : Type 0 where
    pub value : CorrelationData
    pub held : value_at s id ≡ some value
    pub named : value.secret_key ≡ secret
    pub keys : HasKeys value
    pub bytes : All (All IsByte) items
    pub stored : Stores (use_disk s.options) value (L.db.get s.db id) items

  -- A sealed message opens.
  pub aes_encrypt-opens :
      (v : CorrelationData) (item sealed : Text) (source : ℕ → ℕ)
      → HasKeys v
      → All IsByte item
      → (aes_encrypt L.crypto v.aes_key item source).0 ≡ some sealed
      → decrypt_message L.crypto k v.aes_key_encrypted sealed ≡ some item
  aes_encrypt-opens v item sealed source keys b done =
      subst (λ key. decrypt_message L.crypto k key sealed ≡ some item) (sym keys.shown)
        (decrypt_message-aes_encrypt L.crypto k keys.seed v.aes_key keys.encrypted item sealed
          source keys.encrypts
          (L.crypto.encrypt_oaep-lt (L.crypto.public k) keys.seed v.aes_key keys.encrypted
            keys.encrypts)
          b done)

  -- A valid key always encrypts.
  pub aes_encrypt-succeeds :
      (key item : Text) (source : ℕ → ℕ)
      → valid_key key ≡ true
      → (sealed : Text) × ((aes_encrypt L.crypto key item source).0 ≡ some sealed)
  unfolding aes_encrypt
  aes_encrypt-succeeds key item source valid =
      (seal L.crypto key (rand_read block_size source).0 item, ground (arith, valid))

  -- The items that a poll encrypts open.
  encrypt_items-opens :
      (v : CorrelationData) (items : List Text) (source : ℕ → ℕ)
      → HasKeys v
      → All (All IsByte) items
      → opened v.aes_key_encrypted (encrypt_items L v.aes_key items source).0 ≡ map some items
  unfolding encrypt_items
  encrypt_items-opens v [] source keys b = refl
  encrypt_items-opens v (item ∷ items) source keys b =
      let left = (aes_encrypt L.crypto v.aes_key item source).1 in
      let (sealed, done) = aes_encrypt-succeeds v.aes_key item source keys.valid in
      let first : (encrypt_items L v.aes_key (item ∷ items) source).0
          ≡ sealed ∷ (encrypt_items L v.aes_key items left).0 =
        ground (arith, done) in
      ap (opened v.aes_key_encrypted) first
      ∙ ap₂ ◌∷◌ (aes_encrypt-opens v item sealed source keys b.0 done)
          (encrypt_items-opens v items left keys b.1)

  -- What a session's poll returns opens to its items.
  take_interactions-opens :
      (s : StorageDb L) (p : ℕ) (id : Text) (items : List Text)
      → HasKeys (s.heap p)
      → All (All IsByte) items
      → Stores (use_disk s.options) (s.heap p) (L.db.get s.db id) items
      → opened (s.heap p).aes_key_encrypted (take_interactions s p id).0.0 ≡ map some items
  unfolding take_interactions
  take_interactions-opens s p id items keys b stored = elim (Bool-cases (use_disk s.options)) [
    | inl disk ↦
        let taken : (take_interactions s p id).0.0 ≡ entries_of (L.db.get s.db id) =
          unfold entries_of in ground (arith, disk) in
        ap (opened (s.heap p).aes_key_encrypted) taken
        ∙ subst (λ d. Stores d (s.heap p) (L.db.get s.db id) items) disk stored
    | inr memory ↦
        let taken : (take_interactions s p id).0.0
            ≡ (encrypt_items L (s.heap p).aes_key (s.heap p).items s.entropy).0 =
          ground (arith, memory) in
        let same : (s.heap p).items ≡ items =
          subst (λ d. Stores d (s.heap p) (L.db.get s.db id) items) memory stored in
        ap (opened (s.heap p).aes_key_encrypted) taken
        ∙ encrypt_items-opens (s.heap p) (s.heap p).items s.entropy keys
            (subst (All (All IsByte)) (sym same) b)
        ∙ ap (map some) same
  ]

  -- The pointer of a value.
  pub value_at-some :
      (s : StorageDb L) (id : Text) (v : CorrelationData)
      → value_at s id ≡ some v
      → (p : ℕ) × (L.cache.find s.cache id ≡ some p) × (s.heap p ≡ v)
  unfolding value_at
  value_at-some s id v e = elim (Option-cases (L.cache.find s.cache id)) [
    | inl f ↦ absurd (ground (arith, f, e))
    | inr (p, f) ↦ (p, f, ground (arith, f, e))
  ]

  -- What a client makes of a poll of its session is the session's items.
  pub get_interactions-opens :
      (s : StorageDb L) (id secret : Text) (items : List Text)
      → IsSession s id secret items
      → let r = get_interactions s id secret in opened r.0.1 r.0.0 ≡ map some items
  unfolding get_interactions
  get_interactions-opens s id secret items h =
      let (p, held, same) = value_at-some s id h.value h.held in
      let t : StorageDb L = record s { cache = L.cache.touch s.cache id } in
      let allowed : L.equal_fold (s.heap p).secret_key secret ≡ true =
        ground (arith, same, h.named, L.equal_fold_refl secret) in
      let entries : (get_interactions s id secret).0.0 ≡ (take_interactions t p id).0.0 =
        ground (arith, held, allowed) in
      let key : (get_interactions s id secret).0.1 ≡ (s.heap p).aes_key_encrypted =
        ground (arith, held, allowed) in
      ap₂ opened key entries
      ∙ take_interactions-opens t p id items (subst HasKeys (sym same) h.keys) h.bytes
          (subst (λ v. Stores (use_disk s.options) v (L.db.get s.db id) items) (sym same) h.stored)
