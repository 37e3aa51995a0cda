-- ===== src/EndToEnd/Adding.antt =====
-- What the storing of an interaction does to a session.
use interactsh.Prelude.{
  ℕ, ◌≡◌, refl, sym, ap, ap₂, ◌∙◌, inl, inr, true, false, List, [], ◌∷◌, ◌++◌, some, arith, map,
  subst, Bool-cases, is_empty, All, All-append, Text, map-append,
}
use interactsh.Storage.Base64.Decoding.{IsByte}
use interactsh.Storage.Lines.{IsLine, nonempty_lines-IsLine}
use interactsh.Storage.Libraries.{Libs}
use interactsh.Storage.Types.{StorageDb, CorrelationData, use_disk, update}
use interactsh.Storage.Cipher.{aes_encrypt, valid_key}
use interactsh.Storage.Cipher.Sealing.{aes_encrypt-IsLine}
use interactsh.Storage.Buffer.{entries_of}
use interactsh.Storage.Sessions.{add_interaction, store_interaction, append_record}
use interactsh.Storage.Isolation.{value_at}
use interactsh.Storage.Refine.Trim.{contents}
use interactsh.Storage.Refine.Calls.{append_record-contents}
use interactsh.Client.Messages.{decrypt_message}
use interactsh.EndToEnd.Sessions.{
  HasKeys, opened, Stores, IsSession, aes_encrypt-opens, aes_encrypt-succeeds, value_at-some,
}

module _ (L : Libs) (k : L.crypto.PrivateKey) where
  -- One more entry of the record, sealed.
  entries_of-append_record :
      (s : StorageDb L) (id sealed : Text)
      → use_disk s.options ≡ true
      → IsLine sealed
      → entries_of (L.db.get (append_record s id sealed).db id)
        ≡ entries_of (L.db.get s.db id) ++ (sealed ∷ [])
  unfolding contents append_record
  entries_of-append_record s id sealed disk line =
      ground
        (arith, disk, append_record-contents s 0 id sealed disk, nonempty_lines-IsLine sealed line)

  append-opened :
      (key : Text) (xs ys : List Text) (items : List Text) (item sealed : Text)
      → ys ≡ xs ++ (sealed ∷ [])
      → opened L k key xs ≡ map some items
      → decrypt_message L.crypto k key sealed ≡ some item
      → opened L k key ys ≡ map some (items ++ (item ∷ []))
  append-opened key xs ys items item sealed e old new =
      ap (opened L k key) e
      ∙ map-append _ xs (sealed ∷ [])
      ∙ ap₂ ◌++◌ old (ap (λ x. x ∷ []) new)
      ∙ sym (map-append some items (item ∷ []))

  -- The keys do not depend on the rest of a value.
  keys_of-items :
      (v : CorrelationData) (xs : List Text) → HasKeys L k v → HasKeys L k (record v { items = xs })
  keys_of-items v xs h = record {
    seed = h.seed;
    encrypted = h.encrypted;
    encrypts = h.encrypts;
    shown = h.shown;
    valid = h.valid;
  }

  add_in_memory :
      (s : StorageDb L) (id secret item : Text) (items : List Text) (p : ℕ)
      → (h : IsSession L k s id secret items) → L.cache.find s.cache id ≡ some p
      → s.heap p ≡ h.value
      → use_disk s.options ≡ false
      → is_empty item ≡ false
      → All IsByte item
      → IsSession L k (add_interaction s id item).1 id secret (items ++ (item ∷ []))
  unfolding add_interaction store_interaction value_at
  add_in_memory s id secret item items p h held same memory some_item b =
      let after = (s.heap p).items ++ (item ∷ []) in
      let u : StorageDb L = record s {
        cache = L.cache.touch s.cache id;
        heap = update s.heap p (record (s.heap p) { items = after });
      } in
      let done : (add_interaction s id item).1 ≡ u = ground (arith, held, some_item, memory) in
      let old = subst (λ d. Stores L k d h.value (L.db.get s.db id) items) memory h.stored in
      subst (λ t. IsSession L k t id secret (items ++ (item ∷ []))) (sym done)
        (record {
          value = record (s.heap p) { items = after };
          held = ground (arith, held, L.cache.find-touch s.cache id id);
          named = ap (λ v. v.secret_key) same ∙ h.named;
          keys = keys_of-items (s.heap p) after (subst (HasKeys L k) (sym same) h.keys);
          bytes = All-append (All IsByte) items (item ∷ []) h.bytes (b, tt);
          stored =
              subst
                (λ d.
                  Stores L k d (record (s.heap p) { items = after }) (L.db.get s.db id)
                    (items ++ (item ∷ [])))
                (sym memory)
                (ap (λ v. v.items ++ (item ∷ [])) same ∙ ap (λ xs. xs ++ (item ∷ [])) old);
        })

  valid-nonempty : (key : Text) → valid_key key ≡ true → is_empty key ≡ false
  unfolding valid_key
  valid-nonempty [] h = cc
  valid-nonempty (x ∷ xs) h = refl

  add_on_disk :
      (s : StorageDb L) (id secret item : Text) (items : List Text) (p : ℕ)
      → (h : IsSession L k s id secret items) → L.cache.find s.cache id ≡ some p
      → s.heap p ≡ h.value
      → use_disk s.options ≡ true
      → is_empty item ≡ false
      → All IsByte item
      → IsSession L k (add_interaction s id item).1 id secret (items ++ (item ∷ []))
  unfolding add_interaction store_interaction value_at append_record
  add_on_disk s id secret item items p h held same disk some_item b =
      let keys = subst (HasKeys L k) (sym same) h.keys in
      let (sealed, sealing) =
        aes_encrypt-succeeds L k (s.heap p).aes_key item s.entropy keys.valid in
      let t : StorageDb L = record s {
        cache = L.cache.touch s.cache id;
        entropy = (aes_encrypt L.crypto (s.heap p).aes_key item s.entropy).1;
      } in
      let u = append_record t id sealed in
      let done : (add_interaction s id item).1 ≡ u =
        ground
          (arith, held, some_item, disk, sealing, valid-nonempty (s.heap p).aes_key keys.valid) in
      let old = subst (λ d. Stores L k d h.value (L.db.get s.db id) items) disk h.stored in
      let line = aes_encrypt-IsLine L.crypto (s.heap p).aes_key item sealed s.entropy b sealing in
      subst (λ t. IsSession L k t id secret (items ++ (item ∷ []))) (sym done)
        (record {
          value = s.heap p;
          held = unfold append_record in ground (arith, held, L.cache.find-touch s.cache id id);
          named = ap (λ v. v.secret_key) same ∙ h.named;
          keys = keys;
          bytes = All-append (All IsByte) items (item ∷ []) h.bytes (b, tt);
          stored =
              subst (λ d. Stores L k d (s.heap p) (L.db.get u.db id) (items ++ (item ∷ [])))
                (sym disk)
                (append-opened (s.heap p).aes_key_encrypted (entries_of (L.db.get s.db id)) _ items
                  item sealed (entries_of-append_record t id sealed disk line)
                  (subst
                    (λ v.
                      opened L k v.aes_key_encrypted (entries_of (L.db.get s.db id))
                      ≡ map some items)
                    (sym same) old)
                  (aes_encrypt-opens L k (s.heap p) item sealed s.entropy keys b sealing));
        })

  -- Storing an item of bytes that is not empty adds it to the session, whatever the storage.
  pub add_interaction-IsSession :
      (s : StorageDb L) (id secret item : Text) (items : List Text)
      → is_empty item ≡ false
      → All IsByte item
      → IsSession L k s id secret items
      → IsSession L k (add_interaction s id item).1 id secret (items ++ (item ∷ []))
  add_interaction-IsSession s id secret item items some_item b h =
      let (p, held, same) = value_at-some L k s id h.value h.held in
      elim (Bool-cases (use_disk s.options)) [
        | inl disk ↦ add_on_disk s id secret item items p h held same disk some_item b
        | inr memory ↦ add_in_memory s id secret item items p h held same memory some_item b
      ]
