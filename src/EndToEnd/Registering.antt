-- ===== src/EndToEnd/Registering.antt =====
-- What a registration makes: a session without interactions.
use interactsh.Prelude.{
  ◌≡◌, refl, sym, ap, inl, inr, Bool, true, false, [], none, some, arith, subst, if◌then◌else◌,
  Option-cases, length, Text, text_eq_refl,
}
use interactsh.Storage.Base64.{encode}
use interactsh.Storage.Libraries.{Libs, DbReply, get-delete_self}
use interactsh.Storage.Types.{StorageDb, CorrelationData, use_disk, empty_data}
use interactsh.Storage.Cipher.{rand_read, valid_key, parse_b64_rsa_public_key_from_pem}
use interactsh.Storage.Cipher.Sealing.{length-rand_read}
use interactsh.Storage.Buffer.{entries_of, db_delete}
use interactsh.Storage.Sessions.{set_with_key, set_id_public_key, put_new}
use interactsh.Storage.Isolation.{value_at}
use interactsh.EndToEnd.Sessions.{opened, Stores, IsSession}

module _ (L : Libs) (k : L.crypto.PrivateKey) where
  Stores-nothing :
      (disk : Bool) (v : CorrelationData) (r : DbReply)
      → (disk ≡ true → entries_of r ≡ [])
      → v.items ≡ []
      → Stores L k disk v r []
  Stores-nothing true v r none_there empty = ap (opened L k v.aes_key_encrypted) (none_there refl)
  Stores-nothing false v r none_there empty = empty

  valid_32 : (key : Text) → length key ≡ 32 → valid_key key ≡ true
  unfolding valid_key
  valid_32 key h = ground (arith, h)

  set_with_key-IsSession :
      (s : StorageDb L) (id secret : Text)
      → (set_with_key s id secret (L.crypto.public k)).0 ≡ none
      → IsSession L k (set_with_key s id secret (L.crypto.public k)).1 id secret []
  unfolding set_with_key put_new value_at db_delete
  set_with_key-IsSession s id secret ok =
      let aes = rand_read 32 s.entropy in
      let seed = rand_read 32 aes.1 in
      elim (Option-cases (L.crypto.encrypt_oaep (L.crypto.public k) seed.0 aes.0)) [
        | inl e ↦ absurd (ground (arith, e, ok))
        | inr (c, e) ↦
            let v = record empty_data {
              secret_key = secret;
              aes_key = aes.0;
              aes_key_encrypted = encode c;
            } in
            let base : StorageDb L = record s { entropy = seed.1 } in
            let u = put_new (if use_disk s.options then db_delete base id else base) id v in
            let done : (set_with_key s id secret (L.crypto.public k)).1 ≡ u = ground (arith, e) in
            subst (λ t. IsSession L k t id secret []) (sym done)
              (record {
                value = v;
                held = ground (arith, L.cache.find-put s.cache id id s.next, text_eq_refl id);
                named = refl;
                keys = record {
                  seed = seed.0;
                  encrypted = c;
                  encrypts = e;
                  shown = refl;
                  valid = valid_32 aes.0 (length-rand_read 32 s.entropy);
                };
                bytes = tt;
                stored =
                    let same : u.options ≡ s.options = ground arith in
                    subst (λ o. Stores L k (use_disk o) v (L.db.get u.db id) []) (sym same)
                      (Stores-nothing (use_disk s.options) v (L.db.get u.db id)
                        (λ disk.
                          unfold entries_of in ground (arith, disk, get-delete_self L.db s.db id))
                        refl);
              })
      ]

  -- A registration with the public key of `k` makes a session with no items.
  pub set_id_public_key-IsSession :
      (s : StorageDb L) (id secret pem : Text)
      → parse_b64_rsa_public_key_from_pem L.crypto pem ≡ some (L.crypto.public k)
      → (set_id_public_key s id secret pem).0 ≡ none
      → IsSession L k (set_id_public_key s id secret pem).1 id secret []
  unfolding set_id_public_key
  set_id_public_key-IsSession s id secret pem parsed ok =
      elim (Option-cases (L.cache.find s.cache id)) [
        | inr (p, e) ↦ absurd (ground (arith, e, ok))
        | inl e ↦
            let t : StorageDb L = record s { cache = L.cache.touch s.cache id } in
            let same : set_id_public_key s id secret pem
                ≡ set_with_key t id secret (L.crypto.public k) =
              ground (arith, e, parsed) in
            subst (λ r. IsSession L k r.1 id secret []) (sym same)
              (set_with_key-IsSession t id secret (subst (λ r. r.0 ≡ none) same ok))
      ]
