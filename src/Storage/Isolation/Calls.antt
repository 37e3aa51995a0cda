-- ===== src/Storage/Isolation/Calls.antt =====
-- Each call of the storage isolates its id.
use interactsh.Prelude.{
  ℕ, ◌≡◌, refl, inl, inr, [], ◌∷◌, Option, none, some, arith, if◌then◌else◌, Bool-cases,
  Option-cases, Text,
}
use interactsh.Storage.Libraries.{Libs}
use interactsh.Storage.Types.{StorageDb, Error, use_disk, empty_data, encrypt_failed}
use interactsh.Storage.Base64.{encode}
use interactsh.Storage.Cipher.{parse_b64_rsa_public_key_from_pem, rand_read}
use interactsh.Storage.Buffer.{set_value, db_delete}
use interactsh.Storage.Sessions.{
  put_new, set_with_key, set_id_public_key, add_interaction, add_interaction_with_id, remove_id,
  get_cache_item,
}
use interactsh.Storage.Polling.{
  get_interactions, get_interactions_with_id, get_interactions_with_id_for_consumer,
  remove_consumer,
}
use interactsh.Storage.Frame.{Frame, Frame-refl, Frame-set_value, Frame-store, Frame-take}
use interactsh.Storage.Isolation.{
  IsWf, Isolates, Isolates-Frame, Isolates-touch, Isolates-put_new, Isolates-trans,
  Isolates-db_delete, Isolates-entropy, Isolates-invalidate,
}
use interactsh.Storage.Isolation.Held.{touched, Frame-adds, Frame-reads, Frame-leaves}

module _ {L : Libs} where
  -- A call that looks its id up, goes on with the pointer that is found, and else changes nothing.
  by_pointer :
      (s t : StorageDb L) (id : Text)
      → IsWf s
      → (L.cache.find s.cache id ≡ none → t ≡ touched s id)
      → ((p : ℕ) → L.cache.find s.cache id ≡ some p → Frame p id (touched s id) t)
      → Isolates id s t
  by_pointer s t id w missing held = elim (Option-cases (L.cache.find s.cache id)) [
    | inl e ↦ rw (missing e) (Isolates-touch s id w)
    | inr (p, e) ↦ Isolates-Frame s t id p w e (held p e)
  ]

  pub Isolates-refl : (s : StorageDb L) (id : Text) → IsWf s → Isolates id s s
  Isolates-refl s id w = record {
    values = λ j h. refl;
    records = λ j h. refl;
    options = refl;
    wf = w;
  }

  pub Isolates-adds :
      (s : StorageDb L) (id item : Text) → IsWf s → Isolates id s (add_interaction s id item).1
  unfolding add_interaction
  Isolates-adds s id [] w = Isolates-refl s id w
  Isolates-adds s id (c ∷ cs) w =
      by_pointer s _ id w (λ e. ground (arith, e))
        λ p e. rw (e, add_interaction) (Frame-store p id (touched s id) (c ∷ cs))

  pub Isolates-adds_with_id :
      (s : StorageDb L) (id item : Text)
      → IsWf s
      → Isolates id s (add_interaction_with_id s id item).1
  unfolding add_interaction_with_id
  Isolates-adds_with_id s id [] w = Isolates-refl s id w
  Isolates-adds_with_id s id (c ∷ cs) w =
      by_pointer s _ id w (λ e. ground (arith, e)) λ p e. Frame-adds s p id e c cs

  pub Isolates-takes :
      (s : StorageDb L) (id secret : Text) → IsWf s → Isolates id s (get_interactions s id secret).1
  unfolding get_interactions
  Isolates-takes s id secret w =
      by_pointer s _ id w (λ e. ground (arith, e))
        λ p e. elim (Bool-cases (L.equal_fold (s.heap p).secret_key secret)) [
          | inl ok ↦ rw (e, get_interactions) (rw ok (Frame-take p id (touched s id)))
          | inr bad ↦ rw (e, get_interactions) (rw bad (Frame-refl p id (touched s id)))
        ]

  pub Isolates-takes_with_id :
      (s : StorageDb L) (id : Text) → IsWf s → Isolates id s (get_interactions_with_id s id).1
  unfolding get_interactions_with_id
  Isolates-takes_with_id s id w =
      by_pointer s _ id w (λ e. ground (arith, e))
        λ p e. rw (e, get_interactions_with_id) (Frame-take p id (touched s id))

  pub Isolates-reads :
      (s : StorageDb L) (id c : Text) (now : ℕ)
      → IsWf s
      → Isolates id s (get_interactions_with_id_for_consumer s id c now).1
  unfolding get_interactions_with_id_for_consumer
  Isolates-reads s id c now w =
      by_pointer s _ id w (λ e. ground (arith, e)) λ p e. Frame-reads s p id e c now

  pub Isolates-leaves :
      (s : StorageDb L) (id c : Text) (now : ℕ)
      → IsWf s
      → Isolates id s (remove_consumer s id c now)
  unfolding remove_consumer
  Isolates-leaves s id c now w =
      by_pointer s _ id w (λ e. ground (arith, e)) λ p e. Frame-leaves s p id e c now

  pub Isolates-inspects :
      (s : StorageDb L) (id : Text) → IsWf s → Isolates id s (get_cache_item s id).1
  unfolding get_cache_item
  Isolates-inspects s id w =
      by_pointer s _ id w (λ e. ground (arith, e))
        λ p e. rw (e, get_cache_item) (Frame-refl p id (touched s id))

  -- The value is cleared, then the id leaves the cache, then its record goes.
  pub Isolates-removes :
      (s : StorageDb L) (id secret : Text) → IsWf s → Isolates id s (remove_id s id secret).1
  unfolding remove_id
  Isolates-removes s id secret w = elim (Option-cases (L.cache.find s.cache id)) [
    | inl e ↦ rw (e, remove_id) (Isolates-touch s id w)
    | inr (p, e) ↦ elim (Bool-cases (L.equal_fold (s.heap p).secret_key secret)) [
      | inr bad ↦ rw (e, remove_id) (rw bad (Isolates-touch s id w))
      | inl ok ↦
          let cleared = set_value (touched s id) p (record (s.heap p) { items = [] }) in
          let first : Isolates id s cleared =
            Isolates-Frame s cleared id p w e (Frame-set_value p id (touched s id) _) in
          let gone = record cleared { cache = L.cache.invalidate cleared.cache id } in
          let second : Isolates id s gone =
            Isolates-trans id s cleared gone first (Isolates-invalidate cleared id first.wf) in
          let third : Isolates id s (db_delete gone id) =
            Isolates-trans id s gone (db_delete gone id) second
              (Isolates-db_delete gone id second.wf) in
          elim (Bool-cases (use_disk s.options)) [
            | inl disk ↦ rw (e, remove_id) (rw ok (rw disk third))
            | inr memory ↦ rw (e, remove_id) (rw ok (rw memory second))
          ]
    ]
  ]

  pub Isolates-set_with_key :
      (s : StorageDb L) (id secret : Text) (key : L.crypto.PublicKey)
      → IsWf s
      → Isolates id s (set_with_key s id secret key).1
  unfolding set_with_key
  Isolates-set_with_key s id secret key w = by_ciphertext (L.crypto.encrypt_oaep key seed.0 aes.0)
    where
      aes : Text × (ℕ → ℕ)
      aes = rand_read 32 s.entropy

      seed : Text × (ℕ → ℕ)
      seed = rand_read 32 aes.1

      drawn : StorageDb L
      drawn = record s { entropy = seed.1 }

      by_ciphertext :
          (o : Option Text)
          → Isolates id s
              (elim o as (λ o. Option Error × StorageDb L) [
                | none ↦ (some encrypt_failed, drawn)
                | some ciphertext ↦ (
                  none,
                  put_new
                      (if use_disk s.options then db_delete drawn id else drawn)
                      id
                      (record empty_data {
                        secret_key = secret;
                        aes_key = aes.0;
                        aes_key_encrypted = encode ciphertext;
                      }),
                )
              ]).1
      by_ciphertext none = Isolates-entropy s id seed.1 w
      by_ciphertext (some ciphertext) =
          let first = Isolates-entropy s id seed.1 w in
          elim (Bool-cases (use_disk s.options)) [
            | inl disk ↦
                let second =
                  Isolates-trans id s drawn (db_delete drawn id) first
                    (Isolates-db_delete drawn id first.wf) in
                rw disk (
                  Isolates-trans id s (db_delete drawn id) _ second
                    (Isolates-put_new (db_delete drawn id) id _ second.wf))
            | inr memory ↦
                rw memory (Isolates-trans id s drawn _ first (Isolates-put_new drawn id _ first.wf))
          ]

  pub Isolates-registers :
      (s : StorageDb L) (id secret key : Text)
      → IsWf s
      → Isolates id s (set_id_public_key s id secret key).1
  unfolding set_id_public_key
  Isolates-registers s id secret key w =
      let looked = Isolates-touch s id w in
      elim (Option-cases (L.cache.find s.cache id)) [
        | inr (p, e) ↦ rw (e, set_id_public_key) looked
        | inl e ↦ elim (Option-cases (parse_b64_rsa_public_key_from_pem L.crypto key)) [
          | inl bad ↦ rw (e, set_id_public_key) (rw bad looked)
          | inr (k, ok) ↦
              rw (e, set_id_public_key)
                (rw ok (
                  Isolates-trans id s (touched s id) _ looked
                    (Isolates-set_with_key (touched s id) id secret k looked.wf)))
        ]
      ]
