-- ===== src/Storage/Isolation.antt =====
-- The ids are isolated: a call on one id, or the cache's removal of one, leaves the values and the
-- records of all others alone, and keeps the pointers of the cache apart.
pub mod Calls
pub mod Held
pub mod Steps
use interactsh.Prelude.{
  ℕ, suc, ◌+◌, ◌<◌, ◌≤◌, ◌≡◌, ◌≢◌, refl, sym, ap, ◌∙◌, inl, inr, ◌⊎◌, Bool, true, false, List, [],
  ◌∷◌, Option, none, some, arith, if◌then◌else◌, Bool-cases, Option-cases, is_empty, Text, text_eq,
  text_eq_iff, text_eq_refl, ◌==◌, ==_iff,
}
use interactsh.Storage.Libraries.{Libs, DbReply, found, not_found, failed, rsa_key}
use interactsh.Storage.Types.{StorageDb, Options, CorrelationData, Error, use_disk}
use interactsh.Storage.Cipher.{parse_b64_rsa_public_key_from_pem}
use interactsh.Storage.Buffer.{set_value, db_delete}
use interactsh.Storage.Sessions.{
  put_new, on_cache_removal_callback, set_with_key, set_id_public_key, set_id, add_interaction,
  add_interaction_with_id, remove_id, get_cache_item,
}
use interactsh.Storage.Polling.{
  get_interactions, get_interactions_with_id, get_interactions_with_id_for_consumer,
  remove_consumer,
}
use interactsh.Storage.Frame.{
  Frame, Frame-refl, Frame-trans, Frame-set_value, Frame-db_delete, Frame-compact,
  Frame-read_unseen, Frame-store, Frame-take,
}

module _ {L : Libs} where
  -- What the cache holds for an id.
  unfoldable pub value_at : StorageDb L → Text → Option CorrelationData
  value_at s j = elim (L.cache.find s.cache j) [ none ↦ none | some p ↦ some (s.heap p) ]

  -- The pointers of the cache are in use, and no two ids share one.
  pub record IsWf (s : StorageDb L) : Type 0 where
    pub in_use : (k : Text) (p : ℕ) → L.cache.find s.cache k ≡ some p → p < s.next
    pub apart :
        (k j : Text) (p : ℕ)
        → L.cache.find s.cache k ≡ some p
        → L.cache.find s.cache j ≡ some p
        → k ≡ j

  -- `t` shows what `s` shows, for every id but `id`, with the same options, and its pointers are apart.
  pub record Isolates (id : Text) (s t : StorageDb L) : Type 0 where
    pub values : (j : Text) → text_eq id j ≡ false → value_at t j ≡ value_at s j
    pub records : (j : Text) → text_eq id j ≡ false → L.db.get t.db j ≡ L.db.get s.db j
    pub options : t.options ≡ s.options
    pub wf : IsWf t

  -- A call that finds the value of its id, and then touches only that.
  pub Isolates-Frame :
      (s t : StorageDb L) (id : Text) (p : ℕ)
      → IsWf s
      → L.cache.find s.cache id ≡ some p
      → Frame p id (record s { cache = L.cache.touch s.cache id }) t
      → Isolates id s t
  unfolding value_at
  Isolates-Frame s t id p w held f = record {
    values = λ j h. other j h (L.cache.find s.cache j) refl;
    records = λ j h. f.db j h;
    options = f.options;
    wf = record {
      in_use = λ k q e. rw f.next (w.in_use k q (sym (same k) ∙ e));
      apart = λ k j q e g. w.apart k j q (sym (same k) ∙ e) (sym (same j) ∙ g);
    };
  }
    where
      same : (k : Text) → L.cache.find t.cache k ≡ L.cache.find s.cache k
      same k = ap (λ c. L.cache.find c k) f.cache ∙ L.cache.find-touch s.cache id k

      apart_from :
          (j : Text) (q : ℕ)
          → text_eq id j ≡ false
          → L.cache.find s.cache j ≡ some q
          → (q == p) ≡ false
      apart_from j q h e = elim (Bool-cases (q == p)) [
        | inl eq ↦
            let same_ptr : q ≡ p = (==_iff q p).0 eq in
            let same_id : id ≡ j = w.apart id j p held (e ∙ ap some same_ptr) in
            cc (h, (text_eq_iff id j).1 same_id)
        | inr ne ↦ ne
      ]

      other :
          (j : Text)
          → text_eq id j ≡ false
          → (o : Option ℕ) → L.cache.find s.cache j ≡ o
          → value_at t j ≡ value_at s j
      other j h none e = ground (arith, same j, e)
      other j h (some q) e = ground (arith, same j, e, f.heap q (apart_from j q h e))

  pub Isolates-touch :
      (s : StorageDb L) (id : Text)
      → IsWf s
      → Isolates id s (record s { cache = L.cache.touch s.cache id })
  unfolding value_at
  Isolates-touch s id w = record {
    values = λ j h. ground (arith, L.cache.find-touch s.cache id j);
    records = λ j h. refl;
    options = refl;
    wf = record {
      in_use = λ k p e. w.in_use k p (sym (L.cache.find-touch s.cache id k) ∙ e);
      apart = λ k j p e g.
          w.apart k j p (sym (L.cache.find-touch s.cache id k) ∙ e)
            (sym (L.cache.find-touch s.cache id j) ∙ g);
    };
  }

  -- A new value for an id, under a pointer that was free.
  pub Isolates-put_new :
      (s : StorageDb L) (id : Text) (v : CorrelationData) → IsWf s → Isolates id s (put_new s id v)
  unfolding put_new value_at
  Isolates-put_new s id v w = record {
    values = λ j h. other j h (L.cache.find s.cache j) refl;
    records = λ j h. refl;
    options = refl;
    wf = record {
      in_use = λ k p e. ground (arith, L.cache.find-put s.cache id k s.next, w.in_use k p);
      apart = λ k j p e g. ground (
        arith,
        L.cache.find-put s.cache id k s.next,
        L.cache.find-put s.cache id j s.next,
        text_eq_iff id k,
        text_eq_iff id j,
        w.in_use k p,
        w.in_use j p,
        w.apart k j p,
      );
    };
  }
    where
      other :
          (j : Text)
          → text_eq id j ≡ false
          → (o : Option ℕ) → L.cache.find s.cache j ≡ o
          → value_at (put_new s id v) j ≡ value_at s j
      other j h none e = ground (arith, L.cache.find-put s.cache id j s.next, e)
      other j h (some q) e = ground (arith, L.cache.find-put s.cache id j s.next, e, w.in_use j q e)

  pub Isolates-trans :
      (id : Text) (s t u : StorageDb L) → Isolates id s t → Isolates id t u → Isolates id s u
  Isolates-trans id s t u f g = record {
    values = λ j h. g.values j h ∙ f.values j h;
    records = λ j h. g.records j h ∙ f.records j h;
    options = g.options ∙ f.options;
    wf = g.wf;
  }

  -- A state that differs in the random source and the record of the id only.
  pub Isolates-db_delete : (s : StorageDb L) (id : Text) → IsWf s → Isolates id s (db_delete s id)
  unfolding db_delete value_at
  Isolates-db_delete s id w = record {
    values = λ j h. refl;
    records = λ j h. L.db.get-delete s.db id j ∙ rw h refl;
    options = refl;
    wf = record { in_use = w.in_use; apart = w.apart };
  }

  pub Isolates-entropy :
      (s : StorageDb L) (id : Text) (e : ℕ → ℕ) → IsWf s → Isolates id s (record s { entropy = e })
  unfolding value_at
  Isolates-entropy s id e w = record {
    values = λ j h. refl;
    records = λ j h. refl;
    options = refl;
    wf = record { in_use = w.in_use; apart = w.apart };
  }

  pub Isolates-invalidate :
      (s : StorageDb L) (id : Text)
      → IsWf s
      → Isolates id s (record s { cache = L.cache.invalidate s.cache id })
  unfolding value_at
  Isolates-invalidate s id w = record {
    values = λ j h. ground (arith, L.cache.find-invalidate s.cache id j);
    records = λ j h. refl;
    options = refl;
    wf = record {
      in_use = λ k p e. ground (arith, L.cache.find-invalidate s.cache id k, w.in_use k p);
      apart = λ k j p e g. ground (
        arith,
        L.cache.find-invalidate s.cache id k,
        L.cache.find-invalidate s.cache id j,
        w.apart k j p,
      );
    };
  }
