-- ===== src/Storage/Isolation/Steps.antt =====
-- Every call of the storage, and the cache's own removals, as the steps of one relation.
use interactsh.Prelude.{
  ℕ, ◌≡◌, refl, sym, ◌∙◌, false, none, some, if◌then◌else◌, Bool-cases, inl, inr, Text, text_eq,
  text_eq_iff, arith,
}
use interactsh.Storage.Libraries.{Libs}
use interactsh.Storage.Types.{StorageDb, use_disk, empty_data}
use interactsh.Storage.Buffer.{db_delete}
use interactsh.Storage.Sessions.{
  on_cache_removal_callback, set_id_public_key, set_id, add_interaction, add_interaction_with_id,
  remove_id, get_cache_item,
}
use interactsh.Storage.Polling.{
  get_interactions, get_interactions_with_id, get_interactions_with_id_for_consumer,
  remove_consumer,
}
use interactsh.Storage.Isolation.{
  value_at, IsWf, Isolates, Isolates-trans, Isolates-db_delete, Isolates-put_new,
}
use interactsh.Storage.Isolation.Calls.{
  Isolates-adds, Isolates-adds_with_id, Isolates-takes, Isolates-takes_with_id, Isolates-reads,
  Isolates-leaves, Isolates-inspects, Isolates-removes, Isolates-registers,
}

-- The calls of the Storage interface that change its state, with the time where it is read.
pub data Call : Type 0 where
  registers : Text → Text → Text → Call
  names : Text → Call
  adds adds_with_id : Text → Text → Call
  takes : Text → Text → Call
  takes_with_id : Text → Call
  reads leaves : Text → Text → ℕ → Call
  removes : Text → Text → Call
  inspects : Text → Call

unfoldable pub target : Call → Text
target (registers id secret key) = id
target (names id) = id
target (adds id item) = id
target (adds_with_id id item) = id
target (takes id secret) = id
target (takes_with_id id) = id
target (reads id consumer now) = id
target (leaves id consumer now) = id
target (removes id secret) = id
target (inspects id) = id

module _ {L : Libs} where
  unfoldable pub perform : Call → StorageDb L → StorageDb L
  perform (registers id secret key) s = (set_id_public_key s id secret key).1
  perform (names id) s = set_id s id
  perform (adds id item) s = (add_interaction s id item).1
  perform (adds_with_id id item) s = (add_interaction_with_id s id item).1
  perform (takes id secret) s = (get_interactions s id secret).1
  perform (takes_with_id id) s = (get_interactions_with_id s id).1
  perform (reads id consumer now) s = (get_interactions_with_id_for_consumer s id consumer now).1
  perform (leaves id consumer now) s = remove_consumer s id consumer now
  perform (removes id secret) s = (remove_id s id secret).1
  perform (inspects id) s = (get_cache_item s id).1

  -- The removal listener is set only with disk storage (New).
  unfoldable pub listen : StorageDb L → Text → StorageDb L
  listen s id = if use_disk s.options then on_cache_removal_callback s id else s

  -- A call, or a removal of one id by the cache, for age or for size, with its listener.
  pub data Step (s t : StorageDb L) : Type 0 where
    called : (c : Call) → t ≡ perform c s → Step s t
    evicted :
        (id : Text) (left : L.cache.State)
        → L.cache.find left id ≡ none
        → ((j : Text) → text_eq id j ≡ false → L.cache.find left j ≡ L.cache.find s.cache j)
        → t ≡ listen (record s { cache = left }) id
        → Step s t

  -- The id that a step is about.
  unfoldable pub subject : {s t : StorageDb L} → Step s t → Text
  subject (called c e) = target c
  subject (evicted id left gone kept e) = id

  perform-Isolates : (c : Call) (s : StorageDb L) → IsWf s → Isolates (target c) s (perform c s)
  unfolding perform target
  perform-Isolates (registers id secret key) s w = Isolates-registers s id secret key w
  perform-Isolates (names id) s w = unfold set_id in Isolates-put_new s id empty_data w
  perform-Isolates (adds id item) s w = Isolates-adds s id item w
  perform-Isolates (adds_with_id id item) s w = Isolates-adds_with_id s id item w
  perform-Isolates (takes id secret) s w = Isolates-takes s id secret w
  perform-Isolates (takes_with_id id) s w = Isolates-takes_with_id s id w
  perform-Isolates (reads id consumer now) s w = Isolates-reads s id consumer now w
  perform-Isolates (leaves id consumer now) s w = Isolates-leaves s id consumer now w
  perform-Isolates (removes id secret) s w = Isolates-removes s id secret w
  perform-Isolates (inspects id) s w = Isolates-inspects s id w

  Isolates-evicted :
      (s : StorageDb L) (id : Text) (left : L.cache.State)
      → IsWf s
      → L.cache.find left id ≡ none
      → ((j : Text) → text_eq id j ≡ false → L.cache.find left j ≡ L.cache.find s.cache j)
      → Isolates id s (record s { cache = left })
  unfolding value_at
  Isolates-evicted s id left w gone kept = record {
    values = λ j h. ground (arith, kept j h);
    records = λ j h. refl;
    options = refl;
    wf = record {
      in_use = λ k p e. w.in_use k p (was k p e);
      apart = λ k j p e g. w.apart k j p (was k p e) (was j p g);
    };
  }
    where
      was : (k : Text) (p : ℕ) → L.cache.find left k ≡ some p → L.cache.find s.cache k ≡ some p
      was k p e = elim (Bool-cases (text_eq id k)) [
        | inl eq ↦ let same : id ≡ k = (text_eq_iff id k).0 eq in cc (same, gone, e)
        | inr ne ↦ sym (kept k ne) ∙ e
      ]

  -- A step isolates the id that it is about.
  pub Step-Isolates : {s t : StorageDb L} (st : Step s t) → IsWf s → Isolates (subject st) s t
  unfolding subject listen on_cache_removal_callback
  Step-Isolates {s} (called c e) w = rw e (perform-Isolates c s w)
  Step-Isolates {s} (evicted id left gone kept e) w =
      let first = Isolates-evicted s id left w gone kept in
      let m = record s { cache = left } in
      rw e (
        listened m (Isolates-trans id s m (db_delete m id) first (Isolates-db_delete m id first.wf))
          first)
    where
      listened :
          (m : StorageDb L)
          → Isolates id s (db_delete m id)
          → Isolates id s m
          → Isolates id s (listen m id)
      listened m dropped same = elim (Bool-cases (use_disk m.options)) [
        | inl disk ↦ rw (disk, listen) dropped
        | inr memory ↦ rw (memory, listen) same
      ]

  pub data Reach (s : StorageDb L) : StorageDb L → Type 0 where
    here : Reach s s
    next : {t u : StorageDb L} → Reach s t → Step t u → Reach s u

  -- From a state whose cached pointers are in use and apart, every state that steps lead to is one.
  pub Reach-IsWf : {s t : StorageDb L} → IsWf s → Reach s t → IsWf t
  Reach-IsWf w here = w
  Reach-IsWf w (next r st) = (Step-Isolates st (Reach-IsWf w r)).wf
