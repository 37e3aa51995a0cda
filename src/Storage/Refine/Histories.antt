-- ===== src/Storage/Refine/Histories.antt =====
-- Exactly-once, in-order delivery of AddInteractionWithId, GetInteractionsWithIdForConsumer and
-- RemoveConsumer (pkg/storage/storagedb.go), among the calls on other ids.
use interactsh.Prelude.{
  ℕ, suc, ◌≡◌, refl, sym, ap, subst, ◌∙◌, inl, inr, false, List, [], ◌∷◌, ◌++◌, some, arith,
  if◌then◌else◌, Option-cases, length, Text, text_eq, append-nil, append_assoc, delete,
}
use interactsh.Storage.Lines.{IsLine}
use interactsh.Storage.Libraries.{Libs}
use interactsh.Storage.Types.{StorageDb, Options}
use interactsh.Storage.Sessions.{add_interaction_with_id}
use interactsh.Storage.Polling.{get_interactions_with_id_for_consumer, remove_consumer}
use interactsh.Storage.Spec.{mark}
use interactsh.Storage.Spec.Positions.{unseen, IsFresh}
use interactsh.Storage.Spec.Delivery.{offset_of-known, unseen-push}
use interactsh.Storage.Spec.Served.{IsServed, IsServed-push}
use interactsh.Storage.Frame.{Frame}
use interactsh.Storage.Isolation.{IsWf, Isolates, value_at}
use interactsh.Storage.Isolation.Held.{touched, Frame-adds, Frame-reads, Frame-leaves}
use interactsh.Storage.Isolation.Steps.{Step, subject, Step-Isolates}
use interactsh.Storage.Isolation.Calls.{Isolates-adds_with_id, Isolates-reads, Isolates-leaves}
use interactsh.Storage.Refine.Trim.{contents, view}
use interactsh.Storage.Refine.Compact.{limit, ttl}
use interactsh.Storage.Refine.Keys.{KeepsKey, key-adds, key-reads, key-leaves}
use interactsh.Storage.Refine.Calls.{add_interaction_with_id-push}
use interactsh.Storage.Refine.Served.{IsServed-reads, IsServed-leaves}
use interactsh.Storage.Refine.Runs.{Runs, stops, adds, polls, leaves, others}

module _ {L : Libs} (id d : Text) where
  -- The cache holds the id, with no key, and its buffer serves `d` with room for `room` entries.
  pub record Serves (room : ℕ) (s : StorageDb L) (p : ℕ) : Type 0 where
    pub wf : IsWf s
    pub held : L.cache.find s.cache id ≡ some p
    pub bare : (s.heap p).aes_key ≡ []
    pub served : IsServed (limit s) room d (view s p id)

  -- After a call that looks the id up and keeps to its value, what else is needed is the buffer.
  Serves-call :
      (room more : ℕ) (s t : StorageDb L) (p : ℕ)
      → Serves more s p
      → Isolates id s t
      → Frame p id (touched s id) t
      → KeepsKey p id s t
      → IsServed (limit s) room d (view t p id)
      → Serves room t p
  Serves-call room more s t p h apart f key served = record {
    wf = apart.wf;
    held = ap (λ c. L.cache.find c id) f.cache ∙ L.cache.find-touch s.cache id id ∙ h.held;
    bare = key ∙ h.bare;
    served =
        subst (λ (o : Options). IsServed o.max_shared_interactions room d (view t p id))
          (sym f.options) served;
  }

  Serves-adds :
      (room : ℕ) (s : StorageDb L) (p : ℕ) (item : Text)
      → IsLine item
      → Serves (suc room) s p
      → let t = (add_interaction_with_id s id item).1 in
        Serves room t p × (unseen d (view t p id) ≡ unseen d (view s p id) ++ (item ∷ []))
  Serves-adds room s p [] line h = absurd (line.nonempty refl)
  Serves-adds room s p (x ∷ xs) line h =
      let pushed = (add_interaction_with_id-push s p id (x ∷ xs) h.held h.bare line).1 in
      (
        Serves-call room (suc room) s _ p h (Isolates-adds_with_id s id (x ∷ xs) h.wf)
            (Frame-adds s p id h.held x xs) (key-adds p id s h.held (x ∷ xs))
            (rw pushed (IsServed-push (limit s) (ttl s) d room (x ∷ xs) (view s p id) h.served)),
        rw pushed (
            unseen-push d (x ∷ xs) (view s p id) (
              rw (offset_of-known d (s.heap p).read_offsets h.served.offset h.served.known)
                h.served.within)),
      )

  Serves-polls :
      (room : ℕ) (s : StorageDb L) (p : ℕ) (c : Text) (now : ℕ)
      → IsFresh (ttl s) d now (mark c now (view s p id))
      → Serves room s p
      → let r = get_interactions_with_id_for_consumer s id c now in
        Serves room r.1 p
        × ((if text_eq c d then r.0.0 else []) ++ unseen d (view r.1 p id) ≡ unseen d (view s p id))
  Serves-polls room s p c now fresh h =
      let (shown, served) = IsServed-reads s p id h.held d room h.served c now fresh in
      (
        Serves-call room room s _ p h (Isolates-reads s id c now h.wf)
            (Frame-reads s p id h.held c now) (key-reads p id s h.held c now) served,
        shown,
      )

  Serves-leaves :
      (room : ℕ) (s : StorageDb L) (p : ℕ) (c : Text) (now : ℕ)
      → text_eq c d ≡ false
      → IsFresh (ttl s) d now (record (view s p id) {
        offsets = delete c (s.heap p).read_offsets;
        seen = delete c (s.heap p).last_seen;
      })
      → Serves room s p
      → let t = remove_consumer s id c now in
        Serves room t p × (unseen d (view t p id) ≡ unseen d (view s p id))
  Serves-leaves room s p c now other fresh h =
      let (shown, served) = IsServed-leaves s p id h.held d room h.served c now other fresh in
      (
        Serves-call room room s _ p h (Isolates-leaves s id c now h.wf)
            (Frame-leaves s p id h.held c now) (key-leaves p id s h.held c now) served,
        shown,
      )

  value-found :
      (s t : StorageDb L) (p : ℕ)
      → value_at t id ≡ value_at s id
      → L.cache.find s.cache id ≡ some p
      → (q : ℕ) × (L.cache.find t.cache id ≡ some q) × (t.heap q ≡ s.heap p)
  unfolding value_at
  value-found s t p same held = elim (Option-cases (L.cache.find t.cache id)) [
    | inl e ↦ absurd (ground (arith, same, held, e))
    | inr (q, e) ↦ (q, e, ground (arith, same, held, e))
  ]

  -- A step of another id may not move the value, but the cache may hold it under a new pointer.
  Serves-others :
      (room : ℕ) (s t : StorageDb L) (p : ℕ) (st : Step s t)
      → text_eq (subject st) id ≡ false
      → Serves room s p
      → (q : ℕ) × Serves room t q × (unseen d (view t q id) ≡ unseen d (view s p id))
  Serves-others room s t p st other h =
      let apart = Step-Isolates st h.wf in
      let (q, held, value) = value-found s t p (apart.values id other) h.held in
      let same : view t q id ≡ view s p id =
        unfold contents in ground (arith, value, apart.options, apart.records id other) in
      (
        q,
        record {
          wf = apart.wf;
          held = held;
          bare = rw value h.bare;
          served = rw same (
              subst (λ (o : Options). IsServed o.max_shared_interactions room d (view s p id))
                (sym apart.options) h.served);
        },
        ap (unseen d) same,
      )

  -- A consumer that is on the buffer of an id receives, over any run of the storage that fits the
  -- buffer, in which it stays and is never forgotten, what it had not seen and then every entry
  -- stored under the id: in order, each once, up to what is still unseen at the end.
  pub delivers_once :
      {s t : StorageDb L} {got put : List Text} (p : ℕ)
      → Runs id d s got put t
      → Serves (length put) s p
      → (q : ℕ) × (L.cache.find t.cache id ≡ some q)
        × (got ++ unseen d (view t q id) ≡ unseen d (view s p id) ++ put)
  delivers_once {s} p stops h = (p, h.held, sym (append-nil (unseen d (view s p id))))
  delivers_once {s} {t} {got} {put} p (adds {put = rest} item line r) h =
      let (after, more) = Serves-adds (length rest) s p item line h in
      let (q, held, e) = delivers_once p r after in
      (
        q,
        held,
        e ∙ ap (λ xs. xs ++ rest) more ∙ append_assoc (unseen d (view s p id)) (item ∷ []) rest,
      )
  delivers_once {s} {t} p (polls {got = got} {put = put} c now p' found fresh r) h =
      let same : p' ≡ p = cc (found, h.held) in
      let first =
        (if text_eq c d then (get_interactions_with_id_for_consumer s id c now).0.0 else []) in
      let (after, more) =
        Serves-polls (length put) s p c now
          (subst (λ k. IsFresh (ttl s) d now (mark c now (view s k id))) same fresh) h in
      let (q, held, e) = delivers_once p r after in
      (
        q,
        held,
        append_assoc first got (unseen d (view t q id))
            ∙ ap (◌++◌ first) e
            ∙ sym (append_assoc first _ put)
            ∙ ap (λ xs. xs ++ put) more,
      )
  delivers_once {s} {t} p (leaves {got = got} {put = put} c now p' found other fresh r) h =
      let same : p' ≡ p = cc (found, h.held) in
      let (after, more) =
        Serves-leaves (length put) s p c now other
          (subst
            (λ k. IsFresh (ttl s) d now (record (view s k id) {
              offsets = delete c (s.heap k).read_offsets;
              seen = delete c (s.heap k).last_seen;
            }))
            same fresh)
          h in
      let (q, held, e) = delivers_once p r after in (q, held, e ∙ ap (λ xs. xs ++ put) more)
  delivers_once {s} {t} p (others {t = u} {put = put} st other r) h =
      let (p', after, more) = Serves-others (length put) s u p st other h in
      let (q, held, e) = delivers_once p' r after in (q, held, e ∙ ap (λ xs. xs ++ put) more)
