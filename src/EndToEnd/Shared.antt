-- ===== src/EndToEnd/Shared.antt =====
-- What the sessions get of the server's token over HTTP: pollHandler and deregisterHandler
-- (pkg/server/http_server.go) on the shared buffers of pkg/storage/storagedb.go.
pub mod Visits
use interactsh.Prelude.{
  ℕ, ◌≡◌, refl, sym, ap, ◌∙◌, subst, inl, inr, Bool, true, false, List, [], ◌∷◌, ◌++◌, Option, none,
  some, arith, if◌then◌else◌, Bool-cases, Option-cases, is_empty, length, All, Text, text_eq,
  delete,
}
use interactsh.Storage.Lines.{IsLine}
use interactsh.Storage.Libraries.{Libs}
use interactsh.Storage.Types.{StorageDb, Error}
use interactsh.Storage.Sessions.{add_interaction_with_id, remove_id}
use interactsh.Storage.Polling.{
  get_interactions, get_interactions_with_id_for_consumer, remove_consumer,
}
use interactsh.Storage.Spec.{mark}
use interactsh.Storage.Spec.Positions.{unseen, IsFresh}
use interactsh.Storage.Isolation.Steps.{
  Call, Step, called, subject, target, perform, takes, reads, removes, leaves,
}
use interactsh.Storage.Refine.Trim.{view}
use interactsh.Storage.Refine.Compact.{ttl}
use interactsh.Storage.Refine.Runs.{Runs, stops, adds, polls, others}
use interactsh.Storage.Refine.Runs
use interactsh.Storage.Refine.Histories.{Serves, delivers_once}
use interactsh.Server.Options.{ServerOptions, Metrics}
use interactsh.Server.Http.Types.{Answer, Body, polled, HttpState}
use interactsh.Server.Http.Sessions.{
  DeregisterRequest, remove_from_all, deregister_handler, read_all, poll_session,
}

-- The field "extra" of an answer to a poll.
abbrev pub extra_of : Answer → List Text
extra_of answer = elim answer.body as (λ (b : Body). List Text) [ polled r ↦ r.extra | _ ↦ [] ]

nothing : (b : Bool) (got : List Text) → got ≡ (if b then [] else []) ++ got
nothing true got = refl
nothing false got = refl

module _ {L : Libs} (options : ServerOptions) where
  -- The storage of a poll before it reads the token's buffer.
  abbrev pub before_extra : Text → Text → ℕ → StorageDb L → StorageDb L
  before_extra id secret now s =
      let s' = (get_interactions s id secret).1 in
      (if options.root_tld then read_all options options.domains id now s' else ([], s')).1

  -- The storage of a deregistration before the session leaves the token's buffer.
  abbrev pub before_leave : Text → Text → ℕ → StorageDb L → StorageDb L
  before_leave id secret now s =
      let s' = (remove_id s id secret).1 in
      if options.root_tld then remove_from_all options options.domains id now s' else s'

  -- What a poll answers and leaves, if the session is not there or the secret is wrong, and else.
  poll_session-refused :
      (id secret : Text) (now : ℕ) (s : HttpState L) (e : Error)
      → (get_interactions s.storage id secret).0.2 ≡ some e
      → let r = poll_session options id secret now s in
        (extra_of r.0 ≡ []) × (r.1.storage ≡ (get_interactions s.storage id secret).1)
  unfolding poll_session
  poll_session-refused id secret now s e failed = rw (poll_session, failed) (refl, refl)

  poll_session-served :
      (id secret : Text) (now : ℕ) (s : HttpState L)
      → is_empty options.token ≡ false
      → (get_interactions s.storage id secret).0.2 ≡ none
      → let r = poll_session options id secret now s in
        let read =
          get_interactions_with_id_for_consumer
            (before_extra id secret now s.storage)
            options.token
            id
            now in
        (extra_of r.0 ≡ read.0.0) × (r.1.storage ≡ read.1)
  unfolding poll_session
  poll_session-served id secret now s some_token fine =
      rw (poll_session, fine, some_token) (refl, refl)

  deregister_handler-refused :
      (q : DeregisterRequest) (now : ℕ) (s : HttpState L) (e : Error)
      → (remove_id s.storage q.correlation_id q.secret_key).0 ≡ some e
      → (deregister_handler options (some q) now s).1.storage
        ≡ (remove_id s.storage q.correlation_id q.secret_key).1
  unfolding deregister_handler
  deregister_handler-refused q now s e failed = rw (deregister_handler, failed) refl

  deregister_handler-served :
      (q : DeregisterRequest) (now : ℕ) (s : HttpState L)
      → is_empty options.token ≡ false
      → (remove_id s.storage q.correlation_id q.secret_key).0 ≡ none
      → (deregister_handler options (some q) now s).1.storage
        ≡ remove_consumer
            (before_leave q.correlation_id q.secret_key now s.storage)
            options.token
            q.correlation_id
            now
  unfolding deregister_handler
  deregister_handler-served q now s some_token fine = rw (deregister_handler, fine, some_token) refl

  module _ (d : Text) where
    -- A call on another id goes before a run.
    Runs-call :
        (c : Call) {s t : StorageDb L} {got put : List Text}
        → text_eq (target c) options.token ≡ false
        → Runs options.token d (perform c s) got put t
        → Runs options.token d s got put t
    unfolding subject
    Runs-call c apart r = others (called c refl) apart r

    Runs-if :
        (b : Bool) (x y : StorageDb L) {s t : StorageDb L} {got put : List Text}
        → (Runs options.token d x got put t → Runs options.token d s got put t)
        → (Runs options.token d y got put t → Runs options.token d s got put t)
        → Runs options.token d (if b then x else y) got put t
        → Runs options.token d s got put t
    Runs-if true x y f g r = f r
    Runs-if false x y f g r = g r

    Runs-pair :
        (b : Bool) (x y : List Text × StorageDb L) {s t : StorageDb L} {got put : List Text}
        → (Runs options.token d x.1 got put t → Runs options.token d s got put t)
        → (Runs options.token d y.1 got put t → Runs options.token d s got put t)
        → Runs options.token d (if b then x else y).1 got put t
        → Runs options.token d s got put t
    Runs-pair true x y f g r = f r
    Runs-pair false x y f g r = g r

    read_all-Runs :
        (domains : List Text) (id : Text) (now : ℕ) {s t : StorageDb L} {got put : List Text}
        → All (λ domain. text_eq domain options.token ≡ false) domains
        → Runs options.token d (read_all options domains id now s).1 got put t
        → Runs options.token d s got put t
    unfolding read_all target perform
    read_all-Runs [] id now apart r = r
    read_all-Runs (domain ∷ domains) id now apart r =
        Runs-call (reads domain id now) apart.0 (read_all-Runs domains id now apart.1 r)

    remove_from_all-Runs :
        (domains : List Text) (id : Text) (now : ℕ) {s t : StorageDb L} {got put : List Text}
        → All (λ domain. text_eq domain options.token ≡ false) domains
        → Runs options.token d (remove_from_all options domains id now s) got put t
        → Runs options.token d s got put t
    unfolding remove_from_all target perform
    remove_from_all-Runs [] id now apart r = r
    remove_from_all-Runs (domain ∷ domains) id now apart r =
        Runs-call (leaves domain id now) apart.0 (remove_from_all-Runs domains id now apart.1 r)

    -- The calls of a poll, and of a deregistration, before they come to the token's buffer, where
    -- the session's id and the domains are not the token.
    before_extra-Runs :
        (id secret : Text) (now : ℕ) {s t : StorageDb L} {got put : List Text}
        → text_eq id options.token ≡ false
        → All (λ domain. text_eq domain options.token ≡ false) options.domains
        → Runs options.token d (before_extra id secret now s) got put t
        → Runs options.token d s got put t
    unfolding target perform
    before_extra-Runs id secret now apart all_apart r =
        Runs-call (takes id secret) apart (
          Runs-pair options.root_tld _ _ (read_all-Runs options.domains id now all_apart) (λ r. r)
            r)

    before_leave-Runs :
        (id secret : Text) (now : ℕ) {s t : StorageDb L} {got put : List Text}
        → text_eq id options.token ≡ false
        → All (λ domain. text_eq domain options.token ≡ false) options.domains
        → Runs options.token d (before_leave id secret now s) got put t
        → Runs options.token d s got put t
    unfolding target perform
    before_leave-Runs id secret now apart all_apart r = Runs-call (removes id secret) apart (
        Runs-if options.root_tld _ _ (remove_from_all-Runs options.domains id now all_apart)
          (λ r. r) r)

    -- A poll over HTTP is a run, in which `d` gets what the answer holds for it.
    pub poll_session-Runs :
        (id secret : Text) (now p : ℕ) (s : HttpState L) {t : StorageDb L} {got put : List Text}
        → is_empty options.token ≡ false
        → text_eq id options.token ≡ false
        → All (λ domain. text_eq domain options.token ≡ false) options.domains
        → (let b = before_extra id secret now s.storage in
            (L.cache.find b.cache options.token ≡ some p)
            × IsFresh (ttl b) d now (mark id now (view b p options.token)))
        → let r = poll_session options id secret now s in
          Runs options.token d r.1.storage got put t
          → Runs options.token d s.storage
              ((if text_eq id d then extra_of r.0 else []) ++ got)
              put
              t
    unfolding target perform
    poll_session-Runs id secret now p s {t} {got} {put} some_token apart all_apart (found, fresh)
          r =
        elim (Option-cases (get_interactions s.storage id secret).0.2) [
          | inr (failure, e) ↦
              let (no_extra, kept) = poll_session-refused id secret now s failure e in
              subst (λ xs. Runs options.token d s.storage xs put t)
                (nothing (text_eq id d) got
                  ∙ ap (λ xs. (if text_eq id d then xs else []) ++ got) (sym no_extra))
                (Runs-call (takes id secret) apart
                  (subst (λ u. Runs options.token d u got put t) kept r))
          | inl e ↦
              let (extra, kept) = poll_session-served id secret now s some_token e in
              subst
                (λ xs.
                  Runs options.token d s.storage ((if text_eq id d then xs else []) ++ got) put t)
                (sym extra)
                (before_extra-Runs id secret now apart all_apart (
                  polls id now p found fresh
                    (subst (λ u. Runs options.token d u got put t) kept r)))
        ]

    -- A deregistration of another session over HTTP is a run.
    pub deregister_handler-Runs :
        (q : DeregisterRequest) (now p : ℕ) (s : HttpState L) {t : StorageDb L}
        {got put : List Text}
        → is_empty options.token ≡ false
        → text_eq q.correlation_id options.token ≡ false
        → text_eq q.correlation_id d ≡ false
        → All (λ domain. text_eq domain options.token ≡ false) options.domains
        → (let b = before_leave q.correlation_id q.secret_key now s.storage in
            (L.cache.find b.cache options.token ≡ some p)
            × IsFresh (ttl b) d now (record (view b p options.token) {
              offsets = delete q.correlation_id (b.heap p).read_offsets;
              seen = delete q.correlation_id (b.heap p).last_seen;
            }))
        → Runs options.token d (deregister_handler options (some q) now s).1.storage got put t
        → Runs options.token d s.storage got put t
    unfolding target perform
    deregister_handler-Runs q now p s {t} {got} {put} some_token apart other all_apart
          (found, fresh) r =
        let id = q.correlation_id in
        elim (Option-cases (remove_id s.storage id q.secret_key).0) [
          | inr (failure, e) ↦ Runs-call (removes id q.secret_key) apart (
              subst (λ u. Runs options.token d u got put t)
                (deregister_handler-refused q now s failure e) r)
          | inl e ↦ before_leave-Runs id q.secret_key now apart all_apart (
              Runs.leaves id now p found other fresh (
                subst (λ u. Runs options.token d u got put t)
                  (deregister_handler-served q now s some_token e) r))
        ]
