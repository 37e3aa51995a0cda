-- ===== src/EndToEnd/Shared/Visits.antt =====
-- The token's buffer over HTTP (pkg/server/http_server.go): each session gets each of its entries
-- once.
use interactsh.Prelude.{
  ℕ, ◌≡◌, false, List, [], ◌∷◌, ◌++◌, some, if◌then◌else◌, is_empty, length, All, Text, text_eq,
  delete,
}
use interactsh.Storage.Lines.{IsLine}
use interactsh.Storage.Libraries.{Libs}
use interactsh.Storage.Types.{StorageDb}
use interactsh.Storage.Sessions.{add_interaction_with_id}
use interactsh.Storage.Spec.{mark}
use interactsh.Storage.Spec.Positions.{unseen, IsFresh}
use interactsh.Storage.Isolation.Steps.{Step, subject}
use interactsh.Storage.Refine.Trim.{view}
use interactsh.Storage.Refine.Compact.{ttl}
use interactsh.Storage.Refine.Runs.{Runs, stops, adds, others}
use interactsh.Storage.Refine.Histories.{Serves, delivers_once}
use interactsh.Server.Options.{ServerOptions, Metrics}
use interactsh.Server.Http.Types.{HttpState}
use interactsh.Server.Http.Sessions.{DeregisterRequest, deregister_handler, poll_session}
use interactsh.EndToEnd.Shared.{
  extra_of, before_extra, before_leave, poll_session-Runs, deregister_handler-Runs,
}

module _ {L : Libs} (options : ServerOptions) (d : Text) where
  -- A run of the server, with what the session `d` gets in the field "extra" of its polls and what
  -- is stored under the token, both in order. The sessions are not called as the token is, and `d`
  -- does not deregister and polls before it is stale. All other calls of the storage are free,
  -- and so are the counters.
  pub data Visits : HttpState L → List Text → List Text → HttpState L → Type 0 where
    rests : {s : HttpState L} → Visits s [] [] s
    stores :
        {s t : HttpState L} {got put : List Text} (item : Text) (stats : Metrics)
        → IsLine item
        → Visits
            (record {
              storage = (add_interaction_with_id s.storage options.token item).1;
              stats = stats;
            })
            got
            put
            t
        → Visits s got (item ∷ put) t
    calls :
        {s u : HttpState L} {t : StorageDb L} {got put : List Text} (st : Step s.storage t)
        (stats : Metrics)
        → text_eq (subject st) options.token ≡ false
        → Visits (record { storage = t; stats = stats }) got put u
        → Visits s got put u
    polls :
        {s t : HttpState L} {got put : List Text} (id secret : Text) (now p : ℕ)
        → text_eq id options.token ≡ false
        → (let b = before_extra options id secret now s.storage in
            (L.cache.find b.cache options.token ≡ some p)
            × IsFresh (ttl b) d now (mark id now (view b p options.token)))
        → Visits (poll_session options id secret now s).1 got put t
        → Visits s
            ((if text_eq id d then extra_of (poll_session options id secret now s).0 else [])
              ++ got)
            put
            t
    deregisters :
        {s t : HttpState L} {got put : List Text} (q : DeregisterRequest) (now p : ℕ)
        → text_eq q.correlation_id options.token ≡ false
        → text_eq q.correlation_id d ≡ false
        → (let b = before_leave options q.correlation_id q.secret_key now s.storage in
            (L.cache.find b.cache options.token ≡ some p)
            × IsFresh (ttl b) d now (record (view b p options.token) {
              offsets = delete q.correlation_id (b.heap p).read_offsets;
              seen = delete q.correlation_id (b.heap p).last_seen;
            }))
        → Visits (deregister_handler options (some q) now s).1 got put t
        → Visits s got put t

  Visits-Runs :
      {s t : HttpState L} {got put : List Text}
      → is_empty options.token ≡ false
      → All (λ domain. text_eq domain options.token ≡ false) options.domains
      → Visits s got put t
      → Runs options.token d s.storage got put t.storage
  Visits-Runs some_token apart rests = stops
  Visits-Runs some_token apart (stores item stats line v) =
      adds item line (Visits-Runs some_token apart v)
  Visits-Runs some_token apart (calls st stats other v) =
      others st other (Visits-Runs some_token apart v)
  Visits-Runs {s} some_token apart (polls id secret now p other ready v) =
      poll_session-Runs options d id secret now p s some_token other apart ready
        (Visits-Runs some_token apart v)
  Visits-Runs {s} some_token apart (deregisters q now p other stays ready v) =
      deregister_handler-Runs options d q now p s some_token other stays apart ready
        (Visits-Runs some_token apart v)

  -- Over any run of the server with a token, in which all that is stored under the token fits its
  -- buffer, a session that is on that buffer, stays and is never stale gets over HTTP what it had
  -- not seen of it and then every entry stored there: in order, each once, up to what is still
  -- unseen at the end.
  pub poll_session-delivers_once :
      {s t : HttpState L} {got put : List Text} (p : ℕ)
      → is_empty options.token ≡ false
      → All (λ domain. text_eq domain options.token ≡ false) options.domains
      → Visits s got put t
      → Serves options.token d (length put) s.storage p
      → (q : ℕ) × (L.cache.find t.storage.cache options.token ≡ some q)
        × (got ++ unseen d (view t.storage q options.token)
            ≡ unseen d (view s.storage p options.token) ++ put)
  poll_session-delivers_once p some_token apart v served =
      delivers_once options.token d p (Visits-Runs some_token apart v) served
