-- ===== src/Server/Http/Sessions.antt =====
-- The session endpoints of pkg/server/http_server.go: registerHandler, deregisterHandler and
-- pollHandler. A body that does not decode is `none`.
use interactsh.Prelude.{
  ℕ, ◌+◌, List, [], ◌∷◌, ◌++◌, Option, none, some, if◌then◌else◌, Text, codes, Assoc, lookup,
  is_empty,
}
use interactsh.Storage.Libraries.{Libs}
use interactsh.Storage.Types.{StorageDb}
use interactsh.Storage.Sessions.{set_id_public_key, remove_id}
use interactsh.Storage.Polling.{
  get_interactions, get_interactions_with_id_for_consumer, remove_consumer,
}
use interactsh.Server.Options.{ServerOptions}
use interactsh.Server.Http.Types.{
  Request, json_error, json_msg, storage_error, polled, Answer, HttpState, json_body, status_ok,
  status_bad_request,
}

pub record RegisterRequest : Type 0 where
  pub public_key : Text
  pub secret_key : Text
  pub correlation_id : Text

pub record DeregisterRequest : Type 0 where
  pub correlation_id : Text
  pub secret_key : Text

-- req.URL.Query().Get(key)
unfoldable pub query_get : Text → Assoc (List Text) → Text
query_get key query = elim (lookup key query) [
  | none ↦ []
  | some vs ↦ elim vs [ [] ↦ [] | v ∷ more ↦ v ]
]

module _ {L : Libs} (options : ServerOptions) where
  unfoldable pub register_handler : Option RegisterRequest → HttpState L → Answer × HttpState L
  unfolding json_body
  register_handler none s =
      (json_body (json_error (codes "could not decode json body")) status_bad_request, s)
  register_handler (some r) s =
      let counted = record s.stats { sessions_added = s.stats.sessions_added + 1 } in
      let (e, storage) = set_id_public_key s.storage r.correlation_id r.secret_key r.public_key in
      let s' : HttpState L = record { storage = storage; stats = counted } in
      elim e [
        | some failure ↦ (json_body (storage_error failure) status_bad_request, s')
        | none ↦ (json_body (json_msg (codes "registration successful")) status_ok, s')
      ]

  -- for _, domain := range domains { _ = storage.RemoveConsumer(domain, id) }
  unfoldable pub remove_from_all : List Text → Text → ℕ → StorageDb L → StorageDb L
  remove_from_all [] id now s = s
  remove_from_all (domain ∷ domains) id now s =
      remove_from_all domains id now (remove_consumer s domain id now)

  -- The session count goes down before anything is checked.
  unfoldable pub deregister_handler :
      Option DeregisterRequest → ℕ → HttpState L → Answer × HttpState L
  unfolding json_body remove_from_all
  deregister_handler none now s = (
    json_body (json_error (codes "could not decode json body")) status_bad_request,
    record s { stats = record s.stats { sessions_removed = s.stats.sessions_removed + 1 } },
  )
  deregister_handler (some r) now s =
      let counted = record s.stats { sessions_removed = s.stats.sessions_removed + 1 } in
      let (e, removed) = remove_id s.storage r.correlation_id r.secret_key in
      let left_domains =
        if options.root_tld
        then remove_from_all options.domains r.correlation_id now removed
        else removed in
      let left_token =
        if is_empty options.token
        then left_domains
        else remove_consumer left_domains options.token r.correlation_id now in
      elim e [
        | some failure ↦ (
          json_body (storage_error failure) status_bad_request,
          record { storage = removed; stats = counted },
        )
        | none ↦ (
          json_body (json_msg (codes "deregistration successful")) status_ok,
          record { storage = left_token; stats = counted },
        )
      ]

  -- for _, domain := range domains { tlddata = append(tlddata, interactions...) }
  unfoldable pub read_all : List Text → Text → ℕ → StorageDb L → List Text × StorageDb L
  read_all [] id now s = ([], s)
  read_all (domain ∷ domains) id now s =
      let (first, s') = get_interactions_with_id_for_consumer s domain id now in
      let (rest, s'') = read_all domains id now s' in (first.0 ++ rest, s'')

  -- The part of pollHandler after the query is read.
  unfoldable pub poll_session : Text → Text → ℕ → HttpState L → Answer × HttpState L
  unfolding json_body read_all
  poll_session id secret now s =
      let (taken, s₁) = get_interactions s.storage id secret in
      let (tlddata, s₂) =
        (if options.root_tld then read_all options.domains id now s₁ else ([], s₁)) in
      let (extra, s₃) =
        (if is_empty options.token
          then (([], none), s₂)
          else get_interactions_with_id_for_consumer s₂ options.token id now) in
      elim taken.2 [
        | some failure ↦
            (json_body (storage_error failure) status_bad_request, record s { storage = s₁ })
        | none ↦ (
          record {
            status = status_ok;
            headers = [];
            body = polled (record {
              items = taken.0;
              extra = extra.0;
              aes_key = taken.1;
              tld_data = tlddata;
            });
          },
          record s { storage = s₃ },
        )
      ]

  unfoldable pub poll_handler : Request → ℕ → HttpState L → Answer × HttpState L
  unfolding poll_session json_body query_get
  poll_handler req now s =
      let id = query_get (codes "id") req.query in
      let secret = query_get (codes "secret") req.query in
      if is_empty id
      then (json_body (json_error (codes "no id specified for poll")) status_bad_request, s)
      else if is_empty secret
      then (json_body (json_error (codes "no secret specified for poll")) status_bad_request, s)
      else poll_session id secret now s
