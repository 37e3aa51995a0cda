-- ===== src/Server/Http/Secrets.antt =====
-- The session endpoints of pkg/server/http_server.go, on the ids that have no secret: those that the
-- server itself sets (SetID), for the token and for each domain.
use interactsh.Prelude.{
  ℕ, ◌≡◌, ◌≢◌, refl, ap, ◌∙◌, List, Option-cases, inl, inr, ◌⊎◌, true, false, [], ◌∷◌, none, some,
  arith, Bool-cases, Text, codes, is_empty, text_eq_refl, text_eq_iff,
}
use interactsh.Storage.Libraries.{Libs}
use interactsh.Storage.Types.{StorageDb, invalid_secret}
use interactsh.Storage.Isolation.Held.{Frame-leaves}
use interactsh.Storage.Sessions.{remove_id}
use interactsh.Storage.Polling.{get_interactions, remove_consumer}
use interactsh.Server.Options.{ServerOptions}
use interactsh.Server.Http.Types.{
  Request, storage_error, HttpState, json_body, status_ok, status_bad_request, Handler, check_token,
  auth_middleware, status_unauthorized,
}
use interactsh.Server.Http.Sessions.{
  query_get, poll_handler, poll_session, deregister_handler, remove_from_all,
}

module _ {L : Libs} (options : ServerOptions) where
  poll_session-refused :
      (id secret : Text) (now p : ℕ) (s : HttpState L)
      → L.cache.find s.storage.cache id ≡ some p
      → L.equal_fold (s.storage.heap p).secret_key secret ≡ false
      → (poll_session options id secret now s).0
        ≡ json_body (storage_error invalid_secret) status_bad_request
  unfolding poll_session get_interactions
  poll_session-refused id secret now p s held wrong = ground (arith, held, wrong)

  -- A poll of an id that the server set itself, and so has no secret, is answered with 400,
  -- whatever the rest of the request.
  pub poll_handler-SetID :
      (req : Request) (now p : ℕ) (s : HttpState L)
      → L.cache.find s.storage.cache (query_get (codes "id") req.query) ≡ some p
      → (s.storage.heap p).secret_key ≡ []
      → (poll_handler options req now s).0.status ≡ status_bad_request
  unfolding poll_handler json_body
  poll_handler-SetID req now p s held bare =
      let id = query_get (codes "id") req.query in
      let secret = query_get (codes "secret") req.query in
      ground (arith, L.equal_fold_empty secret, bare, poll_session-refused id secret now p s held)

  -- RemoveConsumer leaves the ids of the cache.
  remove_consumer-find :
      (s : StorageDb L) (d c j : Text) (now : ℕ)
      → L.cache.find (remove_consumer s d c now).cache j ≡ L.cache.find s.cache j
  remove_consumer-find s d c j now = elim (Option-cases (L.cache.find s.cache d)) [
    | inl e ↦ unfold remove_consumer in (rw e (L.cache.find-touch s.cache d j))
    | inr (p, e) ↦
        ap (λ k. L.cache.find k j) (Frame-leaves s p d e c now).cache
        ∙ L.cache.find-touch s.cache d j
  ]

  remove_from_all-find :
      (s : StorageDb L) (ds : List Text) (c j : Text) (now : ℕ)
      → L.cache.find (remove_from_all options ds c now s).cache j ≡ L.cache.find s.cache j
  unfolding remove_from_all
  remove_from_all-find s [] c j now = refl
  remove_from_all-find s (d ∷ ds) c j now =
      remove_from_all-find (remove_consumer s d c now) ds c j now ∙ remove_consumer-find s d c j now

  remove_id-bare :
      (s : StorageDb L) (id : Text) (p : ℕ)
      → L.cache.find s.cache id ≡ some p
      → (s.heap p).secret_key ≡ []
      → L.db.delete_error s.db id ≡ false
      → ((remove_id s id []).0 ≡ none) × (L.cache.find (remove_id s id []).1.cache id ≡ none)
  unfolding remove_id
  remove_id-bare s id p held bare fine = ground (
    arith,
    held,
    bare,
    fine,
    text_eq_refl id,
    L.equal_fold_refl [],
    L.cache.find-invalidate (L.cache.touch s.cache id) id id,
  )

  -- A deregistration of such an id with no secret is accepted, where the database deletes without
  -- an error, and the id is then gone from the cache: also with root-tld or a token.
  pub deregister_handler-SetID :
      (id : Text) (now p : ℕ) (s : HttpState L)
      → L.cache.find s.storage.cache id ≡ some p
      → (s.storage.heap p).secret_key ≡ []
      → L.db.delete_error s.storage.db id ≡ false
      → let r =
          deregister_handler options
            (some (record { correlation_id = id; secret_key = [] }))
            now
            s in
        (r.0.status ≡ status_ok) × (L.cache.find r.1.storage.cache id ≡ none)
  unfolding deregister_handler json_body remove_id
  deregister_handler-SetID id now p s held bare fine =
      let (accepted, gone) = remove_id-bare s.storage id p held bare fine in
      let removed = (remove_id s.storage id []).1 in
      let left = remove_from_all options options.domains id now removed in
      let left_gone = remove_from_all-find removed options.domains id id now in
      let from_removed = remove_consumer-find removed options.token id id now in
      let from_left = remove_consumer-find left options.token id id now in
      elim (Bool-cases options.root_tld) [
        | inl root ↦ elim (Bool-cases (is_empty options.token)) [
          | inl none_given ↦ rw (accepted, root, none_given) (refl, left_gone ∙ gone)
          | inr given ↦ rw (accepted, root, given) (refl, from_left ∙ left_gone ∙ gone)
        ]
        | inr plain ↦ elim (Bool-cases (is_empty options.token)) [
          | inl none_given ↦ rw (accepted, plain, none_given) (refl, gone)
          | inr given ↦ rw (accepted, plain, given) (refl, from_removed ∙ gone)
        ]
      ]

  -- With authentication on, a request whose token is not that of the server is answered with 401
  -- whichever handler is behind, and changes nothing; with the token, or with authentication off,
  -- the handler's answer is given.
  pub auth_middleware-guards :
      (next : Handler L) (req : Request) (s : HttpState L)
      → ((options.auth ≡ true)
          × (options.token ≢ req.header (codes "Authorization"))
          × ((auth_middleware options next req s).0.status ≡ status_unauthorized)
          × ((auth_middleware options next req s).1 ≡ s))
        ⊎ (auth_middleware options next req s ≡ next req s)
  unfolding auth_middleware check_token
  auth_middleware-guards next req s = elim (Bool-cases (check_token options req)) [
    | inl e ↦ inr (ground (arith, e))
    | inr e ↦
        inl (ground (arith, e, text_eq_iff options.token (req.header (codes "Authorization"))))
  ]
