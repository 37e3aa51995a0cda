-- ===== src/EndToEnd/Polls.antt =====
-- The delivery of a session's interactions over HTTP (pkg/server/http_server.go): from the answer to
-- its registration to what the client makes of the answer to its poll.
use interactsh.Prelude.{
  drop, ap₂, if◌then◌else◌, ◌⊎◌, ◌≡◌, ◌≢◌, refl, ap, ◌∙◌, inl, inr, true, false, List, [], ◌∷◌,
  ◌++◌, Option, none, some, arith, map, subst, Bool-cases, Option-cases, is_empty, Text, codes, ℕ,
}
use interactsh.Storage.Libraries.{Libs, DbReply, found, not_found, failed}
use interactsh.Storage.Types.{StorageDb, use_disk}
use interactsh.Storage.Cipher.{aes_encrypt, valid_key}
use interactsh.Storage.Sessions.{set_id_public_key}
use interactsh.Storage.Polling.{
  encrypt_items, take_interactions, get_interactions, get_interactions_with_id_for_consumer,
}
use interactsh.Storage.Isolation.{IsWf}
use interactsh.Server.Options.{ServerOptions, Interaction}
use interactsh.Server.Http.Types.{Request, HttpState, PollResponse, polled, status_ok, json_body}
use interactsh.Server.Http.Sessions.{
  RegisterRequest, register_handler, query_get, poll_session, poll_handler, read_all,
}
use interactsh.Client.Keys.{KeyLib, encode_public_key}
use interactsh.Client.Messages
use interactsh.Client.Messages.{
  ClientLib, decrypt_message, trim_right, receive_sealed, receive_extra, receive_tld, answered,
}
use interactsh.EndToEnd.Sessions.{
  IsSession, opened, aes_encrypt-succeeds, value_at-some, get_interactions-opens,
}
use interactsh.EndToEnd.Delivery.{Waits, Waits-registered}

-- An interaction as the server encodes it, which the client decodes to the same.
pub record Sent (lib : ClientLib) : Type 0 where
  pub interaction : Interaction
  pub text : Text
  pub decodes : lib.unmarshal (trim_right text) ≡ some interaction

abbrev first_of : List (Option Text) → Option Text
first_of [] = none
first_of (x ∷ xs) = x

answered-cases : (r : DbReply) → r ≢ failed → ((raw : Text) × (r ≡ found raw)) ⊎ (r ≡ not_found)
answered-cases (found raw) h = inl (raw, refl)
answered-cases not_found h = inr refl
answered-cases failed h = absurd (h refl)

module _ (L : Libs) (k : L.crypto.PrivateKey) (lib : ClientLib) where
  -- The client's loop over entries that open to what was sent.
  receive_sealed-opened :
      (key : Text) (entries : List Text) (sents : List (Sent lib))
      → opened L k key entries ≡ map some (map (λ s. s.text) sents)
      → receive_sealed L.crypto lib k key entries ≡ map (λ s. s.interaction) sents
  unfolding receive_sealed
  receive_sealed-opened key [] [] h = refl
  receive_sealed-opened key [] (s ∷ sents) h = absurd cc
  receive_sealed-opened key (e ∷ entries) [] h = absurd cc
  receive_sealed-opened key (e ∷ entries) (s ∷ sents) h =
      let head : decrypt_message L.crypto k key e ≡ some s.text = ap first_of h in
      let rest = receive_sealed-opened key entries sents (ap (drop 1) h) in
      ground (arith, head, s.decodes, rest)

  encrypt_items-fine :
      (key : Text) (items : List Text) (source : ℕ → ℕ)
      → valid_key key ≡ true
      → (encrypt_items L key items source).1 ≡ true
  unfolding encrypt_items
  encrypt_items-fine key [] source valid = refl
  encrypt_items-fine key (item ∷ items) source valid =
      let (sealed, done) = aes_encrypt-succeeds L k key item source valid in
      let rest = encrypt_items-fine key items (aes_encrypt L.crypto key item source).1 valid in
      ground (arith, done, rest)

  -- A poll of a session has no error where the database answers.
  get_interactions-fine :
      (s : StorageDb L) (id secret : Text) (items : List Text)
      → IsSession L k s id secret items
      → L.db.get s.db id ≢ failed
      → (get_interactions s id secret).0.2 ≡ none
  unfolding get_interactions take_interactions
  get_interactions-fine s id secret items h answers =
      let (p, held, same) = value_at-some L k s id h.value h.held in
      let allowed : L.equal_fold (s.heap p).secret_key secret ≡ true =
        ground (arith, same, h.named, L.equal_fold_refl secret) in
      elim (Bool-cases (use_disk s.options)) [
        | inl disk ↦ elim (answered-cases (L.db.get s.db id) answers) [
          | inl (raw, e) ↦ ground (arith, held, allowed, disk, e)
          | inr e ↦ ground (arith, held, allowed, disk, e)
        ]
        | inr memory ↦
            let valid : valid_key (s.heap p).aes_key ≡ true = ground (arith, same, h.keys.valid) in
            ground (
              arith,
              held,
              allowed,
              memory,
              encrypt_items-fine (s.heap p).aes_key (s.heap p).items s.entropy valid,
            )
      ]

  -- The answer to a poll of a session.
  poll_session-answers :
      (options : ServerOptions) (id secret : Text) (now : ℕ) (t : HttpState L)
      → (get_interactions t.storage id secret).0.2 ≡ none
      → (r : PollResponse) × ((poll_session options id secret now t).0
          ≡ record { status = status_ok; headers = []; body = polled r })
        × (r.items ≡ (get_interactions t.storage id secret).0.0)
        × (r.aes_key ≡ (get_interactions t.storage id secret).0.1)
  unfolding poll_session
  poll_session-answers options id secret now t fine =
      let (taken, s₁) = get_interactions t.storage id secret in
      let (tlddata, s₂) =
        (if options.root_tld then read_all options options.domains id now s₁ else ([], s₁)) in
      let (extra, s₃) =
        (if is_empty options.token
          then (([], none), s₂)
          else get_interactions_with_id_for_consumer s₂ options.token id now) in
      let r : PollResponse = record {
        items = taken.0;
        extra = extra.0;
        aes_key = taken.1;
        tld_data = tlddata;
      } in
      (r, ground (arith, fine), refl, refl)

  register_handler-registers :
      (options : ServerOptions) (request : RegisterRequest) (s : HttpState L)
      → (register_handler options (some request) s).0.status ≡ status_ok
      → let called =
          set_id_public_key s.storage request.correlation_id request.secret_key
            request.public_key in
        (called.0 ≡ none) × ((register_handler options (some request) s).1.storage ≡ called.1)
  unfolding register_handler json_body
  register_handler-registers options request s ok =
      let called =
        set_id_public_key s.storage request.correlation_id request.secret_key request.public_key in
      elim (Option-cases called.0) [
        | inl e ↦ (e, ground (arith, e))
        | inr (failure, e) ↦ absurd (ground (arith, e, ok))
      ]

  -- A client that registers over HTTP with the text of the public key of `k`, and is answered with
  -- 200, then polls with its id and secret, and is answered with 200 too: and what it makes of that
  -- answer, with `k`, begins with the interactions that the server encoded and stored for it in
  -- between, in order and each once. They are encoded as texts of bytes that are not empty and
  -- decode to the same; the storage is in memory or on disk, its cached pointers were in use
  -- and apart, its database answers the poll; and the server may do in between any step about
  -- other ids.
  pub poll_handler-delivers :
      (keys : KeyLib L.crypto) (options : ServerOptions) (s t : HttpState L)
      (request : RegisterRequest) (poll : Request) (now : ℕ) (sents : List (Sent lib))
      → IsWf s.storage
      → encode_public_key L.crypto keys (L.crypto.public k) ≡ some request.public_key
      → (register_handler options (some request) s).0.status ≡ status_ok
      → Waits request.correlation_id
          (register_handler options (some request) s).1.storage
          (map (λ s. s.text) sents)
          t.storage
      → query_get (codes "id") poll.query ≡ request.correlation_id
      → query_get (codes "secret") poll.query ≡ request.secret_key
      → is_empty request.correlation_id ≡ false
      → is_empty request.secret_key ≡ false
      → L.db.get t.storage.db request.correlation_id ≢ failed
      → (r : PollResponse) × ((poll_handler options poll now t).0
          ≡ record { status = status_ok; headers = []; body = polled r })
        × (Messages.get_interactions L.crypto lib k (answered r) ≡ (
          none,
          map (λ s. s.interaction) sents
              ++ (receive_extra L.crypto lib k r.extra ++ receive_tld L.crypto lib k r.tld_data),
        ))
  unfolding poll_handler Messages.get_interactions
  poll_handler-delivers keys options s t request poll now sents w written ok waits same_id
        same_secret some_id some_secret answers =
      let (registered, storage) = register_handler-registers options request s ok in
      let session =
        Waits-registered L k keys s.storage t.storage request.correlation_id request.secret_key
          request.public_key (map (λ s. s.text) sents) w written registered
          (subst (λ u. Waits request.correlation_id u (map (λ s. s.text) sents) t.storage) storage
            waits) in
      let fine =
        get_interactions-fine t.storage request.correlation_id request.secret_key
          (map (λ s. s.text) sents) session answers in
      let (r, answer, same_items, same_key) =
        poll_session-answers options request.correlation_id request.secret_key now t fine in
      let opens =
        get_interactions-opens L k t.storage request.correlation_id request.secret_key
          (map (λ s. s.text) sents) session in
      let received =
        receive_sealed-opened r.aes_key r.items sents
          (ap₂ (opened L k) same_key same_items ∙ opens) in
      (
        r,
        ground (arith, same_id, same_secret, some_id, some_secret) ∙ answer,
        ap
            (λ is. (
              none,
              is ++ (receive_extra L.crypto lib k r.extra ++ receive_tld L.crypto lib k r.tld_data),
            ))
            received,
      )
