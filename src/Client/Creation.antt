-- ===== src/Client/Creation.antt =====
-- How a client is made and kept (pkg/client/client.go): New, initializeRSAKeys and SaveSessionTo.
pub mod Resumption
pub mod Idle
use interactsh.Prelude.{
  ℕ, Bool, true, false, not, ◌||◌, ◌&&◌, List, [], ◌∷◌, ◌++◌, Option, none, some, if◌then◌else◌,
  ltb, ◌==◌, take, Text, codes, ◌≡◌, All,
}
use interactsh.Storage.Base64.{encode, decode}
use interactsh.Storage.Base64.Decoding.{IsByte}
use interactsh.Storage.Libraries.{CryptoLib, ParsedKey, rsa_key, other_key}
use interactsh.Server.Http.Sessions.{RegisterRequest}
use interactsh.Client.Lifecycle.{
  Client, idle, open_channel, unmade, Reply, returned, panicked, perform_registration,
}
use interactsh.Client.Registration.{
  Url, UrlLib, Attempt, Registration, RegistrationError, parse_server_urls,
}
use interactsh.Client.Settings.{
  SessionInfo, ClientOptions, CreationError, short_correlation_id, short_nonce, no_transport,
  cleartext, unverified, bad_public_key, no_request, no_keys, not_registered, length_default,
  nonce_default, or_default, check_lengths,
}
use interactsh.Client.Keys.{KeyLib, encode_public_key, decode_public_key}

-- SaveSessionTo: nil keys and URLs panic; an error is returned, or the information is written.
pub data Saved : Type 0 where
  save_panics : Saved
  not_saved : Saved
  saved : SessionInfo → Saved

-- The client before it is registered.
unfoldable pub fresh_client : ClientOptions → Text → Client
unfolding or_default
fresh_client options correlation_id = record {
  state = idle;
  quit_chan = unmade;
  quit_keep_alive_chan = unmade;
  at_head = 0;
  waiting = 0;
  stale = 0;
  quitting = 0;
  keeping_alive = false;
  correlation_id = correlation_id;
  server_host = none;
  nonce_length = or_default options.correlation_id_nonce_length nonce_default;
}

-- The end of New: the channel and the routine of the keep-alive.
unfoldable pub keep_alive : ClientOptions → Client → Client
keep_alive options client = record client {
  quit_keep_alive_chan = open_channel;
  keeping_alive = ltb 0 options.keep_alive_interval;
}

module _ (c : CryptoLib) where
  -- A client with what New and SaveSessionTo read and write of it. A resumed session may be without
  -- a private key or a server URL.
  pub record Made : Type 0 where
    pub client : Client
    pub secret_key : Text
    pub token : Text
    pub priv_key : Option c.PrivateKey
    pub pub_key : c.PublicKey
    pub server_url : Option Url
    pub disable_http_fallback : Bool
    pub correlation_id_length : ℕ

  pub data Creation : Type 0 where
    not_created : CreationError → Creation
    creation_panics : Creation
    created : Made → Creation

  -- What New meets: INTERACTSH_TLS_VERIFY, the HTTP client and the servers, and what it generates.
  pub record Environment : Type 0 where
    pub tls_verify : Bool
    pub has_transport : Bool
    pub verifies : Text → Bool
    pub xid : Text
    pub uuid : Text
    pub generated : Option c.PrivateKey
    pub shuffle : List Text → List Text
    pub answers : List Attempt → Text → Reply

  module _ (keys : KeyLib c) where
    module _ (urls : UrlLib) (has_prefix_i : Text → Text → Bool) where
      -- The part of New under INTERACTSH_TLS_VERIFY.
      unfoldable pub check_tls : Environment → Text → Option CreationError
      check_tls env server_url =
          let url =
            if has_prefix_i server_url (codes "https://")
            then server_url
            else codes "https://" ++ server_url in
          if not env.tls_verify
          then none
          else if not env.has_transport
          then some no_transport
          else if has_prefix_i server_url (codes "http://")
          then some cleartext
          else if env.verifies url
          then none
          else some unverified

      abbrev pub host_of : Option Url → Option Text
      host_of none = none
      host_of (some u) = some (urls.host u)

      -- New with a session to resume; that it is still registered is no error.
      unfoldable pub resume : Environment → ClientOptions → SessionInfo → Creation
      unfolding decode_public_key fresh_client keep_alive perform_registration
      resume env options info =
          let request : RegisterRequest = record {
            public_key = info.public_key;
            secret_key = info.secret_key;
            correlation_id = info.correlation_id;
          } in
          let client = record (fresh_client options info.correlation_id) {
            server_host = host_of (urls.parse info.server_url);
          } in
          elim (decode_public_key c info.public_key) [
            | none ↦ not_created bad_public_key
            | some pub_key ↦ elim (keys.marshal_request request) [
              | none ↦ not_created no_request
              | some payload ↦
                  elim (perform_registration (env.answers [] (info.server_url ++ codes "/register"))
                    client) [
                      | panicked ↦ creation_panics
                      | returned e registered ↦ created (record {
                        client = keep_alive options registered;
                        secret_key = info.secret_key;
                        token = info.token;
                        priv_key = keys.parse_pkcs1 info.private_key;
                        pub_key = pub_key;
                        server_url = urls.parse info.server_url;
                        disable_http_fallback = options.disable_http_fallback;
                        correlation_id_length =
                            or_default options.correlation_id_length length_default;
                      })
                    ]
            ]
          ]

      -- initializeRSAKeys: the key and the payload.
      unfoldable pub initialize_rsa_keys : Environment → Text → Option (c.PrivateKey × Text)
      unfolding encode_public_key
      initialize_rsa_keys env correlation_id = elim env.generated [
        | none ↦ none
        | some priv ↦ elim (encode_public_key c keys (c.public priv)) [
          | none ↦ none
          | some pub_key ↦
              elim (keys.marshal_request (record {
                public_key = pub_key;
                secret_key = env.uuid;
                correlation_id = correlation_id;
              })) [ none ↦ none | some payload ↦ some (priv, payload) ]
        ]
      ]

      -- New without a session.
      unfoldable pub initiate : Environment → ClientOptions → Creation
      unfolding initialize_rsa_keys fresh_client keep_alive parse_server_urls
      initiate env options =
          let length_of_id = or_default options.correlation_id_length length_default in
          let id = take length_of_id env.xid in
          let looking : Registration = record {
            client = fresh_client options id;
            server_url = none;
            attempts = [];
            errors = [];
            panics = false;
          } in
          let (e, r) =
            parse_server_urls urls env.answers env.shuffle options.disable_http_fallback
              options.server_url looking in
          elim (initialize_rsa_keys env id) [
            | none ↦ not_created no_keys
            | some (priv, payload) ↦ if r.panics then creation_panics else elim e [
              | some error ↦ not_created (not_registered error)
              | none ↦ created (record {
                client =
                    keep_alive options (record r.client { server_host = host_of r.server_url });
                secret_key = env.uuid;
                token = options.token;
                priv_key = some priv;
                pub_key = c.public priv;
                server_url = r.server_url;
                disable_http_fallback = options.disable_http_fallback;
                correlation_id_length = length_of_id;
              })
            ]
          ]

      -- New
      unfoldable pub new : Environment → ClientOptions → Creation
      unfolding check_lengths check_tls resume initiate
      new env options = elim (check_lengths options) [
        | some e ↦ not_created e
        | none ↦ elim (check_tls env options.server_url) [
          | some e ↦ not_created e
          | none ↦ elim options.session_info [
            | some info ↦ resume env options info
            | none ↦ initiate env options
          ]
        ]
      ]

      -- SaveSessionTo, up to the YAML of the information.
      unfoldable pub save_session_to : Made → Saved
      unfolding encode_public_key
      save_session_to m = elim m.priv_key [
        | none ↦ save_panics
        | some priv ↦ elim (encode_public_key c keys m.pub_key) [
          | none ↦ not_saved
          | some pub_key ↦ elim m.server_url [
            | none ↦ save_panics
            | some u ↦ saved (record {
              server_url = urls.text u;
              token = m.token;
              private_key = keys.marshal_pkcs1 priv;
              correlation_id = m.client.correlation_id;
              secret_key = m.secret_key;
              public_key = pub_key;
            })
          ]
        ]
      ]
