-- ===== src/Client/Creation/Resumption.antt =====
-- The keys and the sessions that go from a client to the server, and to a file and back.
use interactsh.Prelude.{
  ◌≡◌, ◌≢◌, refl, sym, ap, ◌∙◌, inl, inr, [], ◌++◌, Bool, none, some, arith, subst, Text, codes,
  Option-cases, Bool-cases, Option, text_eq,
}
use interactsh.Storage.Base64.{encode, decode}
use interactsh.Storage.Base64.Decoding.{decode-encode}
use interactsh.Storage.Libraries.{CryptoLib, rsa_key, other_key}
use interactsh.Storage.Cipher.{parse_b64_rsa_public_key_from_pem}
use interactsh.Server.Http.Sessions.{RegisterRequest}
use interactsh.Client.Lifecycle.{
  Client, ClientError, bad_response, idle, Reply, no_answer, status_unauthorized, status_other,
  answered, answered_other, returned, perform_registration,
}
use interactsh.Client.Registration.{Url, UrlLib}
use interactsh.Client.Settings.{
  SessionInfo, ClientOptions, or_default, check_lengths, length_default,
}
use interactsh.Client.Keys.{KeyLib, decode_public_key, encode_public_key}
use interactsh.Client.Creation.{
  Made, Environment, created, saved, check_tls, resume, keep_alive, fresh_client, host_of, new,
  save_session_to,
}

module _ (c : CryptoLib) where
  -- The client's decodePublicKey and the server's ParseB64RSAPublicKeyFromPEM read the same key from
  -- every text, and refuse the same texts.
  pub decode_public_key-agrees :
      (t : Text) → decode_public_key c t ≡ parse_b64_rsa_public_key_from_pem c t
  unfolding decode_public_key parse_b64_rsa_public_key_from_pem
  decode_public_key-agrees t = elim (Option-cases (decode t)) [
    | inl e ↦ ground (arith, e)
    | inr (decoded, e) ↦ elim (Option-cases (c.pem_decode decoded)) [
      | inl f ↦ ground (arith, e, f)
      | inr (block, f) ↦ elim (Option-cases (c.parse_pkix_public_key block)) [
        | inl g ↦ ground (arith, e, f, g)
        | inr (rsa_key k, g) ↦ ground (arith, e, f, g)
        | inr (other_key, g) ↦ ground (arith, e, f, g)
      ]
    ]
  ]

  module _ (keys : KeyLib c) where
    -- What encodePublicKey writes, decodePublicKey reads back.
    pub decode_public_key-encode_public_key :
        (k : c.PublicKey) (t : Text)
        → encode_public_key c keys k ≡ some t
        → decode_public_key c t ≡ some k
    unfolding encode_public_key decode_public_key
    decode_public_key-encode_public_key k t e = elim (Option-cases (keys.marshal_pkix k)) [
      | inl f ↦ absurd (ground (arith, e, f))
      | inr (der, f) ↦
          let written : encode (keys.pem_encode der) ≡ t = ground (arith, e, f) in
          let read : decode t ≡ some (keys.pem_encode der) =
            ap decode (sym written)
            ∙ decode-encode (keys.pem_encode der)
                (keys.pem_encode-IsByte der (keys.marshal_pkix-IsByte k der f)) in
          ground (arith, read, keys.pem_decode-pem_encode der, keys.parse_pkix-marshal_pkix k der f)
    ]

    -- The server reads the key that the client sends with its registration.
    pub parse_b64_rsa_public_key_from_pem-encode_public_key :
        (k : c.PublicKey) (t : Text)
        → encode_public_key c keys k ≡ some t
        → parse_b64_rsa_public_key_from_pem c t ≡ some k
    parse_b64_rsa_public_key_from_pem-encode_public_key k t e =
        sym (decode_public_key-agrees t) ∙ decode_public_key-encode_public_key k t e

  module _ (keys : KeyLib c) (urls : UrlLib) (has_prefix_i : Text → Text → Bool) where
    -- A resumed client is the client that was saved, and its life begins anew.
    pub record IsResumed (m m' : Made c) : Type 0 where
      pub same_id : m'.client.correlation_id ≡ m.client.correlation_id
      pub same_secret : m'.secret_key ≡ m.secret_key
      pub same_token : m'.token ≡ m.token
      pub same_priv_key : m'.priv_key ≡ m.priv_key
      pub same_pub_key : m'.pub_key ≡ m.pub_key
      pub same_server : m'.server_url ≡ m.server_url
      pub begins : m'.client.state ≡ idle

    perform_registration-keeps :
        (reply : Reply) (client : Client)
        → client.state ≡ idle
        → reply ≢ answered_other
        → (e : Option ClientError) × (after : Client) × (perform_registration reply client
            ≡ returned e after)
          × (after.state ≡ idle)
          × (after.correlation_id ≡ client.correlation_id)
    unfolding perform_registration
    perform_registration-keeps no_answer client now text = (_, client, refl, now, refl)
    perform_registration-keeps status_unauthorized client now text = (_, client, refl, now, refl)
    perform_registration-keeps status_other client now text = (_, client, refl, now, refl)
    perform_registration-keeps answered_other client now text = absurd (text refl)
    perform_registration-keeps (answered message) client now text =
        elim (Bool-cases (text_eq message (codes "registration successful"))) [
          | inl good ↦ (none, record client { state = idle }, ground (arith, good), refl, refl)
          | inr bad ↦ (some bad_response, client, ground (arith, bad), now, refl)
        ]

    -- What a saved session holds of a client.
    record Holds (m : Made c) (k : c.PrivateKey) (u : Url) (info : SessionInfo) : Type 0 where
      id : info.correlation_id ≡ m.client.correlation_id
      secret : info.secret_key ≡ m.secret_key
      token : info.token ≡ m.token
      private : keys.parse_pkcs1 info.private_key ≡ m.priv_key
      public : decode_public_key c info.public_key ≡ some m.pub_key
      server : info.server_url ≡ urls.text u
      served : m.server_url ≡ some u

    save_session_to-Holds :
        (m : Made c) (info : SessionInfo)
        → save_session_to c keys urls has_prefix_i m ≡ saved info
        → (k : c.PrivateKey) × (u : Url) × Holds m k u info
    unfolding save_session_to
    save_session_to-Holds m info e = elim (Option-cases m.priv_key) [
      | inl f ↦ absurd (ground (arith, e, f))
      | inr (k, f) ↦ elim (Option-cases (encode_public_key c keys m.pub_key)) [
        | inl g ↦ absurd (ground (arith, e, f, g))
        | inr (t, g) ↦ elim (Option-cases m.server_url) [
          | inl h ↦ absurd (ground (arith, e, f, g, h))
          | inr (u, h) ↦
              let written : SessionInfo = record {
                server_url = urls.text u;
                token = m.token;
                private_key = keys.marshal_pkcs1 k;
                correlation_id = m.client.correlation_id;
                secret_key = m.secret_key;
                public_key = t;
              } in
              let same : written ≡ info = ground (arith, e, f, g, h) in
              (
                k,
                u,
                subst (Holds m k u) same (record {
                  id = refl;
                  secret = refl;
                  token = refl;
                  private = keys.parse_pkcs1-marshal_pkcs1 k ∙ sym f;
                  public = decode_public_key-encode_public_key keys m.pub_key t g;
                  server = refl;
                  served = h;
                }),
              )
        ]
      ]
    ]

    resume-IsResumed :
        (env : Environment c) (options : ClientOptions) (m : Made c) (info : SessionInfo)
        (k : c.PrivateKey) (u : Url)
        → Holds m k u info
        → urls.parse (urls.text u) ≡ some u
        → ((r : RegisterRequest) → (p : Text) × (keys.marshal_request r ≡ some p))
        → env.answers [] (info.server_url ++ codes "/register") ≢ answered_other
        → (m' : Made c) × (resume c keys urls has_prefix_i env options info ≡ created m')
          × IsResumed m m'
    unfolding resume keep_alive fresh_client
    resume-IsResumed env options m info k u h parses marshals text =
        let (p, marshalled) = marshals (record {
          public_key = info.public_key;
          secret_key = info.secret_key;
          correlation_id = info.correlation_id;
        }) in
        let client = record (fresh_client options info.correlation_id) {
          server_host = host_of c keys urls has_prefix_i (urls.parse info.server_url);
        } in
        let reply = env.answers [] (info.server_url ++ codes "/register") in
        let (error, registered, answers, now, same) =
          perform_registration-keeps reply client refl text in
        let m' : Made c = record {
          client = keep_alive options registered;
          secret_key = info.secret_key;
          token = info.token;
          priv_key = keys.parse_pkcs1 info.private_key;
          pub_key = m.pub_key;
          server_url = urls.parse info.server_url;
          disable_http_fallback = options.disable_http_fallback;
          correlation_id_length = or_default options.correlation_id_length length_default;
        } in
        (
          m',
          ground (arith, h.public, marshalled, answers),
          record {
            same_id = same ∙ h.id;
            same_secret = h.secret;
            same_token = h.token;
            same_priv_key = h.private;
            same_pub_key = refl;
            same_server = ap urls.parse h.server ∙ parses ∙ sym h.served;
            begins = now;
          },
        )

    -- A client that SaveSessionTo saved resumes: New with that session, with lengths that are long
    -- enough and a server that passes the TLS check, makes a client with the same correlation id,
    -- secret, token, keys and server, whatever that server answers to its registration but a message
    -- that is no text. The URL of the server parses back from its text, and requests are encoded.
    pub new-save_session_to :
        (env : Environment c) (options : ClientOptions) (m : Made c) (info : SessionInfo)
        → ((u : Url) → m.server_url ≡ some u → urls.parse (urls.text u) ≡ some u)
        → ((r : RegisterRequest) → (p : Text) × (keys.marshal_request r ≡ some p))
        → env.answers [] (info.server_url ++ codes "/register") ≢ answered_other
        → save_session_to c keys urls has_prefix_i m ≡ saved info
        → options.session_info ≡ some info
        → check_lengths options ≡ none
        → check_tls c keys urls has_prefix_i env options.server_url ≡ none
        → (m' : Made c) × (new c keys urls has_prefix_i env options ≡ created m') × IsResumed m m'
    unfolding new
    new-save_session_to env options m info parses marshals text kept given long_enough secure =
        let (k, u, h) = save_session_to-Holds m info kept in
        let (m', done, same) =
          resume-IsResumed env options m info k u h (parses u h.served) marshals text in
        (m', ground (arith, long_enough, secure, given) ∙ done, same)
