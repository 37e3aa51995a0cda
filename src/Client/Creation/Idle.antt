-- ===== src/Client/Creation/Idle.antt =====
-- The state of the client that New makes (pkg/client/client.go).
use interactsh.Prelude.{
  ℕ, zero, suc, ◌≡◌, refl, ◌∙◌, ap, inl, inr, Bool, false, List, [], ◌∷◌, ◌++◌, Option, none, some,
  arith, subst, take, Text, Bool-cases, Option-cases, is_empty, codes,
}
use interactsh.Storage.Lines.{split}
use interactsh.Storage.Libraries.{CryptoLib}
use interactsh.Client.Lifecycle.{
  Client, Reply, ClientError, returned, Outcome-cases, idle, open_channel, perform_registration,
}
use interactsh.Client.Histories.Steps.{perform_registration-state}
use interactsh.Client.Registration.{
  UrlLib, Url, Attempt, Registration, with_scheme, attempt, make_req, register_func, visit,
  parse_server_urls, add_error,
}
use interactsh.Client.Settings.{
  ClientOptions, SessionInfo, check_lengths, or_default, length_default,
}
use interactsh.Client.Keys.{KeyLib, decode_public_key}
use interactsh.Client.Creation.{
  Environment, Made, created, check_tls, fresh_client, keep_alive, resume, initiate, new,
  initialize_rsa_keys, host_of,
}

-- A client that is idle, whose keep-alive channel is open.
pub record IsReady (c : Client) : Type 0 where
  pub idle_state : c.state ≡ idle
  pub is_open : c.quit_keep_alive_chan ≡ open_channel

perform_registration-idle :
    (reply : Reply) (c d : Client) (e : Option ClientError)
    → c.state ≡ idle
    → perform_registration reply c ≡ returned e d
    → d.state ≡ idle
perform_registration-idle reply c d e before done =
    elim (perform_registration-state reply c d e done) [
      | inl now ↦ now
      | inr same ↦ ap (λ (c : Client). c.state) same ∙ before
    ]

module _ (lib : UrlLib) (answers : List Attempt → Text → Reply) where
  attempt-idle :
      (u : Url) (r : Registration)
      → r.client.state ≡ idle
      → (attempt lib answers u r).1.client.state ≡ idle
  unfolding attempt
  attempt-idle u r before =
      let reply = answers r.attempts (lib.text u ++ codes "/register") in
      elim (Bool-cases r.panics) [
        | inl dead ↦ ground (arith, dead, before)
        | inr alive ↦ elim (Outcome-cases (perform_registration reply r.client)) [
          | inl stop ↦ ground (arith, alive, stop, before)
          | inr ((e, d), done) ↦
              let after = perform_registration-idle reply r.client d e before done in
              ground (arith, alive, done, after)
        ]
      ]

  make_req-idle :
      (fuel : ℕ) (fallback : Bool) (u : Url) (r : Registration) (o : Option ClientError)
      (r' : Registration)
      → r.client.state ≡ idle
      → make_req lib answers fuel fallback u r ≡ some (o, r')
      → r'.client.state ≡ idle
  unfolding make_req
  make_req-idle zero fallback u r o r' before e = ground (arith, e)
  make_req-idle (suc fuel) fallback u r o r' before e =
      let made = attempt lib answers u r in
      let again =
        make_req-idle fuel fallback (record u { scheme = codes "http" }) made.1 o r'
          (attempt-idle u r before) in
      let after = attempt-idle u r before in ground (arith, e, again, after)

  register_func-idle :
      (fallback : Bool) (value : Text) (r : Registration)
      → r.client.state ≡ idle
      → (register_func lib answers fallback value r).1.client.state ≡ idle
  unfolding register_func
  register_func-idle fallback value r before = elim (Option-cases (lib.parse (with_scheme value))) [
    | inl e ↦ ground (arith, e, before)
    | inr (u, e) ↦ elim (Option-cases (make_req lib answers 2 fallback u r)) [
      | inl stuck ↦ ground (arith, e, stuck, before)
      | inr ((o, r'), done) ↦
          let after = make_req-idle 2 fallback u r o r' before done in
          ground (arith, e, done, after)
    ]
  ]

  visit-idle :
      (fallback : Bool) (values : List Text) (r : Registration)
      → r.client.state ≡ idle
      → (visit lib answers fallback values r).client.state ≡ idle
  unfolding visit
  visit-idle fallback [] r before = before
  visit-idle fallback (value ∷ values) r before =
      let made = register_func lib answers fallback value r in
      let left = record made.1 { errors = add_error made.0 made.1.errors } in
      let after = visit-idle fallback values left (register_func-idle fallback value r before) in
      elim (Option-cases r.server_url) [
        | inr (u, e) ↦ ground (arith, e, before)
        | inl e ↦ ground (arith, e, after)
      ]

  parse_server_urls-idle :
      (shuffle : List Text → List Text) (fallback : Bool) (server_url : Text) (r : Registration)
      → r.client.state ≡ idle
      → (parse_server_urls lib answers shuffle fallback server_url r).1.client.state ≡ idle
  unfolding parse_server_urls
  parse_server_urls-idle shuffle fallback server_url r before =
      let visited = visit lib answers fallback (shuffle (split 44 server_url)) r in
      let after = visit-idle fallback (shuffle (split 44 server_url)) r before in
      elim (Bool-cases (is_empty server_url)) [
        | inl missing ↦ ground (arith, missing, before)
        | inr given ↦ elim (Option-cases visited.server_url) [
          | inl e ↦ ground (arith, given, e, after)
          | inr (u, e) ↦ ground (arith, given, e, after)
        ]
      ]

module _ (c : CryptoLib) (keys : KeyLib c) (urls : UrlLib) (has_prefix_i : Text → Text → Bool)
    (env : Environment c) where
  resume-IsReady :
      (options : ClientOptions) (info : SessionInfo) (m : Made c)
      → resume c keys urls has_prefix_i env options info ≡ created m
      → IsReady m.client
  unfolding resume keep_alive fresh_client
  resume-IsReady options info m e =
      let begun = record (fresh_client options info.correlation_id) {
        server_host = host_of c keys urls has_prefix_i (urls.parse info.server_url);
      } in
      let reply = env.answers [] (info.server_url ++ codes "/register") in
      elim (Option-cases (decode_public_key c info.public_key)) [
        | inl f ↦ absurd (ground (arith, e, f))
        | inr (pub_key, f) ↦
            elim (Option-cases (
              keys.marshal_request (record {
                public_key = info.public_key;
                secret_key = info.secret_key;
                correlation_id = info.correlation_id;
              }))) [
                | inl g ↦ absurd (ground (arith, e, f, g))
                | inr (payload, g) ↦ elim (Outcome-cases (perform_registration reply begun)) [
                  | inl stop ↦ absurd (ground (arith, e, f, g, stop))
                  | inr ((error, registered), done) ↦
                      let same : keep_alive options registered ≡ m.client =
                        ground (arith, e, f, g, done) in
                      subst IsReady same (record {
                        idle_state =
                            perform_registration-idle reply begun registered error refl done;
                        is_open = refl;
                      })
                ]
              ]
      ]

  initiate-IsReady :
      (options : ClientOptions) (m : Made c)
      → initiate c keys urls has_prefix_i env options ≡ created m
      → IsReady m.client
  unfolding initiate keep_alive fresh_client
  initiate-IsReady options m e =
      let id = take (or_default options.correlation_id_length length_default) env.xid in
      let looking : Registration = record {
        client = fresh_client options id;
        server_url = none;
        attempts = [];
        errors = [];
        panics = false;
      } in
      let found =
        parse_server_urls urls env.answers env.shuffle options.disable_http_fallback
          options.server_url looking in
      elim (Option-cases (initialize_rsa_keys c keys urls has_prefix_i env id)) [
        | inl f ↦ absurd (ground (arith, e, f))
        | inr ((priv, payload), f) ↦ elim (Bool-cases found.1.panics) [
          | inl dead ↦ absurd (ground (arith, e, f, dead))
          | inr alive ↦ elim (Option-cases found.0) [
            | inr (error, g) ↦ absurd (ground (arith, e, f, alive, g))
            | inl g ↦
                let same : keep_alive options (record found.1.client {
                  server_host = host_of c keys urls has_prefix_i found.1.server_url;
                })
                    ≡ m.client =
                  ground (arith, e, f, g) in
                subst IsReady same (record {
                  idle_state =
                      parse_server_urls-idle urls env.answers env.shuffle
                        options.disable_http_fallback options.server_url looking refl;
                  is_open = refl;
                })
          ]
        ]
      ]

  -- Whatever the servers answer, a client that New makes is idle, and its keep-alive channel is open.
  pub new-IsReady :
      (options : ClientOptions) (m : Made c)
      → new c keys urls has_prefix_i env options ≡ created m
      → IsReady m.client
  unfolding new
  new-IsReady options m e = elim (Option-cases (check_lengths options)) [
    | inr (bad, refused) ↦ ground (arith, refused, e)
    | inl right ↦ elim (Option-cases (check_tls c keys urls has_prefix_i env options.server_url)) [
      | inr (bad, refused) ↦ ground (arith, right, refused, e)
      | inl verified ↦ elim (Option-cases options.session_info) [
        | inl fresh ↦ initiate-IsReady options m (ground (arith, right, verified, fresh, e))
        | inr (info, given) ↦
            resume-IsReady options info m (ground (arith, right, verified, given, e))
      ]
    ]
  ]
