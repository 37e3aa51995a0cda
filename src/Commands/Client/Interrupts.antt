-- ===== src/Commands/Client/Interrupts.antt =====
-- From the start of the client program to its interrupt (cmd/interactsh-client/main.go).
use interactsh.Prelude.{
  ℕ, ◌+◌, ◌≡◌, ◌≢◌, refl, inl, inr, ◌⊎◌, Bool, not, ◌&&◌, Option, none, some, arith, subst,
  if◌then◌else◌, is_empty, Text, Bool-cases, Option-cases,
}
use interactsh.Storage.Libraries.{CryptoLib}
use interactsh.Client.Lifecycle.{
  Client, Reply, idle, polling, closed, open_channel, closed_channel, returned, panicked, answered,
  start_polling, stop_polling, close, deregister,
}
use interactsh.Client.Registration.{UrlLib}
use interactsh.Client.Settings.{CreationError}
use interactsh.Client.Keys.{KeyLib}
use interactsh.Client.Creation.{
  Environment, Creation, Made, not_created, creation_panics, created, new,
}
use interactsh.Client.Creation.Idle.{IsReady, new-IsReady}
use interactsh.Commands.Client.{
  CliClientOptions, client_options, Regex, matcher_of, interrupt, generate_payload_url,
}
use interactsh.Commands.Client.Start.{
  ClientFiles, Polling, polls, poll_with, payload_nonces, create, start_client,
}

-- What StartPolling makes of a client that New made.
pub record IsStarted (c : Client) : Type 0 where
  pub polls_now : c.state ≡ polling
  pub quits : c.quit_chan ≡ open_channel
  pub keeps : c.quit_keep_alive_chan ≡ open_channel

start_polling-IsStarted : (c : Client) → IsReady c → IsStarted (start_polling c).1
unfolding start_polling
start_polling-IsStarted c ready =
    let idling = ready.idle_state in
    let opened = ready.is_open in
    record {
      polls_now = ground (arith, idling);
      quits = ground (arith, idling);
      keeps = ground (arith, idling, opened);
    }

-- The client that an interrupt leaves after StopPolling.
abbrev stopped : Client → Client
stopped c = record c {
  quit_chan = closed_channel;
  state = idle;
  waiting = 0;
  quitting = c.quitting + c.waiting;
}

stop_polling-stopped : (c : Client) → IsStarted c → stop_polling c ≡ returned none (stopped c)
unfolding stop_polling
stop_polling-stopped c started =
    let now = started.polls_now in let quits = started.quits in ground (arith, now, quits)

close-stopped :
    (c : Client) (reply : Reply)
    → IsStarted c
    → close reply (stopped c)
      ≡ deregister reply (record (stopped c) { quit_keep_alive_chan = closed_channel })
unfolding close
close-stopped c reply started = let keeps = started.keeps in ground (arith, keeps)

interrupt-ends :
    (cli : CliClientOptions) (c : Client) (message : Text)
    → IsStarted c
    → (ended : Client) × (interrupt cli (answered message) c ≡ returned none ended)
      × (ended.state ≡ (if is_empty cli.session_file then closed else idle))
unfolding interrupt deregister
interrupt-ends cli c message started =
    let stops = stop_polling-stopped c started in
    let closes = close-stopped c (answered message) started in
    elim (Bool-cases (is_empty cli.session_file)) [
      | inl e ↦ (
        record (stopped c) { quit_keep_alive_chan = closed_channel; state = closed },
        rw (interrupt, stops, e, closes) refl,
        rw e refl,
      )
      | inr e ↦ (stopped c, rw (interrupt, stops, e) refl, rw e refl)
    ]

interrupt-returns :
    (cli : CliClientOptions) (c : Client) (reply : Reply)
    → IsStarted c
    → interrupt cli reply c ≢ panicked
unfolding interrupt deregister
interrupt-returns cli c reply started =
    let stops = stop_polling-stopped c started in
    let closes = close-stopped c reply started in ground (arith, stops, closes)

Creation-cases :
    (c : CryptoLib) (made : Creation c)
    → ((e : CreationError) × (made ≡ not_created e))
      ⊎ ((made ≡ creation_panics) ⊎ ((m : Made c) × (made ≡ created m)))
Creation-cases c (not_created e) = inl (e, refl)
Creation-cases c creation_panics = inr (inl refl)
Creation-cases c (created m) = inr (inr (m, refl))

module _ (files : ClientFiles) (compile : Text → Option Regex) (nonce : ℕ → Text) where
  poll_with-IsStarted :
      (cli : CliClientOptions) (c : Client) (p : Polling)
      → IsReady c
      → poll_with files compile nonce cli c ≡ polls p
      → IsStarted p.client
  unfolding poll_with
  poll_with-IsStarted cli c p ready e =
      let stores = cli.store_payload && not (is_empty cli.store_payload_file) in
      let begun = start_polling-IsStarted c ready in
      elim (Option-cases (generate_payload_url (payload_nonces nonce cli.number_of_payloads) c)) [
        | inl stop ↦ absurd (ground (arith, e, stop))
        | inr (payloads, made) ↦
            elim (Bool-cases (stores && not (files.writes cli.store_payload_file))) [
              | inl f ↦ absurd (ground (arith, e, made, f))
              | inr f ↦ elim (Option-cases (matcher_of compile cli.match_items)) [
                | inl g ↦ absurd (ground (arith, e, made, f, g))
                | inr (matcher, g) ↦ elim (Option-cases (matcher_of compile cli.filter_items)) [
                  | inl h ↦ absurd (ground (arith, e, made, f, g, h))
                  | inr (filter, h) ↦
                      let same : (start_polling c).1 ≡ p.client =
                        ground (arith, e, made, f, g, h) in
                      subst IsStarted same begun
                ]
              ]
            ]
      ]

  module _ (c : CryptoLib) (keys : KeyLib c) (urls : UrlLib) (has_prefix_i : Text → Text → Bool)
      (env : Environment c) where
    create-IsStarted :
        (cli : CliClientOptions) (p : Polling)
        → create files compile nonce c keys urls has_prefix_i env cli ≡ polls p
        → IsStarted p.client
    unfolding create
    create-IsStarted cli p e =
        let session =
          if files.exists cli.session_file then files.session cli.session_file else none in
        let made = new c keys urls has_prefix_i env (client_options cli session) in
        elim (Bool-cases (not (is_empty cli.output) && not (files.creates cli.output))) [
          | inl f ↦ absurd (ground (arith, e, f))
          | inr f ↦ elim (Creation-cases c made) [
            | inl (error, g) ↦ absurd (ground (arith, e, f, g))
            | inr (inl g) ↦ absurd (ground (arith, e, f, g))
            | inr (inr (m, g)) ↦
                poll_with-IsStarted cli m.client p
                  (new-IsReady c keys urls has_prefix_i env (client_options cli session) m g)
                  (ground (arith, e, f, g))
          ]
        ]

    start_client-IsStarted :
        (health_check : Bool) (cli : CliClientOptions) (p : Polling)
        → start_client files compile nonce c keys urls has_prefix_i env health_check cli ≡ polls p
        → IsStarted p.client
    unfolding start_client
    start_client-IsStarted health_check cli p e = elim (Bool-cases health_check) [
      | inl f ↦ absurd (ground (arith, e, f))
      | inr f ↦ elim (Bool-cases cli.version) [
        | inl g ↦ absurd (ground (arith, e, f, g))
        | inr g ↦
            elim (Option-cases (if files.exists cli.config then files.merge cli else some cli)) [
              | inl h ↦ absurd (ground (arith, e, f, g, h))
              | inr (merged, h) ↦ create-IsStarted merged p (ground (arith, e, f, g, h))
            ]
      ]
    ]

    -- A client program that comes to poll is polling, and its interrupt, after SaveSessionTo, does
    -- not panic, whatever the servers answer to any request. If the server answers the request to
    -- deregister, the client is then closed, or idle where there is a session file.
    pub start_client-interrupt :
        (health_check : Bool) (cli : CliClientOptions) (p : Polling) (reply : Reply)
        (message : Text)
        → start_client files compile nonce c keys urls has_prefix_i env health_check cli ≡ polls p
        → (p.client.state ≡ polling)
          × (interrupt p.cli reply p.client ≢ panicked)
          × ((ended : Client) × (interrupt p.cli (answered message) p.client ≡ returned none ended)
              × (ended.state ≡ (if is_empty p.cli.session_file then closed else idle)))
    start_client-interrupt health_check cli p reply message e =
        let started = start_client-IsStarted health_check cli p e in
        (
          started.polls_now,
          interrupt-returns p.cli p.client reply started,
          interrupt-ends p.cli p.client message started,
        )
