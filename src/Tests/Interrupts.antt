-- ===== src/Tests/Interrupts.antt =====
-- The client program from its start to its interrupt, at a small world.
use interactsh.Prelude.{
  ℕ, ◌≡◌, ◌≢◌, refl, true, false, [], ◌∷◌, Option, none, some, if◌then◌else◌, is_empty, Text, codes,
  text_eq,
}
use interactsh.Storage.Lines.{split}
use interactsh.Client.Lifecycle.{
  Client, no_answer, answered, returned, panicked, polling, closed, idle, open_channel,
}
use interactsh.Client.Creation.{Environment}
use interactsh.Commands.Client.{CliClientOptions, Regex, interrupt}
use interactsh.Commands.Client.Start.{ClientFiles, Polling, polls, start_client}
use interactsh.Commands.Client.Interrupts.{start_client-interrupt}
use interactsh.Tests.World.{small_crypto}
use interactsh.Tests.Deliveries.{small_keys}
use interactsh.Tests.Programs.{client_flags}
use interactsh.Tests.Registrations.{small_urls, b_environment}

abbrev flags : CliClientOptions
flags = record client_flags {
  server_url = codes "a,b";
  store_payload = true;
  store_payload_file = codes "f";
}

abbrev no_files : ClientFiles
no_files = record {
  exists = λ path. false;
  creates = λ path. true;
  writes = λ path. true;
  merge = λ cli. some cli;
  session = λ path. none;
}

abbrev environment : Environment small_crypto
environment = record b_environment { xid = codes "xyz"; generated = some 0 }

abbrev letter : ℕ → Text
letter i = codes "nonce"

abbrev equals : Text → Option Regex
equals item = some (text_eq item)

abbrev polled : Polling
polled = record {
  cli = flags;
  client = record {
    state = polling;
    quit_chan = open_channel;
    quit_keep_alive_chan = open_channel;
    at_head = 1;
    waiting = 0;
    stale = 0;
    quitting = 0;
    keeping_alive = false;
    correlation_id = codes "xyz";
    server_host = some (codes "b");
    nonce_length = 0;
  };
  error = none;
  payloads = codes "xyz.b" ∷ [];
  stored = some (codes "xyz.b");
  matcher = some (text_eq (codes "abc") ∷ []);
  filter = none;
}

starts :
    start_client no_files equals letter small_crypto small_keys small_urls text_eq environment false
      flags
    ≡ polls polled
unfolding start_client split text_eq
starts = refl

start_client-interrupt_example :
    (polled.client.state ≡ polling)
    × (interrupt flags no_answer polled.client ≢ panicked)
    × ((ended : Client) × (interrupt flags (answered (codes "ok")) polled.client
          ≡ returned none ended)
        × (ended.state ≡ (if is_empty flags.session_file then closed else idle)))
start_client-interrupt_example =
    start_client-interrupt no_files equals letter small_crypto small_keys small_urls text_eq
      environment false flags polled no_answer (codes "ok") starts
