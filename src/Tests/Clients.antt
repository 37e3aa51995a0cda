-- ===== src/Tests/Clients.antt =====
-- The theorems on the client at a client that has just registered.
use interactsh.Prelude.{◌+◌, ◌-◌, ◌≡◌, ◌≢◌, refl, true, [], none, some, codes}
use interactsh.Client.Lifecycle.{
  is_closed, already_closed, url, idle, polling, unmade, open_channel, Client, not_polling,
  request_failed, returned, panicked, no_answer, answered, start_polling, stop_polling, close,
  loop_head, keep_alive_tick, select_turn, waiting_polls,
}
use interactsh.Client.Histories.Steps.{here, next, starts, turns}
use interactsh.Client.Histories.{
  stop_polling-returns, close-ends, close-panics_again, keep_alive_tick-ends_polling,
  restart-doubles,
}

abbrev pub new_client : Client
new_client = record {
  state = idle;
  quit_chan = unmade;
  quit_keep_alive_chan = open_channel;
  at_head = 0;
  waiting = 0;
  stale = 0;
  quitting = 0;
  keeping_alive = true;
  correlation_id = codes "c";
  server_host = some (codes "o.st");
  nonce_length = 2;
}

abbrev polling_client : Client
polling_client = record new_client { state = polling; quit_chan = open_channel; waiting = 1 }

stop_polling-returns_example : stop_polling (loop_head (start_polling new_client).1) ≢ panicked
stop_polling-returns_example = stop_polling-returns refl (next (next here starts) turns)

close-panics_again_example :
    (d : Client) × (close no_answer new_client ≡ returned (some request_failed) d)
    × (d.state ≡ idle)
    × (close (answered (codes "ok")) d ≡ panicked)
close-panics_again_example = close-panics_again new_client (answered (codes "ok")) refl refl

keep_alive_tick-ends_polling_example :
    (d : Client) × (keep_alive_tick (answered (codes "registration successful")) polling_client
      ≡ returned none d)
    × (d.state ≡ idle)
    × (stop_polling d ≡ returned (some not_polling) d)
    × ((loop_head d).at_head ≡ 0 - 1)
    × ((loop_head d).waiting ≡ 1)
    × (let e = loop_head (select_turn waiting_polls d) in
        (e.waiting ≡ 1 - 1) × (e.at_head + e.waiting ≡ 0 + 1 - 1))
keep_alive_tick-ends_polling_example = keep_alive_tick-ends_polling polling_client refl refl

restart-doubles_example :
    (d e : Client) × (stop_polling (start_polling new_client).1 ≡ returned none d)
    × ((start_polling d).0 ≡ none)
    × ((loop_head (loop_head (start_polling d).1)).waiting ≡ 2)
    × (stop_polling (loop_head (start_polling new_client).1) ≡ returned none e)
    × ((start_polling e).0 ≡ none)
    × ((loop_head (start_polling e).1).waiting ≡ 1)
    × ((start_polling e).1.quitting ≡ 0 + 1)
restart-doubles_example = restart-doubles new_client refl refl refl

close-ends_example :
    (d : Client) × (close (answered (codes "ok")) new_client ≡ returned none d)
    × (url (codes "n") d ≡ some [])
    × ((start_polling d).0 ≡ some is_closed)
    × (close no_answer d ≡ returned (some already_closed) d)
close-ends_example = close-ends new_client (codes "ok") (codes "n") no_answer refl refl
