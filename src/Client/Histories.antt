-- ===== src/Client/Histories.antt =====
-- The client of pkg/client/client.go over sequences of calls, ticks and turns of its goroutines.
pub mod Steps
use interactsh.Prelude.{
  ℕ, zero, suc, ◌+◌, ◌-◌, subst, Bool-cases, ◌≡◌, ◌≢◌, ◌⊎◌, refl, sym, ◌∙◌, inl, inr, true, false,
  [], Option, none, some, arith, Text, codes, text_eq,
}
use interactsh.Client.Lifecycle.{
  State, idle, polling, closed, Channel, unmade, open_channel, closed_channel, Client, ClientError,
  not_polling, is_closed, already_closed, request_failed, returned, panicked, Reply, no_answer,
  answered, perform_registration, start_polling, start_from, stop_from, close_from, loop_from,
  keep_alive_from, url_from, stop_polling, close, deregister, loop_head, keep_alive_tick,
  keep_alive_quit, url, Select, select_turn, select_from, selecting, waiting_polls, stale_polls,
  quitting_polls, quitting_ends, status_unauthorized, status_other, answered_other,
}
use interactsh.Client.Histories.Steps.{
  Reach, State-cases, ℕ-cases, idle_ne_polling, Reach-IsStoppable,
}

-- Whatever calls a client gets and whatever its goroutines do, from a client that is idle on,
-- StopPolling returns: the channel that it closes is open.
pub stop_polling-returns : {c d : Client} → c.state ≡ idle → Reach c d → stop_polling d ≢ panicked
unfolding stop_polling stop_from
stop_polling-returns {c} {d} new r e = ground (
  arith,
  State-cases d.state,
  Reach-IsStoppable {c = c} {d = d} (λ now. absurd (idle_ne_polling (sym new ∙ now))) r,
)

-- A client that is idle can be started, stopped and closed, where the server answers the request to
-- deregister; it is then closed for good: it has no URL, and starting or closing it is an error.
pub close-ends :
    (c : Client) (message nonce : Text) (reply : Reply)
    → c.state ≡ idle
    → c.quit_keep_alive_chan ≡ open_channel
    → (d : Client) × (close (answered message) c ≡ returned none d)
      × (url nonce d ≡ some [])
      × ((start_polling d).0 ≡ some is_closed)
      × (close reply d ≡ returned (some already_closed) d)
unfolding close close_from deregister url url_from start_polling start_from
close-ends c message nonce reply now unquit = (
  record c { quit_keep_alive_chan = closed_channel; state = closed },
  ground (arith, now, unquit),
  refl,
  refl,
  refl,
)

-- If the server does not answer the request to deregister, Close returns an error and the client
-- is still idle, but a second Close panics, whatever the server then makes of it.
pub close-panics_again :
    (c : Client) (reply : Reply)
    → c.state ≡ idle
    → c.quit_keep_alive_chan ≡ open_channel
    → (d : Client) × (close no_answer c ≡ returned (some request_failed) d)
      × (d.state ≡ idle)
      × (close reply d ≡ panicked)
unfolding close close_from deregister
close-panics_again c reply now unquit = (
  record c { quit_keep_alive_chan = closed_channel },
  ground (arith, now, unquit),
  now,
  ground (arith, now),
)

idle_turn :
    (c : Client)
    → c.state ≡ idle
    → ((loop_head c).at_head ≡ c.at_head - 1) × ((loop_head c).waiting ≡ c.waiting)
unfolding loop_head
idle_turn c now = elim (ℕ-cases c.at_head) [
  | inl none_there ↦ unfold loop_from in ground (arith, now, none_there)
  | inr (n, some_there) ↦ unfold loop_from in ground (arith, now, some_there)
]

-- A goroutine that waits, polls, and finds the client idle.
idle_poll :
    (c : Client)
    → let e = loop_head (select_turn waiting_polls (record c { state = idle })) in
      (e.waiting ≡ c.waiting - 1) × (e.at_head + e.waiting ≡ c.at_head + c.waiting - 1)
unfolding loop_head loop_from select_turn select_from
idle_poll c = elim (ℕ-cases c.waiting) [
  | inr (n, waits) ↦ ground (arith, waits)
  | inl none_waits ↦ elim (ℕ-cases c.at_head) [
    | inl none_there ↦ ground (arith, none_waits, none_there)
    | inr (n, some_there) ↦ ground (arith, none_waits, some_there)
  ]
]

-- A keep-alive registration that succeeds while the client is polling makes it idle: a goroutine of
-- the polling loop ends at its next turn at the head, also one that waits, after its next poll; and
-- StopPolling says that the client is not polling.
pub keep_alive_tick-ends_polling :
    (c : Client)
    → c.state ≡ polling
    → c.keeping_alive ≡ true
    → (d : Client) × (keep_alive_tick (answered (codes "registration successful")) c
        ≡ returned none d)
      × (d.state ≡ idle)
      × (stop_polling d ≡ returned (some not_polling) d)
      × ((loop_head d).at_head ≡ c.at_head - 1)
      × ((loop_head d).waiting ≡ c.waiting)
      × (let e = loop_head (select_turn waiting_polls d) in
          (e.waiting ≡ c.waiting - 1) × (e.at_head + e.waiting ≡ c.at_head + c.waiting - 1))
unfolding keep_alive_tick keep_alive_from perform_registration loop_head loop_from stop_polling
    stop_from text_eq select_turn select_from
keep_alive_tick-ends_polling c now alive = (
  record c { state = idle },
  ground (arith, now, alive),
  refl,
  refl,
  (idle_turn (record c { state = idle }) refl).0,
  (idle_turn (record c { state = idle }) refl).1,
  idle_poll c,
)

-- An idle client is started, stopped, and started again. If the goroutine of the first start is
-- still at the head of its loop then, two go on to wait on the new channel; but if it waits in its
-- select by then, it waits on the channel that is closed.
pub restart-doubles :
    (c : Client)
    → c.state ≡ idle
    → c.at_head ≡ 0
    → c.waiting ≡ 0
    → (d e : Client) × (stop_polling (start_polling c).1 ≡ returned none d)
      × ((start_polling d).0 ≡ none)
      × ((loop_head (loop_head (start_polling d).1)).waiting ≡ 2)
      × (stop_polling (loop_head (start_polling c).1) ≡ returned none e)
      × ((start_polling e).0 ≡ none)
      × ((loop_head (start_polling e).1).waiting ≡ 1)
      × ((start_polling e).1.quitting ≡ c.quitting + 1)
unfolding start_polling start_from stop_polling stop_from loop_head loop_from
restart-doubles c now no_head no_wait = (
  record c {
    state = idle;
    quit_chan = closed_channel;
    at_head = c.at_head + 1;
    waiting = 0;
    stale = c.stale + c.waiting;
    quitting = c.quitting + 0;
  },
  record c {
    state = idle;
    quit_chan = closed_channel;
    at_head = 0;
    waiting = 0;
    stale = c.stale + c.waiting;
    quitting = c.quitting + 1;
  },
  ground (arith, now),
  refl,
  ground (arith, no_head),
  ground (arith, now, no_head),
  refl,
  ground (arith, no_head),
  ground (arith, no_head),
)
