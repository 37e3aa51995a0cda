-- ===== src/Client/Lifecycle.antt =====
-- The life cycle of a client (pkg/client/client.go): StartPolling, the polling loop, StopPolling,
-- Close, the keep-alive routine, performRegistration and URL.
use interactsh.Prelude.{
  ℕ, zero, suc, ◌+◌, ◌≡◌, refl, ◌⊎◌, inl, inr, Bool, false, [], ◌++◌, Option, none, some,
  if◌then◌else◌, Text, codes, take, text_eq,
}

pub data State : Type 0 where
  idle polling closed : State

-- A channel that is only ever closed: not made yet, open, or closed.
pub data Channel : Type 0 where
  unmade open_channel closed_channel : Channel

-- The goroutines of StartPolling that are running, counted by where they are: `at_head` before
-- their test of the state, or polling; in their select on the channel of the client (`waiting`), on
-- one that another start has replaced (`stale`), or on one that is closed (`quitting`). And whether
-- the goroutine of New is running. A client with no host has a nil serverURL.
pub record Client : Type 0 where
  pub state : State
  pub quit_chan : Channel
  pub quit_keep_alive_chan : Channel
  pub at_head : ℕ
  pub waiting : ℕ
  pub stale : ℕ
  pub quitting : ℕ
  pub keeping_alive : Bool
  pub correlation_id : Text
  pub server_host : Option Text
  pub nonce_length : ℕ

pub data ClientError : Type 0 where
  already_polling is_closed not_polling stop_first already_closed : ClientError
  request_failed bad_status unauthorized bad_response id_not_found bad_url : ClientError

-- What a call does: it returns, with an error or not, or it panics.
pub data Outcome : Type 0 where
  returned : Option ClientError → Client → Outcome
  panicked : Outcome

pub Outcome-cases :
    (o : Outcome) → (o ≡ panicked) ⊎ ((p : Option ClientError × Client) × (o ≡ returned p.0 p.1))
Outcome-cases (returned e c) = inr ((e, c), refl)
Outcome-cases panicked = inl refl

-- What the server makes of a request: no answer, another status than 200, or an answer with a text,
-- or something else, as its "message".
pub data Reply : Type 0 where
  no_answer : Reply
  status_unauthorized status_other : Reply
  answered : Text → Reply
  answered_other : Reply

-- performRegistration; the type assertion on a message that is no text panics.
unfoldable pub perform_registration : Reply → Client → Outcome
perform_registration no_answer c = returned (some request_failed) c
perform_registration status_unauthorized c = returned (some unauthorized) c
perform_registration status_other c = returned (some bad_status) c
perform_registration answered_other c = panicked
perform_registration (answered message) c =
    if text_eq message (codes "registration successful")
    then returned none (record c { state = idle })
    else returned (some bad_response) c

unfoldable pub start_from : State → Client → Option ClientError × Client
start_from polling c = (some already_polling, c)
start_from closed c = (some is_closed, c)
start_from idle c = (
  none,
  record c {
    state = polling;
    quit_chan = open_channel;
    at_head = c.at_head + 1;
    waiting = 0;
    stale = c.stale + c.waiting;
  },
)

-- StartPolling
unfoldable pub start_polling : Client → Option ClientError × Client
unfolding start_from
start_polling c = start_from c.state c

unfoldable pub stop_from : State → Client → Outcome
stop_from polling c = elim c.quit_chan [
  | unmade ↦ panicked
  | open_channel ↦ returned none (record c {
    quit_chan = closed_channel;
    state = idle;
    waiting = 0;
    quitting = c.quitting + c.waiting;
  })
  | closed_channel ↦ panicked
]
stop_from idle c = returned (some not_polling) c
stop_from closed c = returned (some not_polling) c

-- StopPolling: the channel is closed, which a closed or nil channel answers with a panic.
unfoldable pub stop_polling : Client → Outcome
unfolding stop_from
stop_polling c = stop_from c.state c

-- The part of Close after the keep-alive channel is closed.
unfoldable pub deregister : Reply → Client → Outcome
deregister no_answer c = returned (some request_failed) c
deregister status_unauthorized c = returned (some bad_status) c
deregister status_other c = returned (some bad_status) c
deregister (answered message) c = returned none (record c { state = closed })
deregister answered_other c = returned none (record c { state = closed })

unfoldable pub close_from : State → Reply → Client → Outcome
unfolding deregister
close_from polling reply c = returned (some stop_first) c
close_from closed reply c = returned (some already_closed) c
close_from idle reply c = elim c.quit_keep_alive_chan [
  | unmade ↦ panicked
  | open_channel ↦ deregister reply (record c { quit_keep_alive_chan = closed_channel })
  | closed_channel ↦ panicked
]

-- Close of a client that has a server, with what that makes of the request to deregister.
unfoldable pub close : Reply → Client → Outcome
unfolding close_from deregister
close reply c = close_from c.state reply c

-- The turn of a goroutine at the head of the polling loop: it goes on to the select only while the
-- client is polling.
unfoldable pub loop_from : ℕ → State → Client → Client
loop_from zero state c = c
loop_from (suc n) polling c = record c { at_head = n; waiting = c.waiting + 1 }
loop_from (suc n) idle c = record c { at_head = n }
loop_from (suc n) closed c = record c { at_head = n }

unfoldable pub loop_head : Client → Client
unfolding loop_from
loop_head c = loop_from c.at_head c.state c

-- The cases of the select: the ticker, for a goroutine that waits on each kind of channel, and the
-- channel, once it is closed. With the ticker the goroutine polls, and is back at the head.
pub data Select : Type 0 where
  waiting_polls stale_polls quitting_polls quitting_ends : Select

unfoldable pub select_from : Select → ℕ → Client → Client
select_from case zero c = c
select_from waiting_polls (suc n) c = record c { waiting = n; at_head = c.at_head + 1 }
select_from stale_polls (suc n) c = record c { stale = n; at_head = c.at_head + 1 }
select_from quitting_polls (suc n) c = record c { quitting = n; at_head = c.at_head + 1 }
select_from quitting_ends (suc n) c = record c { quitting = n }

abbrev pub selecting : Select → Client → ℕ
selecting waiting_polls c = c.waiting
selecting stale_polls c = c.stale
selecting quitting_polls c = c.quitting
selecting quitting_ends c = c.quitting

unfoldable pub select_turn : Select → Client → Client
unfolding select_from
select_turn case c = select_from case (selecting case c) c

unfoldable pub keep_alive_from : State → Reply → Client → Outcome
unfolding perform_registration
keep_alive_from closed reply c = returned none (record c { keeping_alive = false })
keep_alive_from idle reply c = perform_registration reply c
keep_alive_from polling reply c = perform_registration reply c

-- One tick of the keep-alive routine: it ends if the client is closed, and else registers again,
-- whose error is dropped.
unfoldable pub keep_alive_tick : Reply → Client → Outcome
unfolding keep_alive_from perform_registration
keep_alive_tick reply c =
    if c.keeping_alive then keep_alive_from c.state reply c else returned none c

-- The routine when its channel is closed.
unfoldable pub keep_alive_quit : Client → Client
keep_alive_quit c = elim c.quit_keep_alive_chan [
  | closed_channel ↦ record c { keeping_alive = false }
  | open_channel ↦ c
  | unmade ↦ c
]

abbrev url_text : Text → Client → Option Text
url_text nonce c = elim c.server_host [
  | none ↦ none
  | some host ↦ some (c.correlation_id ++ (take c.nonce_length nonce ++ (codes "." ++ host)))
]

unfoldable pub url_from : State → Text → Client → Option Text
url_from closed nonce c = some []
url_from idle nonce c = url_text nonce c
url_from polling nonce c = url_text nonce c

-- URL, with the zbase32 text of the random bytes; `none` is the panic on a nil serverURL.
unfoldable pub url : Text → Client → Option Text
unfolding url_from
url nonce c = url_from c.state nonce c
