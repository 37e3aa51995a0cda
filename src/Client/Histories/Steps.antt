-- ===== src/Client/Histories/Steps.antt =====
-- The steps of a client of pkg/client/client.go, and the channel that it has while it polls.
use interactsh.Prelude.{
  ℕ, zero, suc, subst, Bool-cases, ◌≡◌, ◌≢◌, ◌⊎◌, refl, sym, ◌∙◌, inl, inr, false, Option, arith,
  codes, text_eq,
}
use interactsh.Client.Lifecycle.{
  State, idle, polling, closed, Channel, unmade, open_channel, closed_channel, Client, ClientError,
  returned, Reply, no_answer, answered, perform_registration, start_polling, start_from, stop_from,
  close_from, loop_from, keep_alive_from, stop_polling, close, deregister, loop_head,
  keep_alive_tick, keep_alive_quit, Select, select_turn, select_from, selecting, waiting_polls,
  stale_polls, quitting_polls, quitting_ends, status_unauthorized, status_other, answered_other,
}

-- One step: a call that returns, a turn of a polling loop, or one of the keep-alive routine.
pub data Step (c : Client) : Client → Type 0 where
  starts : Step c (start_polling c).1
  stops : {e : Option ClientError} {d : Client} → stop_polling c ≡ returned e d → Step c d
  closes :
      {e : Option ClientError} {d : Client} (reply : Reply)
      → close reply c ≡ returned e d
      → Step c d
  turns : Step c (loop_head c)
  selects : (case : Select) → Step c (select_turn case c)
  ticks :
      {e : Option ClientError} {d : Client} (reply : Reply)
      → keep_alive_tick reply c ≡ returned e d
      → Step c d
  quits : Step c (keep_alive_quit c)

pub data Reach (c : Client) : Client → Type 0 where
  here : Reach c c
  next : {d e : Client} → Reach c d → Step d e → Reach c e

-- A client that is polling has a channel to quit by.
abbrev pub IsStoppable : Client → Type 0
IsStoppable c = c.state ≡ polling → c.quit_chan ≡ open_channel

pub State-cases : (s : State) → (s ≡ idle) ⊎ (s ≡ polling) ⊎ (s ≡ closed)
State-cases idle = inl refl
State-cases polling = inr (inl refl)
State-cases closed = inr (inr refl)

Channel-cases : (c : Channel) → (c ≡ unmade) ⊎ (c ≡ open_channel) ⊎ (c ≡ closed_channel)
Channel-cases unmade = inl refl
Channel-cases open_channel = inr (inl refl)
Channel-cases closed_channel = inr (inr refl)

pub ℕ-cases : (n : ℕ) → (n ≡ 0) ⊎ ((m : ℕ) × (n ≡ suc m))
ℕ-cases zero = inl refl
ℕ-cases (suc n) = inr (n, refl)

pub idle_ne_polling : idle ≢ polling
idle_ne_polling h = cc

closed_ne_polling : closed ≢ polling
closed_ne_polling h = cc

IsStoppable-start : (c : Client) → IsStoppable c → IsStoppable (start_polling c).1
unfolding start_polling start_from
IsStoppable-start c h now = ground (arith, State-cases c.state, h)

IsStoppable-stop :
    (c d : Client) (e : Option ClientError)
    → IsStoppable c
    → stop_polling c ≡ returned e d
    → IsStoppable d
unfolding stop_polling stop_from
IsStoppable-stop c d e h stopped now =
    ground (arith, State-cases c.state, Channel-cases c.quit_chan, h)

IsStoppable-close :
    (c d : Client) (e : Option ClientError) (reply : Reply)
    → IsStoppable c
    → close reply c ≡ returned e d
    → IsStoppable d
unfolding close close_from deregister
IsStoppable-close c d e reply h done now =
    ground (arith, State-cases c.state, Channel-cases c.quit_keep_alive_chan, h)

IsStoppable-turn : (c : Client) → IsStoppable c → IsStoppable (loop_head c)
unfolding loop_head loop_from
IsStoppable-turn c h now = ground (arith, State-cases c.state, h)

IsStoppable-select : (case : Select) (c : Client) → IsStoppable c → IsStoppable (select_turn case c)
unfolding select_turn select_from
IsStoppable-select case c h = go case (selecting case c)
  where
    go : (case : Select) (n : ℕ) → IsStoppable (select_from case n c)
    go case zero = h
    go waiting_polls (suc n) = h
    go stale_polls (suc n) = h
    go quitting_polls (suc n) = h
    go quitting_ends (suc n) = h

-- A registration that returns makes the client idle, or leaves it as it is.
pub perform_registration-state :
    (reply : Reply) (c d : Client) (e : Option ClientError)
    → perform_registration reply c ≡ returned e d
    → (d.state ≡ idle) ⊎ (d ≡ c)
unfolding perform_registration
perform_registration-state no_answer c d e done = inr (ground (arith, done))
perform_registration-state status_unauthorized c d e done = inr (ground (arith, done))
perform_registration-state status_other c d e done = inr (ground (arith, done))
perform_registration-state answered_other c d e done = absurd (ground (arith, done))
perform_registration-state (answered message) c d e done =
    elim (Bool-cases (text_eq message (codes "registration successful"))) [
      | inl good ↦ inl (ground (arith, good, done))
      | inr bad ↦ inr (ground (arith, bad, done))
    ]

IsStoppable-registration :
    (reply : Reply) (c d : Client) (e : Option ClientError)
    → IsStoppable c
    → perform_registration reply c ≡ returned e d
    → IsStoppable d
IsStoppable-registration reply c d e h done = elim (perform_registration-state reply c d e done) [
  | inl resting ↦ λ now. absurd (idle_ne_polling (sym resting ∙ now))
  | inr same ↦ subst IsStoppable (sym same) h
]

IsStoppable-tick :
    (c d : Client) (e : Option ClientError) (reply : Reply)
    → IsStoppable c
    → keep_alive_tick reply c ≡ returned e d
    → IsStoppable d
unfolding keep_alive_tick keep_alive_from
IsStoppable-tick c d e reply h done = elim (Bool-cases c.keeping_alive) [
  | inr ended ↦ let same : c ≡ d = ground (arith, ended, done) in subst IsStoppable same h
  | inl alive ↦ go c.state refl (ground (arith, alive, done))
]
  where
    go : (s : State) → c.state ≡ s → keep_alive_from s reply c ≡ returned e d → IsStoppable d
    go idle at made = IsStoppable-registration reply c d e h made
    go polling at made = IsStoppable-registration reply c d e h made
    go closed at made =
        let same : record c { keeping_alive = false } ≡ d = ground (arith, made) in
        subst IsStoppable same h

IsStoppable-quit : (c : Client) → IsStoppable c → IsStoppable (keep_alive_quit c)
unfolding keep_alive_quit
IsStoppable-quit c h now = ground (arith, Channel-cases c.quit_keep_alive_chan, h)

Step-IsStoppable : {c d : Client} → IsStoppable c → Step c d → IsStoppable d
Step-IsStoppable {c} h starts = IsStoppable-start c h
Step-IsStoppable {c} {d} h (stops {e} stopped) = IsStoppable-stop c d e h stopped
Step-IsStoppable {c} {d} h (closes {e} reply done) = IsStoppable-close c d e reply h done
Step-IsStoppable {c} h turns = IsStoppable-turn c h
Step-IsStoppable {c} h (selects case) = IsStoppable-select case c h
Step-IsStoppable {c} {d} h (ticks {e} reply done) = IsStoppable-tick c d e reply h done
Step-IsStoppable {c} h quits = IsStoppable-quit c h

pub Reach-IsStoppable : {c d : Client} → IsStoppable c → Reach c d → IsStoppable d
Reach-IsStoppable h here = h
Reach-IsStoppable h (next r s) = Step-IsStoppable (Reach-IsStoppable h r) s
