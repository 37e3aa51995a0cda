-- ===== src/Tests/SharedPolls.antt =====
-- A session that polls the token's buffer over HTTP, at a small state.
use interactsh.Prelude.{
  ℕ, false, ◌≡◌, refl, ◌∷◌, [], ◌++◌, List, Text, some, if◌then◌else◌, ◌==◌, codes, text_eq,
  text_eq_iff, arith, lookup, insert, to_lower,
}
use interactsh.Storage.Types
use interactsh.Storage.Types.{StorageDb, empty_data}
use interactsh.Storage.Sessions
use interactsh.Storage.Sessions.{add_interaction_with_id, store_interaction}
use interactsh.Storage.Polling.{get_interactions, take_interactions}
use interactsh.Storage.Buffer
use interactsh.Storage.Spec
use interactsh.Storage.Spec.Positions.{unseen}
use interactsh.Storage.Isolation.{IsWf}
use interactsh.Storage.Refine.Trim.{contents, view}
use interactsh.Storage.Refine.Histories.{Serves}
use interactsh.Server.Options.{ServerOptions}
use interactsh.Server.Http.Types.{HttpState}
use interactsh.Server.Http.Sessions.{poll_session}
use interactsh.EndToEnd.Shared.{extra_of}
use interactsh.EndToEnd.Shared.Visits.{Visits, rests, stores, polls, poll_session-delivers_once}
use interactsh.Tests.World.{small_world, small_state, a_data}
use interactsh.Tests.Settings.{small_options, no_metrics}
use interactsh.Tests.SharedBuffers.{x-IsLine, y-IsLine}

-- The token is "t", and "a" has polled it.
abbrev token_options : ServerOptions
token_options = record small_options { token = codes "t" }

abbrev start : StorageDb small_world
start = record small_state {
  options = record small_state.options { eviction_ttl = 5 };
  heap = λ p. if p == 0 then a_data else record empty_data { read_offsets = (codes "a", 0) ∷ [] };
}

abbrev started : HttpState small_world
started = record { storage = start; stats = no_metrics }

abbrev stored : HttpState small_world
stored = record {
  storage = (add_interaction_with_id start (codes "t") (codes "x")).1;
  stats = no_metrics;
}

abbrev polled_once : HttpState small_world
polled_once = (poll_session token_options (codes "a") (codes "s") 1 stored).1

abbrev ended : HttpState small_world
ended = record {
  storage = (add_interaction_with_id polled_once.storage (codes "t") (codes "y")).1;
  stats = no_metrics;
}

start-IsWf : IsWf start
start-IsWf = record {
  in_use = λ k p e. ground arith;
  apart = λ k j p e g. ground (
    arith,
    text_eq_iff k (codes "a"),
    text_eq_iff k (codes "t"),
    text_eq_iff j (codes "a"),
    text_eq_iff j (codes "t"),
  );
}

start-Serves : Serves (codes "t") (codes "a") 2 start 1
unfolding contents lookup text_eq Types.use_disk
start-Serves = record {
  wf = start-IsWf;
  held = refl;
  bare = refl;
  served = record { offset = 0; known = refl; within = omega arith; space = omega arith };
}

abbrev given : List Text
given = extra_of (poll_session token_options (codes "a") (codes "s") 1 stored).0 ++ []

visits : Visits token_options (codes "a") started given (codes "x" ∷ codes "y" ∷ []) ended
unfolding text_eq insert to_lower get_interactions take_interactions store_interaction
    Buffer.set_value Sessions.get_if_present Types.use_disk add_interaction_with_id Spec.mark
visits = stores (codes "x") no_metrics x-IsLine (
    polls (codes "a") (codes "s") 1 1 refl (refl, (λ h. ((λ e. omega arith), tt)))
      (stores (codes "y") no_metrics y-IsLine rests))

apart_domains : text_eq (codes "o.st") (codes "t") ≡ false
unfolding text_eq
apart_domains = refl

poll_session-delivers_once_example :
    (q : ℕ) × (small_world.cache.find ended.storage.cache (codes "t") ≡ some q)
    × (given ++ unseen (codes "a") (view ended.storage q (codes "t"))
        ≡ unseen (codes "a") (view start 1 (codes "t")) ++ (codes "x" ∷ codes "y" ∷ []))
poll_session-delivers_once_example =
    poll_session-delivers_once token_options (codes "a") 1 refl (apart_domains, tt) visits
      start-Serves
