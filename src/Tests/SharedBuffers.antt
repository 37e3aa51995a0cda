-- ===== src/Tests/SharedBuffers.antt =====
-- A run of a shared buffer at a small state: "d" and "e" poll the id "t", "e" leaves, and another id
-- gets an entry in between.
use interactsh.Prelude.{
  ℕ, ◌≡◌, refl, ◌∷◌, [], ◌++◌, List, Text, some, if◌then◌else◌, ◌==◌, codes, text_eq, text_eq_iff,
  arith, lookup, insert, delete,
}
use interactsh.Storage.Lines.{IsLine}
use interactsh.Storage.Types
use interactsh.Storage.Types.{StorageDb, empty_data}
use interactsh.Storage.Sessions
use interactsh.Storage.Sessions.{add_interaction_with_id, store_interaction}
use interactsh.Storage.Polling.{
  get_interactions_with_id_for_consumer, remove_consumer, read_unseen, read_offset,
}
use interactsh.Storage.Buffer
use interactsh.Storage.Spec
use interactsh.Storage.Spec.Positions.{unseen}
use interactsh.Storage.Isolation.{IsWf}
use interactsh.Storage.Isolation.Steps.{Step, adds_with_id, called, perform, subject, target}
use interactsh.Storage.Refine.Trim.{contents, view}
use interactsh.Storage.Refine.Runs.{Runs, stops, adds, polls, leaves, others}
use interactsh.Storage.Refine.Histories.{Serves, delivers_once}
use interactsh.Tests.World.{small_world, small_state, a_data}

-- Under "t" the consumer "d" is known, and the time to live is 5.
abbrev shared_state : StorageDb small_world
shared_state = record small_state {
  options = record small_state.options { eviction_ttl = 5 };
  heap = λ p. if p == 0 then a_data else record empty_data { read_offsets = (codes "d", 0) ∷ [] };
}

abbrev t : Text
t = codes "t"

abbrev stored : StorageDb small_world
stored = (add_interaction_with_id shared_state t (codes "x")).1

abbrev read : StorageDb small_world
read = (get_interactions_with_id_for_consumer stored t (codes "d") 1).1

abbrev other : StorageDb small_world
other = perform (adds_with_id (codes "a") (codes "z")) read

abbrev again : StorageDb small_world
again = (add_interaction_with_id other t (codes "y")).1

abbrev joined : StorageDb small_world
joined = (get_interactions_with_id_for_consumer again t (codes "e") 2).1

abbrev final : StorageDb small_world
final = remove_consumer joined t (codes "e") 3

pub x-IsLine : IsLine (codes "x")
x-IsLine = record { nonempty = λ e. cc; no_newline = ((λ e. omega arith), tt) }

pub y-IsLine : IsLine (codes "y")
y-IsLine = record { nonempty = λ e. cc; no_newline = ((λ e. omega arith), tt) }

shared-IsWf : IsWf shared_state
shared-IsWf = record {
  in_use = λ k p e. ground arith;
  apart = λ k j p e g. ground (
    arith,
    text_eq_iff k (codes "a"),
    text_eq_iff k t,
    text_eq_iff j (codes "a"),
    text_eq_iff j t,
  );
}

shared-Serves : Serves t (codes "d") 2 shared_state 1
unfolding contents lookup text_eq Types.use_disk
shared-Serves = record {
  wf = shared-IsWf;
  held = refl;
  bare = refl;
  served = record { offset = 0; known = refl; within = omega arith; space = omega arith };
}

got : List Text
got = (get_interactions_with_id_for_consumer stored t (codes "d") 1).0.0 ++ []

before : Step read other
before = called (adds_with_id (codes "a") (codes "z")) refl

departs : Runs t (codes "d") joined [] [] final
unfolding add_interaction_with_id get_interactions_with_id_for_consumer perform store_interaction
    read_unseen text_eq insert delete read_offset lookup Types.use_disk Buffer.set_value
    Sessions.get_if_present Buffer.evict_and_enforce_buffer Buffer.evict_stale_consumers
    Buffer.forget_stale Buffer.drop_unread Buffer.enforce_max_buffer Buffer.data_len
    Buffer.stale_consumers Buffer.delete_all Spec.mark
departs = leaves (codes "e") 3 1 refl refl (λ h. ((λ e. omega arith), tt)) stops

joins : Runs t (codes "d") again [] [] final
unfolding add_interaction_with_id get_interactions_with_id_for_consumer perform store_interaction
    read_unseen text_eq insert delete read_offset lookup Types.use_disk Buffer.set_value
    Sessions.get_if_present Buffer.evict_and_enforce_buffer Buffer.evict_stale_consumers
    Buffer.forget_stale Buffer.drop_unread Buffer.enforce_max_buffer Buffer.data_len
    Buffer.stale_consumers Buffer.delete_all Spec.mark
joins = polls (codes "e") 2 1 refl (λ h. ((λ e. omega arith), ((λ e. omega arith), tt))) departs

run : Runs t (codes "d") shared_state got (codes "x" ∷ codes "y" ∷ []) final
unfolding subject target before got add_interaction_with_id get_interactions_with_id_for_consumer
    perform store_interaction read_unseen text_eq insert delete read_offset lookup Types.use_disk
    Buffer.set_value Sessions.get_if_present Buffer.evict_and_enforce_buffer
    Buffer.evict_stale_consumers Buffer.forget_stale Buffer.drop_unread Buffer.enforce_max_buffer
    Buffer.data_len Buffer.stale_consumers Buffer.delete_all Spec.mark
run = adds (codes "x") x-IsLine (
    polls (codes "d") 1 1 refl (λ h. ((λ e. omega arith), tt))
      (others before refl (adds (codes "y") y-IsLine joins)))

delivers_once_example :
    (q : ℕ) × (small_world.cache.find final.cache t ≡ some q)
    × (got ++ unseen (codes "d") (view final q t)
        ≡ unseen (codes "d") (view shared_state 1 t) ++ (codes "x" ∷ codes "y" ∷ []))
delivers_once_example = delivers_once t (codes "d") 1 run shared-Serves
