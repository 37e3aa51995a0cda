-- ===== src/Tests/StorageCalls.antt =====
-- The storage theorems at small states.
use interactsh.Prelude.{
  ◌≤◌, ◌≡◌, refl, inr, true, [], none, some, length, codes, text_eq, text_eq_iff, to_lower, arith,
}
use interactsh.Storage.Lines.{IsLine}
use interactsh.Storage.Types.{id_exists}
use interactsh.Storage.Sessions.{set_with_key, set_id_public_key, add_interaction_with_id}
use interactsh.Storage.Polling.{
  get_interactions, get_interactions_with_id_for_consumer, remove_consumer,
}
use interactsh.Storage.Cipher
use interactsh.Storage.Base64
use interactsh.Storage.Spec.{push, poll, leave}
use interactsh.Storage.Refine.Trim.{contents, view, IsReadable}
use interactsh.Storage.Refine.Compact.{limit, ttl}
use interactsh.Storage.Refine.Calls.{
  get_interactions_with_id_for_consumer-poll, remove_consumer-leave, add_interaction_with_id-push,
}
use interactsh.Storage.Refine.Bounds.{shared_buffer-bounded}
use interactsh.Storage.Access.{get_interactions-drains, set_id_public_key-fresh}
use interactsh.Storage.Isolation.{IsWf, Isolates}
use interactsh.Storage.Isolation.Steps.{
  adds_with_id, target, perform, called, subject, Step-Isolates,
}
use interactsh.Tests.World.{small_world, small_state, disk_state, a_data}

a-IsLine : IsLine (codes "x")
a-IsLine = record { nonempty = λ e. cc; no_newline = ((λ e. omega arith), tt) }

small-IsReadable : IsReadable disk_state (codes "a")
unfolding IsReadable
small-IsReadable = inr (codes "x\ny", refl)

a_held : small_world.cache.find disk_state.cache (codes "a") ≡ some 0
unfolding text_eq
a_held = refl

a_in_memory : small_world.cache.find small_state.cache (codes "a") ≡ some 0
unfolding text_eq
a_in_memory = refl

t_held : small_world.cache.find disk_state.cache (codes "t") ≡ some 1
unfolding text_eq
t_held = refl

s_agrees : small_world.equal_fold (small_state.heap 0).secret_key (codes "S") ≡ true
unfolding to_lower text_eq
s_agrees = refl

n_registers : (set_id_public_key disk_state (codes "n") (codes "s") (codes "QUJD")).0 ≡ none
unfolding set_id_public_key text_eq Cipher.parse_b64_rsa_public_key_from_pem Base64.decode
    set_with_key Cipher.rand_read
n_registers = refl

get_interactions_with_id_for_consumer-poll_example :
    let r = get_interactions_with_id_for_consumer disk_state (codes "a") (codes "c") 7 in
    (r.0 ≡ (
      (poll (limit disk_state) (ttl disk_state) (codes "c") 7 (view disk_state 0 (codes "a"))).0,
      none,
    ))
    × (view r.1 0 (codes "a")
        ≡ (poll
            (limit disk_state)
            (ttl disk_state)
            (codes "c")
            7
            (view disk_state 0 (codes "a"))).1)
get_interactions_with_id_for_consumer-poll_example =
    get_interactions_with_id_for_consumer-poll disk_state 0 7 (codes "a") (codes "c") a_held
      small-IsReadable

remove_consumer-leave_example :
    view (remove_consumer disk_state (codes "a") (codes "c") 7) 0 (codes "a")
    ≡ leave (limit disk_state) (ttl disk_state) (codes "c") 7 (view disk_state 0 (codes "a"))
remove_consumer-leave_example =
    remove_consumer-leave disk_state 0 7 (codes "a") (codes "c") a_held small-IsReadable

add_interaction_with_id-push_example :
    let r = add_interaction_with_id disk_state (codes "t") (codes "x") in
    (r.0 ≡ none) × (view r.1 1 (codes "t") ≡ push (codes "x") (view disk_state 1 (codes "t")))
add_interaction_with_id-push_example =
    add_interaction_with_id-push disk_state 1 (codes "t") (codes "x") t_held refl a-IsLine

shared_buffer-bounded_example :
    (length (
        contents
          (get_interactions_with_id_for_consumer disk_state (codes "a") (codes "c") 7).1
          0
          (codes "a"))
      ≤ limit disk_state)
    × (length (contents (remove_consumer disk_state (codes "a") (codes "c") 7) 0 (codes "a"))
        ≤ limit disk_state)
shared_buffer-bounded_example =
    shared_buffer-bounded disk_state 0 7 (codes "a") (codes "c") a_held small-IsReadable

get_interactions-drains_example :
    (length (get_interactions small_state (codes "a") (codes "S")).0.0
      ≡ length (contents small_state 0 (codes "a")))
    × ((get_interactions small_state (codes "a") (codes "S")).0.1 ≡ a_data.aes_key_encrypted)
    × (contents (get_interactions small_state (codes "a") (codes "S")).1 0 (codes "a") ≡ [])
get_interactions-drains_example =
    get_interactions-drains small_state 0 (codes "a") (codes "S") a_in_memory s_agrees (λ e. cc)

set_id_public_key-fresh_example :
    let t = (set_id_public_key disk_state (codes "n") (codes "s") (codes "QUJD")).1 in
    (small_world.cache.find disk_state.cache (codes "n") ≡ none)
    × (small_world.cache.find t.cache (codes "n") ≡ some 2)
    × ((t.heap 2).secret_key ≡ codes "s")
    × (contents t 2 (codes "n") ≡ [])
    × ((set_id_public_key t (codes "n") (codes "u") (codes "v")).0 ≡ some id_exists)
set_id_public_key-fresh_example =
    set_id_public_key-fresh disk_state (codes "n") (codes "s") (codes "QUJD") (codes "u")
      (codes "v") n_registers

small-IsWf : IsWf small_state
small-IsWf = record {
  in_use = λ k p e. ground arith;
  apart = λ k j p e g. ground (
    arith,
    text_eq_iff k (codes "a"),
    text_eq_iff k (codes "t"),
    text_eq_iff j (codes "a"),
    text_eq_iff j (codes "t"),
  );
}

Step-Isolates_example :
    Isolates (codes "t") small_state (perform (adds_with_id (codes "t") (codes "x")) small_state)
unfolding subject target
Step-Isolates_example =
    Step-Isolates (called (adds_with_id (codes "t") (codes "x")) refl) small-IsWf
