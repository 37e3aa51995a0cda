-- ===== src/Storage/Refine/Runs.antt =====
-- Runs of the storage (pkg/storage/storagedb.go), seen from one consumer of one id.
use interactsh.Prelude.{
  ℕ, ◌≡◌, false, List, [], ◌∷◌, ◌++◌, some, if◌then◌else◌, Text, text_eq, delete,
}
use interactsh.Storage.Lines.{IsLine}
use interactsh.Storage.Libraries.{Libs}
use interactsh.Storage.Types.{StorageDb}
use interactsh.Storage.Sessions.{add_interaction_with_id}
use interactsh.Storage.Polling.{get_interactions_with_id_for_consumer, remove_consumer}
use interactsh.Storage.Spec.{mark}
use interactsh.Storage.Spec.Positions.{IsFresh}
use interactsh.Storage.Isolation.Steps.{Step, subject}
use interactsh.Storage.Refine.Trim.{view}
use interactsh.Storage.Refine.Compact.{ttl}

module _ {L : Libs} (id d : Text) where
  -- A run of the storage from one state to another, with what the polls of `d` return and what is
  -- stored under `id`, both in order. `d` is at no poll or departure older than the time to live,
  -- and does not leave; the steps of all other ids are free.
  pub data Runs : StorageDb L → List Text → List Text → StorageDb L → Type 0 where
    stops : {s : StorageDb L} → Runs s [] [] s
    adds :
        {s t : StorageDb L} {got put : List Text} (item : Text)
        → IsLine item
        → Runs (add_interaction_with_id s id item).1 got put t
        → Runs s got (item ∷ put) t
    polls :
        {s t : StorageDb L} {got put : List Text} (c : Text) (now p : ℕ)
        → L.cache.find s.cache id ≡ some p
        → IsFresh (ttl s) d now (mark c now (view s p id))
        → Runs (get_interactions_with_id_for_consumer s id c now).1 got put t
        → Runs s
            ((if text_eq c d then (get_interactions_with_id_for_consumer s id c now).0.0 else [])
              ++ got)
            put
            t
    leaves :
        {s t : StorageDb L} {got put : List Text} (c : Text) (now p : ℕ)
        → L.cache.find s.cache id ≡ some p
        → text_eq c d ≡ false
        → IsFresh (ttl s) d now (record (view s p id) {
          offsets = delete c (s.heap p).read_offsets;
          seen = delete c (s.heap p).last_seen;
        })
        → Runs (remove_consumer s id c now) got put t
        → Runs s got put t
    others :
        {s t u : StorageDb L} {got put : List Text} (st : Step s t)
        → text_eq (subject st) id ≡ false
        → Runs t got put u
        → Runs s got put u
