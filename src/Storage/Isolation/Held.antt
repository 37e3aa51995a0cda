-- ===== src/Storage/Isolation/Held.antt =====
-- AddInteractionWithId, GetInteractionsWithIdForConsumer and RemoveConsumer
-- (pkg/storage/storagedb.go) on an id that the cache holds.
use interactsh.Prelude.{ℕ, ◌≡◌, inl, inr, List, [], ◌∷◌, Option, none, some, Bool-cases, Text}
use interactsh.Storage.Libraries.{Libs, DbReply, found, not_found, failed}
use interactsh.Storage.Types.{StorageDb, Error, use_disk, db_error}
use interactsh.Storage.Lines.{nonempty_lines}
use interactsh.Storage.Sessions.{add_interaction_with_id}
use interactsh.Storage.Polling.{get_interactions_with_id_for_consumer, remove_consumer, read_unseen}
use interactsh.Storage.Frame.{
  Frame, Frame-refl, Frame-trans, Frame-set_value, Frame-compact, Frame-read_unseen, Frame-store,
}

module _ {L : Libs} where
  abbrev pub touched : StorageDb L → Text → StorageDb L
  touched s id = record s { cache = L.cache.touch s.cache id }

  module _ (s : StorageDb L) (p : ℕ) (id : Text) (held : L.cache.find s.cache id ≡ some p) where
    pub Frame-adds :
        (x : ℕ) (item : Text)
        → Frame p id (touched s id) (add_interaction_with_id s id (x ∷ item)).1
    unfolding add_interaction_with_id
    Frame-adds x item = rw held (Frame-store p id (touched s id) (x ∷ item))

    pub Frame-reads :
        (c : Text) (now : ℕ)
        → Frame p id (touched s id) (get_interactions_with_id_for_consumer s id c now).1
    unfolding get_interactions_with_id_for_consumer
    Frame-reads c now = elim (Bool-cases (use_disk s.options)) [
      | inl disk ↦ rw held (rw disk (on_disk (L.db.get s.db id)))
      | inr memory ↦
          rw held (rw memory (Frame-read_unseen p id (touched s id) c now (s.heap p).items))
    ]
      where
        on_disk :
            (r : DbReply)
            → Frame p id
                (touched s id)
                (elim r as (λ r. (List Text × Option Error) × StorageDb L) [
                  | found raw ↦
                      (let (unseen, s'') =
                          read_unseen (touched s id) p id c now (nonempty_lines raw) in
                        ((unseen, none), s''))
                  | not_found ↦ (([], none), touched s id)
                  | failed ↦ (([], some db_error), touched s id)
                ]).1
        on_disk (found raw) = Frame-read_unseen p id (touched s id) c now (nonempty_lines raw)
        on_disk not_found = Frame-refl p id (touched s id)
        on_disk failed = Frame-refl p id (touched s id)

    pub Frame-leaves : (c : Text) (now : ℕ) → Frame p id (touched s id) (remove_consumer s id c now)
    unfolding remove_consumer
    Frame-leaves c now =
        rw held
          (Frame-trans p id (Frame-set_value p id (touched s id) _) (Frame-compact p id _ now))
