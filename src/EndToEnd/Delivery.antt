-- ===== src/EndToEnd/Delivery.antt =====
-- The delivery of a session's interactions, with whatever else the server does in between.
use interactsh.Prelude.{
  ◌≡◌, refl, sym, ◌∙◌, false, List, [], ◌∷◌, ◌++◌, none, some, subst, is_empty, All, Text, text_eq,
}
use interactsh.Storage.Base64.Decoding.{IsByte}
use interactsh.Storage.Libraries.{Libs}
use interactsh.Storage.Types.{StorageDb, use_disk}
use interactsh.Storage.Sessions.{set_id_public_key, add_interaction}
use interactsh.Storage.Isolation.{IsWf, Isolates}
use interactsh.Storage.Isolation.Steps.{
  Step, called, adds, registers, target, perform, subject, Step-Isolates,
}
use interactsh.Client.Keys.{KeyLib, encode_public_key}
use interactsh.Client.Creation.Resumption.{parse_b64_rsa_public_key_from_pem-encode_public_key}
use interactsh.EndToEnd.Sessions.{IsSession, Stores}
use interactsh.EndToEnd.Adding.{add_interaction-IsSession}
use interactsh.EndToEnd.Registering.{set_id_public_key-IsSession}

module _ {L : Libs} where
  -- What the server does while a session waits: it stores an interaction for the session, or it
  -- does a step about another id. The list is what it has stored for the session, in order.
  pub data Waits (id : Text) (s : StorageDb L) : List Text → StorageDb L → Type 0 where
    registered : Waits id s [] s
    stores :
        {items : List Text} {t u : StorageDb L}
        → Waits id s items t
        → (item : Text) → is_empty item ≡ false
        → All IsByte item
        → u ≡ (add_interaction t id item).1
        → Waits id s (items ++ (item ∷ [])) u
    minds_others :
        {items : List Text} {t u : StorageDb L}
        → Waits id s items t
        → (st : Step t u) → text_eq (subject st) id ≡ false
        → Waits id s items u

module _ (L : Libs) (k : L.crypto.PrivateKey) where
  -- A step about another id leaves a session as it is.
  Isolates-IsSession :
      (s t : StorageDb L) (other id secret : Text) (items : List Text)
      → text_eq other id ≡ false
      → Isolates other s t
      → IsSession L k s id secret items
      → IsSession L k t id secret items
  Isolates-IsSession s t other id secret items ne f h = record {
    value = h.value;
    held = f.values id ne ∙ h.held;
    named = h.named;
    keys = h.keys;
    bytes = h.bytes;
    stored =
        subst (λ o. Stores L k (use_disk o) h.value (L.db.get t.db id) items) (sym f.options)
          (subst (λ r. Stores L k (use_disk s.options) h.value r items) (sym (f.records id ne))
            h.stored);
  }

  Waits-IsSession :
      (id secret : Text) (s : StorageDb L) {items : List Text} {t : StorageDb L}
      → IsWf s
      → IsSession L k s id secret []
      → Waits id s items t
      → IsWf t × IsSession L k t id secret items
  unfolding subject target perform
  Waits-IsSession id secret s w h registered = (w, h)
  Waits-IsSession id secret s w h (stores {items = xs} {t = t} before item some_item b e) =
      let (tw, th) = Waits-IsSession id secret s w h before in
      (
        (Step-Isolates (called (adds id item) e) tw).wf,
        subst (λ u. IsSession L k u id secret (xs ++ (item ∷ []))) (sym e)
            (add_interaction-IsSession L k t id secret item xs some_item b th),
      )
  Waits-IsSession id secret s w h (minds_others before st ne) =
      let (tw, th) = Waits-IsSession id secret s w h before in
      let f = Step-Isolates st tw in (f.wf, Isolates-IsSession _ _ (subject st) id secret _ ne f th)

  -- After a registration with the text of the public key, and what the server does then, the id
  -- has a session.
  pub Waits-registered :
      (keys : KeyLib L.crypto) (s t : StorageDb L) (id secret pem : Text) (items : List Text)
      → IsWf s
      → encode_public_key L.crypto keys (L.crypto.public k) ≡ some pem
      → (set_id_public_key s id secret pem).0 ≡ none
      → Waits id (set_id_public_key s id secret pem).1 items t
      → IsSession L k t id secret items
  unfolding subject target perform
  Waits-registered keys s t id secret pem items w written ok waits =
      let parsed =
        parse_b64_rsa_public_key_from_pem-encode_public_key L.crypto keys (L.crypto.public k) pem
          written in
      let start = set_id_public_key-IsSession L k s id secret pem parsed ok in
      let w' = (Step-Isolates (called (registers id secret pem) refl) w).wf in
      (Waits-IsSession id secret (set_id_public_key s id secret pem).1 w' start waits).1
