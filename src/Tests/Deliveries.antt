-- ===== src/Tests/Deliveries.antt =====
-- The theorems on the way from the storage to a client, at a small world.
use interactsh.Prelude.{
  lookup, Bool, true, false, List, ◌++◌, ◌≢◌, ap, ℕ, All, Option, Text, subst, if◌then◌else◌, ◌==◌,
  ==_iff, Bool-cases, ◌≡◌, refl, ◌∷◌, [], none, some, map, codes, text_eq, text_eq_iff, arith,
}
use interactsh.Storage.Base64
use interactsh.Storage.Cipher
use interactsh.Storage.Libraries.{DbReply, found, not_found, rsa_key, failed}
use interactsh.Storage.Types.{StorageDb, use_disk}
use interactsh.Storage.Sessions.{
  set_with_key, set_id_public_key, add_interaction, add_interaction_with_id, store_interaction,
  append_record,
}
use interactsh.Storage.Isolation.{IsWf}
use interactsh.Storage.Isolation.Steps.{adds_with_id, target, perform, called, subject}
use interactsh.Storage.Base64.Decoding.{IsByte}
use interactsh.Client.Keys.{KeyLib, encode_public_key}
use interactsh.Client.Messages.{decrypt_message}
use interactsh.Client.Messages
use interactsh.Client.Messages.{ClientLib, trim_right, receive_extra, receive_tld}
use interactsh.Server.Options.{no_interaction}
use interactsh.Server.Http.Types.{Request, HttpState, PollResponse, polled, status_ok}
use interactsh.Server.Http.Sessions.{RegisterRequest, register_handler, poll_handler, query_get}
use interactsh.EndToEnd.Delivery.{Waits, registered, stores, minds_others}
use interactsh.EndToEnd.Polls.{Sent, poll_handler-delivers}
use interactsh.Tests.Settings.{small_options, small_request, no_metrics}
use interactsh.Tests.World.{small_world, small_crypto, disk_state}

disk-IsWf : IsWf disk_state
disk-IsWf = record {
  in_use = λ k p e. ground arith;
  apart = λ k j p e g. ground (
    arith,
    text_eq_iff k (codes "a"),
    text_eq_iff k (codes "t"),
    text_eq_iff j (codes "a"),
    text_eq_iff j (codes "t"),
  );
}

abbrev pub first : Text → Option ℕ
first [] = none
first (x ∷ xs) = some x

abbrev pub small_marshal_pkix : ℕ → Option Text
small_marshal_pkix k = if k == 0 then some (codes "ABC") else none

pub small_marshal_pkix-IsByte : (k : ℕ) (t : Text) → small_marshal_pkix k ≡ some t → All IsByte t
small_marshal_pkix-IsByte k t e =
    let same : codes "ABC" ≡ t = ground (arith, e, Bool-cases (k == 0)) in
    subst (All IsByte) same (omega arith, (omega arith, (omega arith, tt)))

pub small_pkix :
    (k : ℕ) (t : Text)
    → small_marshal_pkix k ≡ some t
    → small_crypto.parse_pkix_public_key t ≡ some (rsa_key k)
small_pkix k t e = ground (arith, ==_iff k 0)

abbrev pub small_keys : KeyLib small_crypto
small_keys = record {
  marshal_pkcs1 = λ k. k ∷ [];
  parse_pkcs1 = first;
  marshal_pkix = small_marshal_pkix;
  pem_encode = λ t. t;
  marshal_request = λ r. some [];
  parse_pkcs1-marshal_pkcs1 = λ k. refl;
  parse_pkix-marshal_pkix = small_pkix;
  pem_decode-pem_encode = λ t. refl;
  marshal_pkix-IsByte = small_marshal_pkix-IsByte;
  pem_encode-IsByte = λ t b. b;
}

n_written : encode_public_key small_crypto small_keys 0 ≡ some (codes "QUJD")
unfolding encode_public_key Base64.encode
n_written = refl

abbrev n_request : RegisterRequest
n_request = record { public_key = codes "QUJD"; secret_key = codes "s"; correlation_id = codes "n" }

abbrev before : HttpState small_world
before = record { storage = disk_state; stats = no_metrics }

n_registers : (register_handler small_options (some n_request) before).0.status ≡ status_ok
unfolding register_handler set_id_public_key text_eq Cipher.parse_b64_rsa_public_key_from_pem
    Base64.decode set_with_key Cipher.rand_read
n_registers = refl

abbrev registered_n : StorageDb small_world
registered_n = (register_handler small_options (some n_request) before).1.storage

abbrev one_stored : StorageDb small_world
one_stored = (add_interaction registered_n (codes "n") (codes "hi")).1

-- Between the registration of "n" and its poll, an interaction is stored for it, an entry for
-- the id "t" of the server, and another one for it.
abbrev other_minded : StorageDb small_world
other_minded = perform (adds_with_id (codes "t") (codes "x")) one_stored

abbrev after : HttpState small_world
after = record {
  storage = (add_interaction other_minded (codes "n") (codes "you")).1;
  stats = no_metrics;
}

-- An interaction is encoded as its request.
abbrev small_client : ClientLib
small_client = record {
  unmarshal = λ t. some (record no_interaction { raw_request = t });
  says_not_found = λ t. false;
}

abbrev sent : (t : Text) → trim_right t ≡ t → Sent small_client
sent t trimmed = record {
  interaction = record no_interaction { raw_request = t };
  text = t;
  decodes = ap small_client.unmarshal trimmed;
}

hi_trimmed : trim_right (codes "hi") ≡ codes "hi"
unfolding trim_right
hi_trimmed = refl

you_trimmed : trim_right (codes "you") ≡ codes "you"
unfolding trim_right
you_trimmed = refl

abbrev two_sent : List (Sent small_client)
two_sent = sent (codes "hi") hi_trimmed ∷ sent (codes "you") you_trimmed ∷ []

n-Waits : Waits (codes "n") registered_n (codes "hi" ∷ codes "you" ∷ []) after.storage
unfolding text_eq subject target
n-Waits =
    stores
      (minds_others (stores registered (codes "hi") refl (omega arith, (omega arith, tt)) refl)
        (called (adds_with_id (codes "t") (codes "x")) refl) refl)
      (codes "you") refl (omega arith, (omega arith, (omega arith, tt))) refl

abbrev n_poll : Request
n_poll = record small_request {
  query = (codes "id", codes "n" ∷ []) ∷ (codes "secret", codes "s" ∷ []) ∷ [];
}

abbrev is_failed : DbReply → Bool
is_failed failed = true
is_failed (found raw) = false
is_failed not_found = false

n_answered : is_failed (small_world.db.get after.storage.db (codes "n")) ≡ false
unfolding add_interaction perform add_interaction_with_id register_handler set_id_public_key text_eq
    Cipher.parse_b64_rsa_public_key_from_pem Base64.decode set_with_key Cipher.rand_read
    store_interaction use_disk Cipher.aes_encrypt append_record
n_answered = refl

n_answers : small_world.db.get after.storage.db (codes "n") ≢ failed
n_answers e = absurd (ground (arith, n_answered, ap is_failed e))

poll_handler-delivers_example :
    (r : PollResponse) × ((poll_handler small_options n_poll 9 after).0
      ≡ record { status = status_ok; headers = []; body = polled r })
    × (Messages.get_interactions small_crypto small_client 0 (Messages.answered r) ≡ (
      none,
      map (λ s. s.interaction) two_sent
          ++ (receive_extra small_crypto small_client 0 r.extra
              ++ receive_tld small_crypto small_client 0 r.tld_data),
    ))
unfolding query_get lookup text_eq
poll_handler-delivers_example =
    poll_handler-delivers small_world 0 small_client small_keys small_options before after n_request
      n_poll 9 two_sent disk-IsWf n_written n_registers n-Waits refl refl refl refl n_answers
