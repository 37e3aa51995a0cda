-- ===== src/Tests/Servers.antt =====
-- The theorems on the protocol servers at small requests.
use interactsh.Prelude.{
  ◌≡◌, ◌≢◌, refl, true, false, ℕ, zero, suc, ◌+◌, List, [], ◌∷◌, ◌&&◌, none, some, All, Text, codes,
  text_eq, lookup, to_lower,
}
use interactsh.Storage.Isolation.Steps.{Call, adds, adds_with_id}
use interactsh.Server.Options.{bump}
use interactsh.Server.Targets.{IsAllowed}
use interactsh.Server.Targets.Servers.{handle_interaction-IsAllowed}
use interactsh.Server.Targets.Mail.{
  HasAt, some_bare, default_mail_handler-IsAllowed, default_mail_handler-returns,
  default_mail_handler-panics,
}
use interactsh.Client.Registration.{is_none}
use interactsh.Server.Smtp.{slice_from, Mail, root_mail_calls, mail_matches, default_mail_handler}
use interactsh.Server.Targets.Ldap.{IsAllowedAct, handle_ldap-IsAllowed}
use interactsh.Server.Ldap.Answers.{codes_of, calls_of, logs_of, expected_codes, expected_logs}
use interactsh.Server.Ldap.Answers.Served.{message_count, serve_ldap-IsAnswered}
use interactsh.Server.Ldap.Handlers.{bind, search, handle_ldap, serve_ldap}
use interactsh.Server.Dns.Serve
use interactsh.Server.Ids.{last_match, ids_among, is_correlation_id}
use interactsh.Server.Dns.Serve.{DnsRequest, handle_interaction, is_challenge, serve_dns}
use interactsh.Server.Http.Pages.{last_index}
use interactsh.Server.Acme.{
  Record, Provider, append_records, delete_records, get_records, compare_records,
}
use interactsh.Server.Challenges.{challenge-round, delete_records-panics}
use interactsh.Server.Dns.Types.{has_prefix}
use interactsh.Server.Dns.Serve.{dns_challenge_string}
use interactsh.Tests.Settings.{
  root_options, small_utilities, small_net, small_server, challenge_question, dns_request,
  no_metrics,
}

handle_interaction-IsAllowed_example : All (IsAllowed root_options) (
    handle_interaction small_utilities small_net small_server dns_request challenge_question
      (codes "r"))
handle_interaction-IsAllowed_example =
    handle_interaction-IsAllowed small_utilities small_net small_server dns_request
      challenge_question (codes "r")

handle_ldap-IsAllowed_example :
    All
      (IsAllowedAct root_options)
      (handle_ldap small_utilities root_options true
        (search (codes "abc") (codes "f") [] [])
        (codes "h")
        1
        no_metrics).1
handle_ldap-IsAllowed_example =
    handle_ldap-IsAllowed small_utilities root_options true (search (codes "abc") (codes "f") [] [])
      (codes "h") 1 no_metrics

-- The library logs one message before the first act.
abbrev one_message : ℕ → List (List Text)
one_message zero = (codes "read" ∷ []) ∷ []
one_message (suc k) = []

serve_ldap-IsAnswered_example :
    let served =
      serve_ldap small_utilities root_options true one_message
        (bind [] [] [])
        (codes "h")
        1
        no_metrics in
    (served.0 ≡ record no_metrics { ldap = bump no_metrics.ldap })
    × (codes_of served.1 ≡ expected_codes (bind [] [] []))
    × (logs_of (calls_of served.1)
        ≡ message_count one_message 0
            (handle_ldap small_utilities root_options true
              (bind [] [] [])
              (codes "h")
              1
              no_metrics).1
          + expected_logs small_utilities root_options (bind [] [] []))
serve_ldap-IsAnswered_example =
    serve_ldap-IsAnswered small_utilities root_options (λ i e. cc) one_message (bind [] [] [])
      (codes "h") 1 no_metrics

abbrev small_mail : Mail
small_mail = record {
  host = codes "h";
  from = codes "f@x";
  to = codes "abc@abc.o.st" ∷ [];
  content = codes "m";
  now = 1;
}

abc-HasAt : HasAt (codes "abc@abc.o.st")
unfolding last_index
abc-HasAt e = cc

abbrev bare_mail : Mail
bare_mail = record small_mail { to = codes "o.st" ∷ [] }

default_mail_handler-returns_example :
    default_mail_handler small_utilities root_options small_mail no_metrics ≢ none
default_mail_handler-returns_example =
    default_mail_handler-returns small_utilities root_options small_mail no_metrics (abc-HasAt, tt)

default_mail_handler-panics_example :
    is_none (default_mail_handler small_utilities root_options bare_mail no_metrics)
    ≡ (true && some_bare small_utilities root_options bare_mail.to)
default_mail_handler-panics_example =
    default_mail_handler-panics small_utilities root_options bare_mail no_metrics

abbrev first_record : Record
first_record = record { kind = codes "TXT"; name = codes "n"; content = codes "1"; ttl = 60 }

abbrev second_record : Record
second_record = record first_record { content = codes "2" }

abbrev challenge_zone : Text
challenge_zone = codes "_acme-challenge.o.st."

zone_is_challenge : has_prefix (to_lower challenge_zone) dns_challenge_string ≡ true
unfolding has_prefix text_eq to_lower
zone_is_challenge = refl

challenge-round_example :
    let shown = (append_records challenge_zone (first_record ∷ []) []).1 in
    (get_records challenge_zone shown ≡ some (first_record ∷ []))
    × (q : Provider) × (delete_records challenge_zone (first_record ∷ []) shown
        ≡ some (first_record ∷ [], q))
    × (get_records challenge_zone q ≡ some [])
challenge-round_example = challenge-round challenge_zone first_record [] zone_is_challenge

abbrev two_records : Provider
two_records = (codes "z", first_record ∷ second_record ∷ []) ∷ []

z_held : lookup (codes "z") two_records ≡ some (first_record ∷ second_record ∷ [])
unfolding lookup text_eq
z_held = refl

first_differs : compare_records first_record second_record ≡ false
unfolding compare_records text_eq
first_differs = refl

second_differs : compare_records second_record first_record ≡ false
unfolding compare_records text_eq
second_differs = refl

delete_records-panics_example :
    delete_records (codes "z") (first_record ∷ second_record ∷ []) two_records ≡ none
delete_records-panics_example =
    delete_records-panics (codes "z") first_record second_record two_records z_held first_differs
      second_differs

abbrev mail_calls : List Call
mail_calls = adds_with_id (codes "o.st") (codes "m") ∷ adds (codes "ab") (codes "m") ∷ []

mail_handled :
    default_mail_handler small_utilities root_options small_mail no_metrics
    ≡ some (record no_metrics { smtp = 1 }, mail_calls)
unfolding default_mail_handler slice_from bump root_mail_calls mail_matches last_match Serve.call_of
    ids_among is_correlation_id
mail_handled = refl

default_mail_handler-IsAllowed_example : All (IsAllowed root_options) mail_calls
default_mail_handler-IsAllowed_example =
    default_mail_handler-IsAllowed small_utilities root_options small_mail no_metrics
      (record no_metrics { smtp = 1 }) mail_calls mail_handled
