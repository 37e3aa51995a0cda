-- ===== src/Tests/Registrations.antt =====
-- The theorems on how a client finds and keeps a server, at a small world.
use interactsh.Prelude.{
  ◌≡◌, refl, true, false, List, [], ◌∷◌, ◌++◌, Option, none, some, Text, codes, if◌then◌else◌, drop,
  text_eq, arith, subst,
}
use interactsh.Storage.Base64
use interactsh.Storage.Lines.{split}
use interactsh.Server.Dns.Types.{has_prefix}
use interactsh.Client.Lifecycle.{Reply, no_answer, answered}
use interactsh.Client.Registration.{
  Url, UrlLib, Attempt, Registration, is_none, is_some, parse_server_urls, register_func, make_req,
  visit, attempt, with_scheme,
}
use interactsh.Client.Registration.Attempts.{IsOpen, IsSettled}
use interactsh.Client.Registration.Visits.{parse_server_urls-IsSettled}
use interactsh.Client.Registration.Schemes.{IsSecure, parse_server_urls-IsSecure}
use interactsh.Client.Settings.{SessionInfo, ClientOptions, check_lengths, or_default}
use interactsh.Client.Creation.{Made, Environment, created, saved, check_tls, new, save_session_to}
use interactsh.Client.Keys.{encode_public_key}
use interactsh.Client.Creation.Resumption.{IsResumed, new-save_session_to}
use interactsh.Tests.World.{small_crypto}
use interactsh.Tests.Deliveries.{small_keys}
use interactsh.Tests.Clients.{new_client}
use interactsh.Prelude.{All}

abbrev small_parse : Text → Option Url
small_parse t =
    if has_prefix t (codes "https://")
    then some (record { scheme = codes "https"; rest = drop 8 t })
    else if has_prefix t (codes "http://")
    then some (record { scheme = codes "http"; rest = drop 7 t })
    else none

abbrev pub small_urls : UrlLib
small_urls = record {
  parse = small_parse;
  text = λ u. u.scheme ++ (codes "://" ++ u.rest);
  host = λ u. u.rest;
}

-- Only "b" registers, and only over http.
abbrev b_answers : List Attempt → Text → Reply
b_answers attempts url =
    if text_eq url (codes "http://b/register")
    then answered (codes "registration successful")
    else no_answer

abbrev looking : Registration
looking = record {
  client = new_client;
  server_url = none;
  attempts = [];
  errors = [];
  panics = false;
}

abbrev in_order : List Text → List Text
in_order values = values

looking-IsOpen : IsOpen looking
looking-IsOpen = record { none_yet = refl; all_failed_yet = tt }

two_values : split 44 (codes "a,b") ≡ codes "a" ∷ codes "b" ∷ []
unfolding split
two_values = refl

abbrev looked : Option interactsh.Client.Registration.RegistrationError × Registration
looked = parse_server_urls small_urls b_answers in_order false (codes "a,b") looking

parse_server_urls-IsSettled_example :
    IsSettled looked.1.attempts looked.1.server_url
    × (is_none looked.0 ≡ is_some looked.1.server_url)
unfolding split
parse_server_urls-IsSettled_example =
    parse_server_urls-IsSettled small_urls b_answers in_order false (codes "a,b") looking
      looking-IsOpen refl

small_parse-https :
    (t : Text) (u : Url)
    → has_prefix t (codes "https://") ≡ true
    → small_parse t ≡ some u
    → u.scheme ≡ codes "https"
small_parse-https t u h e = ground (arith, h, e)

parse_server_urls-IsSecure_example :
    All IsSecure
      (parse_server_urls small_urls b_answers in_order true (codes "a,b") looking).1.attempts
unfolding split has_prefix text_eq
parse_server_urls-IsSecure_example =
    parse_server_urls-IsSecure small_urls b_answers small_parse-https in_order (codes "a,b") looking
      (refl, (refl, tt)) tt

abbrev https_b : Url
https_b = record { scheme = codes "https"; rest = codes "b" }

abbrev made_b : Made small_crypto
made_b = record {
  client = new_client;
  secret_key = codes "s";
  token = codes "k";
  priv_key = some 0;
  pub_key = 0;
  server_url = some https_b;
  disable_http_fallback = false;
  correlation_id_length = 1;
}

abbrev saved_b : SessionInfo
saved_b = record {
  server_url = codes "https://b";
  token = codes "k";
  private_key = 0 ∷ [];
  correlation_id = codes "c";
  secret_key = codes "s";
  public_key = codes "QUJD";
}

abbrev b_options : ClientOptions
b_options = record {
  server_url = [];
  token = [];
  disable_http_fallback = false;
  correlation_id_length = 1;
  correlation_id_nonce_length = 2;
  session_info = some saved_b;
  keep_alive_interval = 0;
}

abbrev pub b_environment : Environment small_crypto
b_environment = record {
  tls_verify = false;
  has_transport = true;
  verifies = λ url. true;
  xid = codes "x";
  uuid = codes "u";
  generated = none;
  shuffle = in_order;
  answers = b_answers;
}

b_is_saved : save_session_to small_crypto small_keys small_urls text_eq made_b ≡ saved saved_b
unfolding save_session_to encode_public_key Base64.encode
b_is_saved = refl

b_parses : (u : Url) → some https_b ≡ some u → small_parse (small_urls.text u) ≡ some u
unfolding has_prefix text_eq
b_parses u e =
    let same : https_b ≡ u = ground (arith, e) in
    subst (λ v. small_parse (small_urls.text v) ≡ some v) same refl

new-save_session_to_example :
    (m' : Made small_crypto) × (new small_crypto small_keys small_urls text_eq b_environment
        b_options
      ≡ created m')
    × IsResumed small_crypto small_keys small_urls text_eq made_b m'
unfolding has_prefix text_eq check_lengths or_default check_tls
new-save_session_to_example =
    new-save_session_to small_crypto small_keys small_urls text_eq b_environment b_options made_b
      saved_b b_parses (λ r. ([], refl)) (λ e. absurd (ground (arith, e))) b_is_saved refl refl refl
