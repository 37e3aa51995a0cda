-- ===== src/Tests/Pages.antt =====
-- The pages of the HTTP server, on a new recorder.
use interactsh.Prelude.{
  ◌≡◌, refl, true, false, List, [], ◌∷◌, ◌++◌, none, some, arith, text_eq, Text, codes, Option,
  lookup,
}
use interactsh.Storage.Base64.{decode}
use interactsh.Server.Options.{Utilities}
use interactsh.Server.Dns.Types.{has_prefix}
use interactsh.Server.Http.Types.{Request}
use interactsh.Server.Http.Pages.{Site, json, b64_prefix, last_index}
use interactsh.Server.Http.Dynamic.{
  HttpLib, pos, Effect, write_response, page_effects, header_values,
}
use interactsh.Server.Http.Recorder.{HeaderLib, Recorder, apply_all, sent, result, typed}
use interactsh.Server.Http.Writing.{
  b64_path, added, query_body, write_response-b64_body, write_response-panics,
}
use interactsh.Server.Http.Sending.{IsFresh, IsSent, page_effects-IsSent}
use interactsh.Tests.Settings.{small_options, small_request, small_utilities}

abbrev small_names : HeaderLib
small_names = record { canonical = λ k. k; detect = λ body. codes "text/plain" }

abbrev no_static : Recorder → Option Recorder
no_static r = some r

-- httptest.NewRecorder
abbrev new_recorder : Recorder
new_recorder = record {
  code = pos 200;
  header = [];
  body = [];
  wrote_header = false;
  snapshot = [];
}

abbrev small_lib : HttpLib
small_lib = record {
  atoi = λ t. (pos 0, false);
  decode_string = λ t. elim (decode t) [ none ↦ [] | some m ↦ m ];
  replace_domain = λ t domain. t;
}

-- A request for a body with headers in the query.
abbrev b64_request : Request
b64_request = record small_request {
  path = b64_path (codes "A");
  query = (codes "header", codes "A:b" ∷ []) ∷ [];
}

abbrev unfinished_request : Request
unfinished_request = record small_request { path = codes "/b64_body:QQ==" }

-- has_prefix_i of small_utilities is never true, so that a request for a body needs another.
abbrev prefixing : Utilities
prefixing = record small_utilities { has_prefix_i = λ t prefix. has_prefix t prefix }

decodes : (t m : Text) → decode t ≡ some m → small_lib.decode_string t ≡ m
decodes t m e = rw (small_lib, e) refl

b64_prefixed : prefixing.has_prefix_i b64_request.path b64_prefix ≡ true
unfolding has_prefix text_eq
b64_prefixed = refl

write_response-b64_body_example :
    (effects : List Effect) × (after : Recorder) × (write_response small_lib prefixing b64_request
      ≡ some effects)
    × (apply_all small_names no_static effects new_recorder ≡ some after)
    × ((sent after).status ≡ pos 200)
    × ((sent after).body ≡ ([] ++ codes "A") ++ query_body small_lib b64_request)
    × ((sent after).header
        ≡ added small_names (header_values b64_request) (typed small_names (codes "A") []))
    × ((result after).header ≡ typed small_names (codes "A") [])
write_response-b64_body_example =
    write_response-b64_body small_lib prefixing small_names no_static (codes "A") b64_request
      new_recorder (omega arith, tt) decodes refl b64_prefixed refl

unfinished_prefixed : prefixing.has_prefix_i unfinished_request.path b64_prefix ≡ true
unfolding has_prefix text_eq
unfinished_prefixed = refl

unfinished_last : last_index b'/' unfinished_request.path ≡ some 0
unfolding last_index
unfinished_last = refl

write_response-panics_example : write_response small_lib prefixing unfinished_request ≡ none
write_response-panics_example =
    write_response-panics small_lib prefixing unfinished_request unfinished_prefixed unfinished_last

abbrev plain_site : Site
plain_site = record { default_response = []; has_static_handler = false }

new_recorder-IsFresh : IsFresh new_recorder
unfolding lookup
new_recorder-IsFresh = record { unwritten = refl; untyped = refl; unencoded = refl }

page_effects-IsSent_example :
    (effects : List Effect) × (page_effects small_lib prefixing small_options plain_site []
        (codes "o.st")
        small_request
        (json (codes "r"))
      ≡ some effects)
    × IsSent small_names no_static effects new_recorder (some (codes "application/json"))
page_effects-IsSent_example =
    page_effects-IsSent small_lib prefixing small_options plain_site small_names no_static []
      (codes "o.st") small_request new_recorder (json (codes "r")) refl refl new_recorder-IsFresh
