-- ===== src/Server/Http/Endpoints.antt =====
-- storeHandler and apidocsHandler of pkg/server/http_server.go. The look-up and the write of
-- storeHandler are two critical sections, with the lock given back between them.
use interactsh.Prelude.{
  ℕ, ◌-◌, [], ◌∷◌, Option, none, some, ltb, if◌then◌else◌, Text, codes, text_eq, Assoc, lookup,
  insert, is_empty, drop, length,
}
use interactsh.Server.Dns.Types.{has_prefix}
use interactsh.Server.Http.Types.{
  Request, json_error, json_msg, bytes, Answer, json_body, status_ok, status_bad_request,
  status_not_found, status_method_not_allowed, status_too_many_requests,
}

pub record Endpoint : Type 0 where
  pub body : Text
  pub content_type : Text
  pub last_updated : ℕ

abbrev pub Endpoints : Type 0
Endpoints = Assoc Endpoint

-- The decoded body of /storerequest.
pub record StoreReq : Type 0 where
  pub body : Text
  pub content_type : Text
  pub sub_url : Text

-- 24 hours, in nanoseconds.
abbrev pub day : ℕ
day = 86400000000000

-- The first critical section: `some` is the answer of a request that is refused.
unfoldable pub check_endpoint : Endpoints → StoreReq → ℕ → Option Answer
unfolding json_body
check_endpoint m sreq now = elim (lookup sreq.sub_url m) [
  | none ↦ none
  | some de ↦
      if ltb (now - de.last_updated) day
      then some (
          json_body (json_error (codes "suburl can only be updated every 24 hours"))
            status_too_many_requests)
      else none
]

-- The second critical section.
unfoldable pub write_endpoint : Endpoints → StoreReq → ℕ → Endpoints
write_endpoint m sreq now =
    insert sreq.sub_url
      (record { body = sreq.body; content_type = sreq.content_type; last_updated = now }) m

-- What is refused before the endpoints are read; a body that does not decode is `none`.
unfoldable pub validate : Request → Option StoreReq → Option Answer
unfolding json_body
validate req sreq =
    if text_eq req.method (codes "POST")
    then (elim sreq [
      | none ↦ some (json_body (json_error (codes "invalid request")) status_bad_request)
      | some r ↦
          if is_empty r.sub_url
          then some (json_body (json_error (codes "invalid request")) status_bad_request)
          else none
    ])
    else some (json_body (json_error (codes "method not allowed")) status_method_not_allowed)

-- storeHandler, of a request that no other comes between.
unfoldable pub store_handler : Request → Option StoreReq → ℕ → Endpoints → Answer × Endpoints
unfolding json_body
store_handler req none now m = elim (validate req none) [
  | none ↦ (json_body (json_error (codes "invalid request")) status_bad_request, m)
  | some answer ↦ (answer, m)
]
store_handler req (some sreq) now m = elim (validate req (some sreq)) [
  | some answer ↦ (answer, m)
  | none ↦ elim (check_endpoint m sreq now) [
    | some answer ↦ (answer, m)
    | none ↦
        (json_body (json_msg (codes "endpoint registered")) status_ok, write_endpoint m sreq now)
  ]
]

-- strings.TrimPrefix
unfoldable pub trim_prefix : Text → Text → Text
trim_prefix s prefix = if has_prefix s prefix then drop (length prefix) s else s

-- apidocsHandler
unfoldable pub apidocs_handler : Text → Endpoints → Answer
unfolding json_body trim_prefix
apidocs_handler url_path m =
    let path = trim_prefix url_path (codes "/apidocs/") in
    if is_empty path
    then json_body (json_error (codes "no suburl provided")) status_not_found
    else elim (lookup path m) [
      | none ↦ json_body (json_error (codes "not found")) status_not_found
      | some de ↦ record {
        status = status_ok;
        headers =
            if is_empty de.content_type then [] else (codes "Content-Type", de.content_type) ∷ [];
        body = bytes de.body;
      }
    ]
