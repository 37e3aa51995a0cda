-- ===== src/Server/Http/Updates.antt =====
-- The endpoints of storeHandler and apidocsHandler in pkg/server/http_server.go, over several
-- requests.
use interactsh.Prelude.{
  ℕ, ◌+◌, ◌<◌, ◌≡◌, refl, true, false, ◌++◌, none, some, arith, Text, codes, is_empty, text_eq,
  text_eq_refl, lookup-insert,
}
use interactsh.Server.Dns.Types.{has_prefix}
use interactsh.Server.Http.Types.{Request, bytes, json_body, status_ok, status_too_many_requests}
use interactsh.Server.Http.Endpoints.{
  Endpoint, Endpoints, StoreReq, day, check_endpoint, write_endpoint, validate, store_handler,
  trim_prefix, apidocs_handler,
}

trim_prefix-apidocs : (x : Text) → trim_prefix (codes "/apidocs/" ++ x) (codes "/apidocs/") ≡ x
unfolding trim_prefix has_prefix text_eq
trim_prefix-apidocs x = refl

module _ (m : Endpoints) (req : Request) (sreq : StoreReq) (now : ℕ) where
  abbrev written : Endpoint
  written = record { body = sreq.body; content_type = sreq.content_type; last_updated = now }

  -- An endpoint that was registered, by a POST with a suburl, is served with the body of the
  -- request; and another request for the same suburl is refused for a day, and changes nothing.
  pub store_handler-serves :
      (later : ℕ) (other : StoreReq)
      → text_eq req.method (codes "POST") ≡ true
      → is_empty sreq.sub_url ≡ false
      → check_endpoint m sreq now ≡ none
      → later < now + day
      → other.sub_url ≡ sreq.sub_url
      → let t = (store_handler req (some sreq) now m).1 in
        ((store_handler req (some sreq) now m).0.status ≡ status_ok)
        × ((apidocs_handler (codes "/apidocs/" ++ sreq.sub_url) t).body ≡ bytes sreq.body)
        × ((store_handler req (some other) later t).0.status ≡ status_too_many_requests)
        × ((store_handler req (some other) later t).1 ≡ t)
  unfolding store_handler validate check_endpoint write_endpoint apidocs_handler json_body
  store_handler-serves later other post named free soon same = ground (
    arith,
    post,
    named,
    free,
    trim_prefix-apidocs sreq.sub_url,
    lookup-insert sreq.sub_url sreq.sub_url written m,
    text_eq_refl sreq.sub_url,
  )
