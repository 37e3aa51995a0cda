-- ===== src/Client/Registration.antt =====
-- How a client finds a server (pkg/client/client.go): parseServerURLs, with its registerFunc, its
-- retry over http and its visits of the servers in a random order.
pub mod Attempts
pub mod Visits
pub mod Schemes
use interactsh.Prelude.{
  ℕ, zero, suc, Bool, true, false, not, ◌||◌, ◌&&◌, List, [], ◌∷◌, ◌++◌, Option, none, some,
  if◌then◌else◌, is_empty, length, take, Text, codes, text_eq,
}
use interactsh.Storage.Lines.{split}
use interactsh.Server.Dns.Types.{has_prefix}
use interactsh.Client.Lifecycle.{
  Client, ClientError, bad_url, request_failed, Reply, returned, panicked, perform_registration,
}

-- A url.URL: its scheme, and all else that it has.
pub record Url : Type 0 where
  pub scheme : Text
  pub rest : Text

-- url.Parse, URL.String and the field Host.
pub record UrlLib : Type 0 where
  pub parse : Text → Option Url
  pub text : Url → Text
  pub host : Url → Text

-- A request to register: where it went, and whether it registered the client.
pub record Attempt : Type 0 where
  pub target : Url
  pub registered : Bool

-- `attempts` are the requests so far, in order; once one `panics`, nothing more happens.
pub record Registration : Type 0 where
  pub client : Client
  pub server_url : Option Url
  pub attempts : List Attempt
  pub errors : List ClientError
  pub panics : Bool

pub data RegistrationError : Type 0 where
  invalid_server_url : RegistrationError
  all_failed : List ClientError → RegistrationError

unfoldable pub with_scheme : Text → Text
unfolding has_prefix
with_scheme value =
    if has_prefix value (codes "http://") || has_prefix value (codes "https://")
    then value
    else codes "https://" ++ value

abbrev pub is_none {ℓ} : {A : Type ℓ} → Option A → Bool
is_none none = true
is_none (some e) = false

abbrev pub is_some {ℓ} : {A : Type ℓ} → Option A → Bool
is_some none = false
is_some (some u) = true

abbrev pub add_error : Option ClientError → List ClientError → List ClientError
add_error none errors = errors
add_error (some e) errors = errors ++ (e ∷ [])

-- `answers` is what the server at a URL makes of a request, given the requests before it.
module _ (lib : UrlLib) (answers : List Attempt → Text → Reply) where
  -- performRegistration at a server. After a panic there is no request, and an error stands for its
  -- result.
  unfoldable pub attempt : Url → Registration → Option ClientError × Registration
  unfolding perform_registration
  attempt u r =
      if r.panics
      then (some request_failed, r)
      else elim (perform_registration (answers r.attempts (lib.text u ++ codes "/register"))
          r.client) [
            | panicked ↦ (
              some request_failed,
              record r {
                attempts = r.attempts ++ (record { target = u; registered = false } ∷ []);
                panics = true;
              },
            )
            | returned e c ↦ (
              e,
              record r {
                client = c;
                attempts = r.attempts ++ (record { target = u; registered = is_none e } ∷ []);
              },
            )
          ]

  -- The code from the label makeReq; `none` is out of fuel, of which each jump to the label takes one.
  unfoldable pub make_req :
      ℕ → Bool → Url → Registration → Option (Option ClientError × Registration)
  unfolding attempt
  make_req zero disable_http_fallback u r = none
  make_req (suc fuel) disable_http_fallback u r =
      let made = attempt u r in
      let again = make_req fuel disable_http_fallback (record u { scheme = codes "http" }) made.1 in
      elim made.0 [
        | none ↦ some (none, record made.1 { server_url = some u })
        | some e ↦
            if not disable_http_fallback && text_eq u.scheme (codes "https")
            then again
            else some (some e, made.1)
      ]

  -- registerFunc. Two rounds of makeReq are enough.
  unfoldable pub register_func : Bool → Text → Registration → Option ClientError × Registration
  unfolding make_req with_scheme
  register_func disable_http_fallback value r = elim (lib.parse (with_scheme value)) [
    | none ↦ (some bad_url, r)
    | some u ↦ elim (make_req 2 disable_http_fallback u r) [
      | none ↦ (none, r)
      | some result ↦ result
    ]
  ]

  -- The visits, of the values in the order that they are visited in.
  unfoldable pub visit : Bool → List Text → Registration → Registration
  unfolding register_func
  visit disable_http_fallback [] r = r
  visit disable_http_fallback (value ∷ values) r =
      let made = register_func disable_http_fallback value r in
      let others =
        visit disable_http_fallback values
          (record made.1 { errors = add_error made.0 made.1.errors }) in
      elim r.server_url [ some u ↦ r | none ↦ others ]

  -- parseServerURLs; `shuffle` is the order of sliceutil.VisitRandom. No errors joined are no error.
  unfoldable pub parse_server_urls :
      (List Text → List Text) → Bool → Text → Registration → Option RegistrationError × Registration
  unfolding visit
  parse_server_urls shuffle disable_http_fallback server_url r =
      let visited = visit disable_http_fallback (shuffle (split 44 server_url)) r in
      if is_empty server_url then (some invalid_server_url, r) else elim visited.server_url [
        | some u ↦ (none, visited)
        | none ↦
            (if is_empty visited.errors then none else some (all_failed visited.errors), visited)
      ]
