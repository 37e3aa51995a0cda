-- ===== src/Server/Http/Types.antt =====
-- The requests, the answers and the state of pkg/server/http_server.go.
use interactsh.Prelude.{
  ℕ, Bool, not, ◌&&◌, ◌||◌, List, [], ◌∷◌, Text, codes, text_eq, Assoc, ◌++◌, if◌then◌else◌,
}
use interactsh.Storage.Libraries.{Libs}
use interactsh.Storage.Types.{StorageDb, Error}
use interactsh.Server.Options.{ServerOptions, Metrics}

-- The parts of a request that are read. `header` gives "" for a header that is not there.
pub record Request : Type 0 where
  pub method : Text
  pub host : Text
  pub path : Text
  pub url : Text
  pub remote_host : Text
  pub tls : Bool
  pub header : Text → Text
  pub query : Assoc (List Text)
  pub dump : Text

pub record PollResponse : Type 0 where
  pub items : List Text
  pub extra : List Text
  pub aes_key : Text
  pub tld_data : List Text

-- What is written as the body: a JSON object of one key, a poll's, or bytes.
pub data Body : Type 0 where
  json_error json_msg : Text → Body
  storage_error : Error → Body
  polled : PollResponse → Body
  bytes : Text → Body
  empty : Body

pub record Answer : Type 0 where
  pub status : ℕ
  pub headers : Assoc Text
  pub body : Body

abbrev pub status_ok : ℕ
status_ok = 200

abbrev pub status_no_content : ℕ
status_no_content = 204

abbrev pub status_bad_request : ℕ
status_bad_request = 400

abbrev pub status_unauthorized : ℕ
status_unauthorized = 401

abbrev pub status_not_found : ℕ
status_not_found = 404

abbrev pub status_method_not_allowed : ℕ
status_method_not_allowed = 405

abbrev pub status_too_many_requests : ℕ
status_too_many_requests = 429

-- jsonBody, jsonError and jsonMsg.
abbrev pub json_headers : Assoc Text
json_headers =
    (codes "Content-Type", codes "application/json; charset=utf-8")
    ∷ (codes "X-Content-Type-Options", codes "nosniff")
    ∷ []

unfoldable pub json_body : Body → ℕ → Answer
json_body body code = record { status = code; headers = json_headers; body = body }

-- The servers share the storage and the counters.
pub record HttpState (L : Libs) : Type 0 where
  pub storage : StorageDb L
  pub stats : Metrics

abbrev pub Handler : Libs → Type 0
Handler L = Request → HttpState L → Answer × HttpState L

-- checkToken
unfoldable pub check_token : ServerOptions → Request → Bool
check_token options req =
    not options.auth || (options.auth && text_eq options.token (req.header (codes "Authorization")))

abbrev pub cors_headers : ServerOptions → Assoc Text
cors_headers options =
    (codes "Access-Control-Allow-Origin", options.origin_url)
    ∷ (codes "Access-Control-Allow-Credentials", codes "true")
    ∷ (codes "Access-Control-Allow-Headers", codes "Content-Type, Authorization")
    ∷ []

module _ {L : Libs} where
  -- authMiddleware
  unfoldable pub auth_middleware : ServerOptions → Handler L → Handler L
  unfolding check_token
  auth_middleware options next req s =
      if check_token options req
      then next req s
      else (record { status = status_unauthorized; headers = []; body = empty }, s)

  -- corsMiddleware
  unfoldable pub cors_middleware : ServerOptions → Handler L → Handler L
  cors_middleware options next req s =
      if text_eq req.method (codes "OPTIONS")
      then (record { status = status_no_content; headers = cors_headers options; body = empty }, s)
      else (let (answer, s') = next req s in
          (record answer { headers = cors_headers options ++ answer.headers }, s'))
