-- ===== src/Server/Http/Setup.antt =====
-- NewHTTPServer with the files that it reads, disableDirectoryListing, ListenAndServe and
-- metricsHandler of pkg/server/http_server.go.
use interactsh.Prelude.{
  Bool, true, false, not, ◌||◌, List, [], ◌∷◌, Option, none, some, if◌then◌else◌, is_empty, Text,
  codes, text_eq,
}
use interactsh.Storage.Libraries.{Libs}
use interactsh.Server.Options.{Metrics}
use interactsh.Server.Dns.Types.{has_suffix}
use interactsh.Server.Http.Types.{Handler, bytes, json_headers, status_ok}
use interactsh.Server.Http.Pages.{Site}

-- disableDirectoryListing: whether the request goes on to the file server.
unfoldable pub lists_no_directory : Text → Bool
unfolding has_suffix
lists_no_directory path = not (has_suffix path (codes "/") || text_eq path [])

-- The options that name files.
pub record HttpFiles : Type 0 where
  pub http_directory : Text
  pub http_index : Text
  pub default_http_response_file : Text

-- os.ReadFile, if there is no error; a file that cannot be read counts as none.
unfoldable pub read_file : (Text → Option Text) → Text → Text
read_file read path =
    if is_empty path then [] else elim (read path) [ none ↦ [] | some content ↦ content ]

-- NewHTTPServer: the site, and its index file.
unfoldable pub new_http_server : (Text → Option Text) → HttpFiles → Site × Text
unfolding read_file
new_http_server read files = (
  record {
    default_response = read_file read files.default_http_response_file;
    has_static_handler = not (is_empty files.http_directory);
  },
  read_file read files.http_index,
)

-- ListenAndServe: what it tells the channels of HTTPS and HTTP, where TLS is set up or not, and
-- each listener fails or not.
unfoldable pub listen_and_serve_http : Bool → Bool → Bool → List Bool × List Bool
listen_and_serve_http has_tls tls_fails fails = (
  (if has_tls then (if tls_fails then true ∷ false ∷ [] else true ∷ []) else []),
  if fails then true ∷ false ∷ [] else true ∷ [],
)

-- metricsHandler; `encode` writes the counters with the figures of the operating system.
unfoldable pub metrics_handler : {L : Libs} → (Metrics → Text) → Handler L
metrics_handler encode req s =
    (record { status = status_ok; headers = json_headers; body = bytes (encode s.stats) }, s)
