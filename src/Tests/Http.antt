-- ===== src/Tests/Http.antt =====
-- The theorems on the HTTP server at small requests.
use interactsh.Prelude.{◌≡◌, ◌≢◌, refl, false, [], none, some, codes, text_eq, lookup}
use mathlib.Core.List.{Memᴰ}
use interactsh.Storage.Lines.{HasNone}
use interactsh.Server.Ids.{dot}
use interactsh.Server.Ids.Reflection.{default_handler-panics}
use interactsh.Server.Http.Types.{Request, status_ok, status_bad_request, Handler}
use interactsh.Server.Http.Sessions.{query_get, poll_handler, deregister_handler}
use interactsh.Server.Http.Pages.{Site, default_handler}
use interactsh.Server.Options.{ServerOptions}
use interactsh.Server.Http.Secrets.{poll_handler-SetID, deregister_handler-SetID}
use interactsh.Server.Http.Routes.{Handlers}
use interactsh.Tests.World.{small_world, small_state}
use interactsh.Tests.Settings.{
  small_options, root_options, small_utilities, small_request, http_state,
}

abbrev small_site : Site
small_site = record { default_response = []; has_static_handler = false }

abbrev bare_request : Request
bare_request = record small_request { host = codes "localhost" }

default_handler-panics_example :
    (HasNone dot bare_request.host
      → default_handler small_utilities small_options small_site bare_request ≡ none)
    × (Memᴰ dot bare_request.host
        → default_handler small_utilities small_options small_site bare_request ≢ none)
default_handler-panics_example =
    default_handler-panics small_utilities small_options small_site bare_request

t_asked :
    small_world.cache.find small_state.cache (query_get (codes "id") small_request.query) ≡ some 1
unfolding text_eq query_get lookup
t_asked = refl

t_held : small_world.cache.find small_state.cache (codes "t") ≡ some 1
unfolding text_eq
t_held = refl

poll_handler-SetID_example :
    (poll_handler small_options small_request 1 http_state).0.status ≡ status_bad_request
poll_handler-SetID_example =
    poll_handler-SetID small_options small_request 1 1 http_state t_asked refl

abbrev shared_options : ServerOptions
shared_options = record root_options { token = codes "t" }

deregister_handler-SetID_example :
    let r =
      deregister_handler shared_options
        (some (record { correlation_id = codes "t"; secret_key = [] }))
        1
        http_state in
    (r.0.status ≡ status_ok) × (small_world.cache.find r.1.storage.cache (codes "t") ≡ none)
deregister_handler-SetID_example =
    deregister_handler-SetID shared_options (codes "t") 1 1 http_state t_held refl refl

abbrev poll_next : Handler small_world
poll_next req s = poll_handler root_options req 1 s

abbrev all_polls : Handlers small_world
all_polls = record {
  store = poll_next;
  docs = poll_next;
  logged_default = poll_next;
  registers = poll_next;
  deregisters = poll_next;
  polls = poll_next;
  measures = poll_next;
}

abbrev poll_request : Request
poll_request = record small_request { path = codes "/poll" }
