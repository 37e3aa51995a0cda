-- ===== src/Server/Http/Routes.antt =====
-- The routes of NewHTTPServer (pkg/server/http_server.go), and the middlewares around each handler.
use interactsh.Prelude.{Bool, true, false, ◌&&◌, ◌||◌, [], if◌then◌else◌, Text, codes, text_eq, ℕ}
use interactsh.Storage.Libraries.{Libs}
use interactsh.Server.Options.{ServerOptions}
use interactsh.Server.Dns.Types.{has_prefix}
use interactsh.Server.Http.Types.{Handler, empty, auth_middleware, cors_middleware}

pub data Route : Type 0 where
  storerequest apidocs root register serve deregister poll metrics redirected : Route

-- http.ServeMux on a clean path: a pattern that ends in a slash takes what is below it, and the
-- same path without the slash is redirected; "/" takes the rest.
unfoldable pub route : Bool → Text → Route
unfolding has_prefix
route enable_metrics path =
    if text_eq path (codes "/storerequest")
    then storerequest
    else if has_prefix path (codes "/apidocs/")
    then apidocs
    else if text_eq path (codes "/register")
    then register
    else if has_prefix path (codes "/serve/")
    then serve
    else if text_eq path (codes "/deregister")
    then deregister
    else if text_eq path (codes "/poll")
    then poll
    else if enable_metrics && text_eq path (codes "/metrics")
    then metrics
    else if text_eq path (codes "/apidocs") || text_eq path (codes "/serve")
    then redirected
    else root

-- The handlers that are routed to; that of "/" comes with the logger around it.
pub record Handlers (L : Libs) : Type 0 where
  pub store : Handler L
  pub docs : Handler L
  pub logged_default : Handler L
  pub registers : Handler L
  pub deregisters : Handler L
  pub polls : Handler L
  pub measures : Handler L

abbrev status_moved_permanently : ℕ
status_moved_permanently = 301

module _ {L : Libs} (options : ServerOptions) (h : Handlers L) where
  -- What router.Handle is given for each route.
  unfoldable pub handler_of : Route → Handler L
  unfolding cors_middleware auth_middleware
  handler_of storerequest = cors_middleware options (auth_middleware options h.store)
  handler_of apidocs = cors_middleware options h.docs
  handler_of root = h.logged_default
  handler_of register = cors_middleware options (auth_middleware options h.registers)
  handler_of serve = cors_middleware options (auth_middleware options h.deregisters)
  handler_of deregister = cors_middleware options (auth_middleware options h.deregisters)
  handler_of poll = cors_middleware options (auth_middleware options h.polls)
  handler_of metrics = cors_middleware options (auth_middleware options h.measures)
  handler_of redirected =
      λ req s. (record { status = status_moved_permanently; headers = []; body = empty }, s)

  -- A request, as the router serves it.
  unfoldable pub serve_http : Bool → Handler L
  unfolding route handler_of
  serve_http enable_metrics req s = handler_of (route enable_metrics req.path) req s

  -- The routes that anyone may take.
  unfoldable pub is_public : Route → Bool
  is_public root = true
  is_public apidocs = true
  is_public redirected = true
  is_public storerequest = false
  is_public register = false
  is_public serve = false
  is_public deregister = false
  is_public poll = false
  is_public metrics = false
