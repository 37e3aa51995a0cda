-- ===== src/Server/Http/Logger.antt =====
-- The logger middleware of pkg/server/http_server.go, and its handleInteraction: what a request
-- to any page stores, after the page has answered.
use interactsh.Prelude.{
  ℕ, List, [], ◌∷◌, ◌++◌, if◌then◌else◌, take, Text, codes, is_empty, to_lower,
}
use interactsh.Storage.Isolation.Steps.{Call, adds, adds_with_id}
use interactsh.Server.Options.{ServerOptions, Utilities, Interaction, no_interaction}
use interactsh.Server.Ids.{Matches, scan_parts, scan_chunks}
use interactsh.Server.Dns.Serve.{call_of}
use interactsh.Server.Http.Types.{Request}

-- httpProtocol
unfoldable pub http_protocol : Request → Text
http_protocol r = if r.tls then codes "https" else codes "http"

module _ (u : Utilities) (options : ServerOptions) where
  -- The address that is recorded: of the origin's header, if it is given.
  unfoldable pub origin_host : Request → Text
  origin_host r =
      let origin = r.header options.origin_ip_header in
      if is_empty origin then r.remote_host else origin

  abbrev http_interaction : Request → ℕ → Text → Text → Text → Text → Interaction
  http_interaction r now response unique_id full_id host = record no_interaction {
    protocol = http_protocol r;
    unique_id = unique_id;
    full_id = full_id;
    raw_request = r.dump;
    raw_response = response;
    remote_address = host;
    timestamp = now;
  }

  -- The loop over the domains, with root-tld on.
  unfoldable pub root_calls : Request → ℕ → Text → List Text → List Call
  unfolding call_of
  root_calls r now response [] = []
  root_calls r now response (domain ∷ domains) =
      (if u.has_suffix_i r.host domain
        then call_of (u.marshal (http_interaction r now response r.host r.host r.remote_host))
            (adds_with_id domain)
        else [])
      ++ root_calls r now response domains

  -- The ids of a request: in the dump of it, or in the parts of its URL.
  unfoldable pub http_matches : Request → Matches
  unfolding scan_chunks scan_parts
  http_matches r =
      if options.scan_everywhere
      then scan_chunks u options (λ chunk w. chunk) (u.split_any r.dump (codes "\n\t\"'/"))
      else scan_parts u options to_lower [] (u.split_any (r.host ++ r.url) (codes ".\n\t/"))

  -- handleInteraction, at each match.
  unfoldable pub id_calls : Request → ℕ → Text → Matches → List Call
  unfolding call_of
  id_calls r now response [] = []
  id_calls r now response (m ∷ ms) =
      call_of (u.marshal (http_interaction r now response m.0 m.1 (origin_host r)))
        (adds (take options.correlation_id_length m.0))
      ++ id_calls r now response ms

  -- The calls of a request whose answer prints as `response`.
  unfoldable pub logged_calls : Request → ℕ → Text → List Call
  unfolding root_calls http_matches id_calls
  logged_calls r now response =
      (if options.root_tld then root_calls r now response options.domains else [])
      ++ id_calls r now response (http_matches r)
