-- ===== src/Server/Http/Dynamic.antt =====
-- What defaultHandler and writeResponseFromDynamicRequest of pkg/server/http_server.go do to the
-- http.ResponseWriter, in order; Recorder has what that is, and what becomes of it.
use interactsh.Prelude.{
  ℕ, Bool, not, ◌&&◌, List, [], ◌∷◌, ◌++◌, Option, none, some, if◌then◌else◌, ◌==◌, is_empty, Text,
  codes, lookup,
}
use interactsh.Server.Options.{ServerOptions, Utilities, Metrics, bump}
use interactsh.Server.Ids.{url_reflection}
use interactsh.Server.Http.Types.{Request}
use interactsh.Server.Http.Sessions.{query_get}
use interactsh.Server.Http.Pages.{
  Site, Page, fixed_page, static_files, front_page, robots, json, xml, html, dynamic_page,
  b64_prefix, b64_slice, extract_server_domain, choose_page,
}

-- An int, as strconv.Atoi gives it.
pub data ℤ : Type 0 where
  pos negsuc : ℕ → ℤ

-- What it takes from the standard library: strconv.Atoi, with whether there is no error;
-- base64.StdEncoding.DecodeString, whose bytes it takes though there is an error; and
-- strings.ReplaceAll(s, "{DOMAIN}", domain).
pub record HttpLib : Type 0 where
  pub atoi : Text → ℤ × Bool
  pub decode_string : Text → Text
  pub replace_domain : Text → Text → Text

-- `serves_static` is the call of the static handler.
pub data Effect : Type 0 where
  sets_header adds_header : Text → Text → Effect
  writes_header : ℤ → Effect
  writes : Text → Effect
  sleeps : ℤ → Effect
  serves_static : Effect

-- strings.SplitN(header, ":", 2), if that has two parts.
unfoldable pub header_parts : Text → Option (Text × Text)
header_parts [] = none
header_parts (c ∷ cs) =
    let rest = header_parts cs in
    if c == b':' then some ([], cs) else elim rest [ none ↦ none | some (k, v) ↦ some (c ∷ k, v) ]

unfoldable pub header_effects : List Text → List Effect
unfolding header_parts
header_effects [] = []
header_effects (header ∷ headers) =
    let rest = header_effects headers in
    elim (header_parts header) [ none ↦ rest | some (k, v) ↦ adds_header k v ∷ rest ]

-- values["header"]
unfoldable pub header_values : Request → List Text
header_values req = elim (lookup (codes "header") req.query) [ none ↦ [] | some vs ↦ vs ]

-- The front page of a server with no index of its own.
abbrev banner : Text → Text
banner domain =
    codes "<h1> Interactsh Server </h1>\n\n<a href='https://github.com/projectdiscovery/"
    ++ (codes "interactsh'><b>Interactsh</b></a> is an open-source tool for detecting "
        ++ (codes "out-of-band interactions. It is a tool designed to detect vulnerabilities that "
            ++ (codes "cause external interactions.<br><br>\n\nIf you notice any interactions from "
                ++ (codes "<b>*."
                    ++ (domain
                        ++ (codes "</b> in your logs, it's possible that someone (internal "
                            ++ (codes "security engineers, pen-testers, bug-bounty hunters) has "
                                ++ (codes "been testing your application.<br><br>\n\nYou should "
                                    ++ (codes "investigate the sites where these interactions were "
                                        ++ (codes "generated from, and if a vulnerability exists, "
                                            ++ codes
                                                "examine the root cause and take the necessary steps to mitigate the issue.\n"))))))))))

module _ (lib : HttpLib) where
  unfoldable pub status_and_body : Request → List Effect
  unfolding query_get
  status_and_body req =
      let delay = query_get (codes "delay") req.query in
      let status = query_get (codes "status") req.query in
      let body = query_get (codes "body") req.query in
      let b64_body = query_get (codes "b64_body") req.query in
      (if is_empty delay then [] else sleeps (lib.atoi delay).0 ∷ [])
      ++ ((if is_empty status then [] else writes_header (lib.atoi status).0 ∷ [])
          ++ ((if is_empty body then [] else writes body ∷ [])
              ++ (if is_empty b64_body then [] else writes (lib.decode_string b64_body) ∷ [])))

  -- writeResponseFromDynamicRequest; `none` is the panic of the slice.
  unfoldable pub write_response : Utilities → Request → Option (List Effect)
  unfolding b64_slice header_effects header_values status_and_body
  write_response u req =
      let rest = header_effects (header_values req) ++ status_and_body req in
      if u.has_prefix_i req.path b64_prefix
      then (elim (b64_slice req.path) [
        | none ↦ none
        | some part ↦ some (writes (lib.decode_string part) ∷ rest)
      ])
      else some rest

  -- What the query of a static file sets, before the file is served.
  unfoldable pub static_effects : ServerOptions → Request → List Effect
  unfolding header_effects header_values query_get
  static_effects options req =
      let delay = query_get (codes "delay") req.query in
      let status = query_get (codes "status") req.query in
      let (seconds, delay_fine) = lib.atoi delay in
      let (code, status_fine) = lib.atoi status in
      (if options.dynamic_resp && not (is_empty req.query)
        then header_effects (header_values req)
          ++ ((if not (is_empty delay) && delay_fine then sleeps seconds ∷ [] else [])
              ++ (if not (is_empty status) && status_fine then writes_header code ∷ [] else []))
        else [])
      ++ (serves_static ∷ [])

  -- The branches of defaultHandler, for the page that is chosen. `custom_banner` is the index file.
  unfoldable pub page_effects :
      Utilities → ServerOptions → Site → Text → Text → Request → Page → Option (List Effect)
  unfolding write_response static_effects
  page_effects u options site custom_banner domain req fixed_page =
      some (writes (lib.replace_domain site.default_response domain) ∷ [])
  page_effects u options site custom_banner domain req static_files =
      some (static_effects options req)
  page_effects u options site custom_banner domain req front_page = some (
      writes
        (if is_empty custom_banner then banner domain else lib.replace_domain custom_banner domain)
      ∷ [])
  page_effects u options site custom_banner domain req (robots reflection) =
      some (writes (codes "User-agent: *\nDisallow: / # " ++ reflection) ∷ [])
  page_effects u options site custom_banner domain req (json reflection) = some (
      writes (codes "{\"data\":\"" ++ (reflection ++ codes "\"}"))
      ∷ sets_header (codes "Content-Type") (codes "application/json")
      ∷ [])
  page_effects u options site custom_banner domain req (xml reflection) = some (
      writes (codes "<data>" ++ (reflection ++ codes "</data>"))
      ∷ sets_header (codes "Content-Type") (codes "application/xml")
      ∷ [])
  page_effects u options site custom_banner domain req (html reflection) =
      some
        (writes (codes "<html><head></head><body>" ++ (reflection ++ codes "</body></html>")) ∷ [])
  page_effects u options site custom_banner domain req dynamic_page = write_response u req

  -- defaultHandler, with the count of the request.
  unfoldable pub default_effects :
      Utilities → ServerOptions → Site → Text → Request → Metrics → Metrics × Option (List Effect)
  unfolding page_effects choose_page extract_server_domain bump
  default_effects u options site custom_banner req stats =
      let domain = extract_server_domain u options req in
      let named =
        sets_header (codes "Server") domain
        ∷ (if options.no_version_header
            then []
            else sets_header (codes "X-Interactsh-Version") options.version ∷ []) in
      (
        record stats { http = bump stats.http },
        elim (url_reflection u options req.host) [
          | none ↦ none
          | some reflection ↦
              elim (page_effects u options site custom_banner domain req
                (choose_page u options site req reflection)) [
                  | none ↦ none
                  | some effects ↦ some (named ++ effects)
                ]
        ],
      )
