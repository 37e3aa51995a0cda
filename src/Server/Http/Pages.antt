-- ===== src/Server/Http/Pages.antt =====
-- extractServerDomain, defaultHandler and writeResponseFromDynamicRequest of
-- pkg/server/http_server.go. A page that panics is `none`; net/http then drops the connection.
use interactsh.Prelude.{
  ℕ, suc, ◌+◌, ◌-◌, Bool, ◌&&◌, ◌||◌, not, List, [], ◌∷◌, Option, none, some, leb, ◌==◌,
  if◌then◌else◌, length, take, drop, Text, codes, text_eq, is_empty,
}
use interactsh.Server.Options.{ServerOptions, Utilities}
use interactsh.Server.Ids.{url_reflection}
use interactsh.Server.Dns.Types.{has_prefix}
use interactsh.Server.Http.Types.{Request}

-- What the server was started with: whether it has a page for all requests, and static files.
pub record Site : Type 0 where
  pub default_response : Text
  pub has_static_handler : Bool

-- The pages of defaultHandler, with the reflection that they show.
pub data Page : Type 0 where
  fixed_page static_files : Page
  front_page : Page
  robots json xml html : Text → Page
  dynamic_page : Page

module _ (u : Utilities) (options : ServerOptions) where
  unfoldable pub matching_domain : List Text → Text → Text
  matching_domain [] host = []
  matching_domain (domain ∷ domains) host =
      let rest = matching_domain domains host in if u.has_suffix_i host domain then domain else rest

  -- extractServerDomain; a configured domain is not empty.
  unfoldable pub extract_server_domain : Request → Text
  unfolding matching_domain
  extract_server_domain req =
      let matched = matching_domain options.domains req.host in
      if not (is_empty options.header_server) then options.header_server else elim options.domains [
        | [] ↦ []
        | first ∷ more ↦ if is_empty matched then first else matched
      ]

-- strings.Index and strings.LastIndex, of a text that may not be there.
unfoldable pub index : Text → Text → Option ℕ
index [] pat = if is_empty pat then some 0 else none
index (c ∷ cs) pat =
    let rest = index cs pat in
    if has_prefix (c ∷ cs) pat then some 0 else elim rest [ none ↦ none | some i ↦ some (suc i) ]

unfoldable pub last_index : ℕ → Text → Option ℕ
last_index b [] = none
last_index b (c ∷ cs) = elim (last_index b cs) [
  | some i ↦ some (suc i)
  | none ↦ if c == b then some 0 else none
]

-- s[from:to], which panics unless from ≤ to ≤ len(s).
unfoldable pub slice : Text → ℕ → ℕ → Option Text
slice s from to =
    if leb from to && leb to (length s) then some (take (to - from) (drop from s)) else none

abbrev pub b64_prefix : Text
b64_prefix = codes "/b64_body:"

-- req.URL.Path[firstindex+10 : lastIndex]. An index of -1 counts as such: 9 for the first, and a
-- negative end panics.
unfoldable pub b64_slice : Text → Option Text
unfolding index last_index slice
b64_slice path = elim (last_index b'/' path) [
  | none ↦ none
  | some last ↦ slice path (elim (index path b64_prefix) [ none ↦ 9 | some i ↦ i + 10 ]) last
]

module _ (u : Utilities) (options : ServerOptions) (site : Site) where
  -- The page of a request whose reflection is known.
  unfoldable pub choose_page : Request → Text → Page
  choose_page req reflection =
      if not (is_empty site.default_response)
      then fixed_page
      else if u.has_prefix_i req.path (codes "/s/") && site.has_static_handler
      then static_files
      else if text_eq req.path (codes "/") && is_empty reflection
      then front_page
      else if u.equal_fold req.path (codes "/robots.txt")
      then robots reflection
      else if u.has_suffix_i req.path (codes ".json")
      then json reflection
      else if u.has_suffix_i req.path (codes ".xml")
      then xml reflection
      else if options.dynamic_resp
          && (not (is_empty req.query) || u.has_prefix_i req.path b64_prefix)
      then dynamic_page
      else html reflection

  -- defaultHandler. The reflection is computed first, whatever the page.
  unfoldable pub default_handler : Request → Option Page
  unfolding choose_page
  default_handler req = elim (url_reflection u options req.host) [
    | none ↦ none
    | some reflection ↦ some (choose_page req reflection)
  ]
