-- ===== src/Server/Http/Sending.antt =====
-- The pages that defaultHandler of pkg/server/http_server.go writes itself, as logger sends and dumps
-- them.
use interactsh.Prelude.{
  ◌≡◌, refl, ap, ◌∙◌, Bool, true, false, List, [], ◌∷◌, ◌++◌, none, some, arith, text_eq, Text,
  codes, Option, lookup, lookup-insert,
}
use interactsh.Server.Options.{ServerOptions, Utilities}
use interactsh.Server.Http.Types.{Request}
use interactsh.Server.Http.Pages.{
  Site, Page, fixed_page, static_files, front_page, robots, json, xml, html, dynamic_page,
}
use interactsh.Server.Http.Dynamic.{HttpLib, Effect, pos, sets_header, writes, page_effects}
use interactsh.Server.Http.Recorder.{
  HeaderLib, Header, Recorder, set, typed, write, apply, apply_all, sent, result,
}

-- The pages that defaultHandler writes itself.
abbrev pub is_text : Page → Bool
is_text fixed_page = true
is_text static_files = false
is_text front_page = true
is_text (robots reflection) = true
is_text (json reflection) = true
is_text (xml reflection) = true
is_text (html reflection) = true
is_text dynamic_page = false

-- The content type that the handler sets for a page.
abbrev pub set_type : Page → Option Text
set_type fixed_page = none
set_type static_files = none
set_type front_page = none
set_type (robots reflection) = none
set_type (json reflection) = some (codes "application/json")
set_type (xml reflection) = some (codes "application/xml")
set_type (html reflection) = none
set_type dynamic_page = none

abbrev pub content_type : Header → Option (List Text)
content_type header = lookup (codes "Content-Type") header

-- Nothing is written, and no content type or transfer encoding is set.
pub record IsFresh (r : Recorder) : Type 0 where
  pub unwritten : r.wrote_header ≡ false
  pub untyped : content_type r.header ≡ none
  pub unencoded : lookup (codes "Transfer-Encoding") r.header ≡ none

module _ (names : HeaderLib)
    (name : names.canonical (codes "Content-Type") ≡ codes "Content-Type") where
  content_type-set :
      (t : Text) (header : Header)
      → content_type (set names (codes "Content-Type") t header) ≡ some (t ∷ [])
  unfolding set text_eq
  content_type-set t header =
      rw name (lookup-insert (codes "Content-Type") (codes "Content-Type") (t ∷ []) header)

  -- What the first write leaves.
  abbrev begun : Text → Recorder → Recorder
  begun body r =
      let header = typed names body r.header in
      record r {
        code = pos 200;
        header = header;
        wrote_header = true;
        snapshot = header;
        body = r.body ++ body;
      }

  write-begun : (body : Text) (r : Recorder) → IsFresh r → write names body r ≡ begun body r
  unfolding write
  write-begun body r fresh = rw fresh.unwritten refl

  content_type-typed :
      (body : Text) (r : Recorder)
      → IsFresh r
      → content_type (typed names body r.header) ≡ some (names.detect body ∷ [])
  content_type-typed body r fresh =
      let same : typed names body r.header
          ≡ set names (codes "Content-Type") (names.detect body) r.header =
        unfold typed in
        (let untyped = fresh.untyped in
          let unencoded = fresh.unencoded in ground (arith, untyped, unencoded)) in
      ap content_type same ∙ content_type-set (names.detect body) r.header

-- What logger sends and dumps of a page: `declared` is the content type that is set for it.
abbrev pub IsSent :
    HeaderLib → (Recorder → Option Recorder) → List Effect → Recorder → Option Text → Type 0
IsSent names static effects r declared =
    (after : Recorder) × (body : Text) × (apply_all names static effects r ≡ some after)
    × ((sent after).status ≡ pos 200)
    × ((sent after).body ≡ r.body ++ body)
    × (content_type (sent after).header ≡ (elim declared as (λ d. Option (List Text)) [
      | none ↦ some (names.detect body ∷ [])
      | some t ↦ some (t ∷ [])
    ]))
    × (content_type (result after).header ≡ some (names.detect body ∷ []))

module _ (names : HeaderLib) (static : Recorder → Option Recorder)
    (name : names.canonical (codes "Content-Type") ≡ codes "Content-Type") where
  plain-IsSent :
      (body : Text) (r : Recorder) → IsFresh r → IsSent names static (writes body ∷ []) r none
  unfolding apply_all apply sent result
  plain-IsSent body r fresh =
      let typed_as = content_type-typed names name body r fresh in
      (
        begun names name body r,
        body,
        ap some (write-begun names name body r fresh),
        refl,
        refl,
        typed_as,
        typed_as,
      )

  set-IsSent :
      (body t : Text) (r : Recorder)
      → IsFresh r
      → IsSent names static (writes body ∷ sets_header (codes "Content-Type") t ∷ []) r (some t)
  unfolding apply_all apply sent result
  set-IsSent body t r fresh =
      let first = begun names name body r in
      (
        record first { header = set names (codes "Content-Type") t first.header },
        body,
        ap
            (λ (x : Recorder).
              some (record x { header = set names (codes "Content-Type") t x.header }))
            (write-begun names name body r fresh),
        refl,
        refl,
        content_type-set names name t first.header,
        content_type-typed names name body r fresh,
      )

-- A page that defaultHandler writes itself, on a recorder with no content type, is sent with the
-- status 200, and with the content type that is set for ".json" and ".xml", or else the one that is
-- detected in its body; but the result that is dumped for the interactions has the one detected.
pub page_effects-IsSent :
    (lib : HttpLib) (u : Utilities) (options : ServerOptions) (site : Site) (names : HeaderLib)
    (static : Recorder → Option Recorder) (custom_banner domain : Text) (req : Request)
    (r : Recorder) (page : Page)
    → is_text page ≡ true
    → names.canonical (codes "Content-Type") ≡ codes "Content-Type"
    → IsFresh r
    → (effects : List Effect) × (page_effects lib u options site custom_banner domain req page
        ≡ some effects)
      × IsSent names static effects r (set_type page)
unfolding page_effects
page_effects-IsSent lib u options site names static custom_banner domain req r fixed_page h name
      fresh =
    (_, refl, plain-IsSent names static name _ r fresh)
page_effects-IsSent lib u options site names static custom_banner domain req r front_page h name
      fresh =
    (_, refl, plain-IsSent names static name _ r fresh)
page_effects-IsSent lib u options site names static custom_banner domain req r (robots x) h name
      fresh =
    (_, refl, plain-IsSent names static name _ r fresh)
page_effects-IsSent lib u options site names static custom_banner domain req r (html x) h name
      fresh =
    (_, refl, plain-IsSent names static name _ r fresh)
page_effects-IsSent lib u options site names static custom_banner domain req r (json x) h name
      fresh =
    (_, refl, set-IsSent names static name _ (codes "application/json") r fresh)
page_effects-IsSent lib u options site names static custom_banner domain req r (xml x) h name
      fresh =
    (_, refl, set-IsSent names static name _ (codes "application/xml") r fresh)
page_effects-IsSent lib u options site names static custom_banner domain req r static_files h name
      fresh =
    absurd cc
page_effects-IsSent lib u options site names static custom_banner domain req r dynamic_page h name
      fresh =
    absurd cc
