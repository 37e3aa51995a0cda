-- ===== src/Server/Http/Writing.antt =====
-- What reaches the client of what writeResponseFromDynamicRequest of pkg/server/http_server.go does
-- to the recorder of logger.
use interactsh.Prelude.{
  ℕ, ◌+◌, ◌≡◌, refl, ap, ◌∙◌, Bool, true, false, List, [], ◌∷◌, ◌++◌, none, some, arith, length,
  length-append, take-length-append, drop-length-append, text_eq, Text, All, codes, sym, inl, inr,
  if◌then◌else◌, Option, Option-cases, is_empty, append-nil, append_assoc,
}
use interactsh.Storage.Base64.{encode, decode}
use interactsh.Storage.Base64.Decoding.{IsByte, decode-encode}
use interactsh.Server.Options.{Utilities}
use interactsh.Server.Dns.Types.{has_prefix}
use interactsh.Server.Http.Types.{Request}
use interactsh.Server.Http.Pages.{b64_prefix, b64_slice, index, last_index, slice}
use interactsh.Server.Http.Dynamic.{
  HttpLib, Effect, pos, writes, writes_header, sleeps, header_parts, header_effects, header_values,
  status_and_body, write_response,
}
use interactsh.Server.Http.Sessions.{query_get}
use interactsh.Server.Http.Recorder.{
  HeaderLib, Header, Recorder, add, typed, write_header, write, apply, apply_all, sent, result,
}

last_index-end : (b : ℕ) (xs : Text) → last_index b (xs ++ (b ∷ [])) ≡ some (length xs)
unfolding last_index
last_index-end b [] = ground arith
last_index-end b (x ∷ xs) = ground (arith, last_index-end b xs)

abbrev pub b64_path : Text → Text
b64_path body = b64_prefix ++ (encode body ++ (b'/' ∷ []))

-- The text between a prefix and a last character.
slice-between :
    (xs ys : Text) (b : ℕ)
    → slice (xs ++ (ys ++ (b ∷ []))) (length xs) (length (xs ++ ys)) ≡ some ys
unfolding slice
slice-between xs ys b =
    let part = ys ++ (b ∷ []) in
    ground (
      arith,
      length-append xs ys,
      length-append xs part,
      length-append ys (b ∷ []),
      drop-length-append xs part,
      take-length-append ys (b ∷ []),
    )

b64_path-index : (body : Text) → index (b64_path body) b64_prefix ≡ some 0
unfolding index has_prefix text_eq
b64_path-index body = refl

b64_slice-slice :
    (path : Text) (first last : ℕ)
    → last_index b'/' path ≡ some last
    → index path b64_prefix ≡ some first
    → b64_slice path ≡ slice path (first + 10) last
unfolding b64_slice
b64_slice-slice path first last e f = rw (b64_slice, e, f) refl

b64_slice-path : (body : Text) → b64_slice (b64_path body) ≡ some (encode body)
b64_slice-path body =
    b64_slice-slice (b64_path body) 0 (length (b64_prefix ++ encode body))
      (last_index-end b'/' (b64_prefix ++ encode body)) (b64_path-index body)
    ∙ slice-between b64_prefix (encode body) b'/'

-- http.Header.Add of each header of the query.
abbrev pub added : HeaderLib → List Text → Header → Header
added names [] header = header
added names (text ∷ texts) header = elim (header_parts text) [
  | none ↦ added names texts header
  | some (k, v) ↦ added names texts (add names k v header)
]

-- The bodies of the query.
abbrev pub query_body : HttpLib → Request → Text
query_body lib req =
    query_get (codes "body") req.query
    ++ (let b64_body = query_get (codes "b64_body") req.query in
        if is_empty b64_body then [] else lib.decode_string b64_body)

empty_or : (t : Text) → (if is_empty t then [] else t) ≡ t
empty_or [] = refl
empty_or (x ∷ xs) = refl

module _ (names : HeaderLib) (static : Recorder → Option Recorder) where
  apply_all-append :
      (es fs : List Effect) (r r' : Recorder)
      → apply_all names static es r ≡ some r'
      → apply_all names static (es ++ fs) r ≡ apply_all names static fs r'
  unfolding apply_all
  apply_all-append [] fs r r' e = ground (arith, e)
  apply_all-append (x ∷ es) fs r r' e = elim (Option-cases (apply names static x r)) [
    | inl stop ↦ absurd (ground (arith, stop, e))
    | inr (next, on) ↦ rw (apply_all, on) (apply_all-append es fs next r' (ground (arith, on, e)))
  ]

  apply_all-header_effects :
      (texts : List Text) (r : Recorder)
      → apply_all names static (header_effects texts) r
        ≡ some (record r { header = added names texts r.header })
  unfolding apply_all apply header_effects
  apply_all-header_effects [] r = refl
  apply_all-header_effects (text ∷ texts) r = elim (Option-cases (header_parts text)) [
    | inl e ↦ rw (header_effects, added, e) (apply_all-header_effects texts r)
    | inr ((k, v), e) ↦
        rw (header_effects, added, e)
          (apply_all-header_effects texts (record r { header = add names k v r.header }))
  ]

  skips :
      (b : Bool) (e : Effect) (r : Recorder)
      → apply names static e r ≡ some r
      → apply_all names static (if b then [] else e ∷ []) r ≡ some r
  unfolding apply_all
  skips true e r h = refl
  skips false e r h = rw (apply_all, h) refl

  -- A body that is written after the status, unless it is left out.
  write_part :
      (b : Bool) (text : Text) (r : Recorder)
      → r.wrote_header ≡ true
      → apply_all names static (if b then [] else writes text ∷ []) r
        ≡ some (record r { body = r.body ++ (if b then [] else text) })
  unfolding apply_all apply write
  write_part true text r wrote = ap (λ t. some (record r { body = t })) (sym (append-nil r.body))
  write_part false text r wrote = rw wrote refl

  -- Once the status has been written, the status and the delay of the query do nothing.
  apply_all-status_and_body :
      (lib : HttpLib) (req : Request) (r : Recorder)
      → r.wrote_header ≡ true
      → apply_all names static (status_and_body lib req) r
        ≡ some (record r { body = r.body ++ query_body lib req })
  unfolding apply_all apply status_and_body write write_header
  apply_all-status_and_body lib req r wrote =
      let delay = query_get (codes "delay") req.query in
      let status = query_get (codes "status") req.query in
      let body = query_get (codes "body") req.query in
      let b64_body = query_get (codes "b64_body") req.query in
      let after = record r { body = r.body ++ body } in
      apply_all-append (if is_empty delay then [] else sleeps (lib.atoi delay).0 ∷ []) _ r r
        (skips (is_empty delay) (sleeps (lib.atoi delay).0) r refl)
      ∙ apply_all-append (if is_empty status then [] else writes_header (lib.atoi status).0 ∷ []) _
          r r (skips (is_empty status) (writes_header (lib.atoi status).0) r (rw wrote refl))
      ∙ apply_all-append (if is_empty body then [] else writes body ∷ []) _ r after (
          write_part (is_empty body) body r wrote
          ∙ ap (λ t. some (record r { body = r.body ++ t })) (empty_or body))
      ∙ write_part (is_empty b64_body) (lib.decode_string b64_body) after wrote
      ∙ ap (λ t. some (record r { body = t }))
          (append_assoc r.body body (if is_empty b64_body then [] else lib.decode_string b64_body))

module _ (lib : HttpLib) (u : Utilities) where
  -- A request for "/b64_body:", the encoding of a body, and "/" is answered with that body first,
  -- where the library decodes what it encoded: with the status 200, whatever the status that the
  -- query asks for, and with the headers of the query, though these are set after the body; but the
  -- result that is dumped for the interactions has the header without them. It is so on any recorder
  -- that nothing has been written to.
  pub write_response-b64_body :
      (names : HeaderLib) (static : Recorder → Option Recorder) (body : Text) (req : Request)
      (r : Recorder)
      → All IsByte body
      → ((t m : Text) → decode t ≡ some m → lib.decode_string t ≡ m)
      → req.path ≡ b64_path body
      → u.has_prefix_i req.path b64_prefix ≡ true
      → r.wrote_header ≡ false
      → (effects : List Effect) × (after : Recorder) × (write_response lib u req ≡ some effects)
        × (apply_all names static effects r ≡ some after)
        × ((sent after).status ≡ pos 200)
        × ((sent after).body ≡ (r.body ++ body) ++ query_body lib req)
        × ((sent after).header ≡ added names (header_values req) (typed names body r.header))
        × ((result after).header ≡ typed names body r.header)
  unfolding write_response apply_all apply write sent result
  write_response-b64_body names static body req r bytes decodes at prefixed fresh =
      let rest = header_effects (header_values req) ++ status_and_body lib req in
      let part : b64_slice req.path ≡ some (encode body) = ap b64_slice at ∙ b64_slice-path body in
      let plain = decodes (encode body) body (decode-encode body bytes) in
      let header = typed names body r.header in
      let begun = record r {
        code = pos 200;
        header = header;
        wrote_header = true;
        snapshot = header;
        body = r.body ++ body;
      } in
      let with_headers = record begun { header = added names (header_values req) header } in
      (
        writes body ∷ rest,
        record with_headers { body = (r.body ++ body) ++ query_body lib req },
        rw (prefixed, part, plain) refl,
        rw fresh (
            apply_all-append names static (header_effects (header_values req)) _ begun with_headers
              (apply_all-header_effects names static (header_values req) begun)
            ∙ apply_all-status_and_body names static lib req with_headers refl),
        refl,
        refl,
        refl,
        refl,
      )

  -- A request for a path with the prefix "/b64_body:", in any case, and no slash after the first
  -- character makes the handler panic.
  pub write_response-panics :
      (req : Request)
      → u.has_prefix_i req.path b64_prefix ≡ true
      → last_index b'/' req.path ≡ some 0
      → write_response lib u req ≡ none
  unfolding write_response b64_slice slice
  write_response-panics req prefixed only = ground (arith, prefixed, only)
