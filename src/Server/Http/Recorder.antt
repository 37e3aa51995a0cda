-- ===== src/Server/Http/Recorder.antt =====
-- The httptest.ResponseRecorder of the standard library that logger (pkg/server/http_server.go)
-- gives to the handler of a page, and what logger then sends and keeps of it.
use interactsh.Prelude.{
  Bool, true, false, not, ◌&&◌, ◌||◌, List, [], ◌∷◌, ◌++◌, Option, none, some, if◌then◌else◌, leb,
  is_empty, Text, codes, Assoc, lookup, insert,
}
use interactsh.Server.Http.Dynamic.{
  ℤ, pos, negsuc, Effect, sets_header, adds_header, writes_header, writes, sleeps, serves_static,
}

-- What it takes from the standard library: textproto.CanonicalMIMEHeaderKey and
-- http.DetectContentType.
pub record HeaderLib : Type 0 where
  pub canonical : Text → Text
  pub detect : Text → Text

abbrev pub Header : Type 0
Header = Assoc (List Text)

-- `header` is the live map, and `snapshot` what it was when the status was written.
pub record Recorder : Type 0 where
  pub code : ℤ
  pub header : Header
  pub body : Text
  pub wrote_header : Bool
  pub snapshot : Header

abbrev pub values_of : Text → Header → List Text
values_of k header = elim (lookup k header) [ none ↦ [] | some vs ↦ vs ]

-- Header.Get of a canonical key
abbrev pub first_of : List Text → Text
first_of [] = []
first_of (v ∷ vs) = v

-- checkWriteHeaderCode panics for another code.
unfoldable pub is_code : ℤ → Bool
is_code (pos n) = leb 100 n && leb n 999
is_code (negsuc n) = false

module _ (lib : HeaderLib) where
  -- Header.Set and Header.Add
  unfoldable pub set : Text → Text → Header → Header
  set k v header = insert (lib.canonical k) (v ∷ []) header

  unfoldable pub add : Text → Text → Header → Header
  add k v header = let key = lib.canonical k in insert key (values_of key header ++ (v ∷ [])) header

  -- ResponseRecorder.WriteHeader; `none` is a panic.
  unfoldable pub write_header : ℤ → Recorder → Option Recorder
  unfolding is_code
  write_header code r =
      if r.wrote_header
      then some r
      else if is_code code
      then some (record r { code = code; wrote_header = true; snapshot = r.header })
      else none

  -- The header that the first write of a body leaves.
  unfoldable pub typed : Text → Header → Header
  unfolding set
  typed body header =
      let has_type : Bool = elim (lookup (codes "Content-Type") header) [
        | none ↦ false
        | some vs ↦ true
      ] in
      if has_type || not (is_empty (first_of (values_of (codes "Transfer-Encoding") header)))
      then header
      else set (codes "Content-Type") (lib.detect body) header

  -- ResponseRecorder.Write
  unfoldable pub write : Text → Recorder → Recorder
  unfolding typed
  write body r =
      let header = typed body r.header in
      let started =
        if r.wrote_header
        then r
        else record r { code = pos 200; header = header; wrote_header = true; snapshot = header } in
      record started { body = started.body ++ body }

  -- `static` is the static handler.
  module _ (static : Recorder → Option Recorder) where
    unfoldable pub apply : Effect → Recorder → Option Recorder
    unfolding set add write_header write
    apply (sets_header k v) r = some (record r { header = set k v r.header })
    apply (adds_header k v) r = some (record r { header = add k v r.header })
    apply (writes_header code) r = write_header code r
    apply (writes body) r = some (write body r)
    apply (sleeps seconds) r = some r
    apply serves_static r = static r

    unfoldable pub apply_all : List Effect → Recorder → Option Recorder
    unfolding apply
    apply_all [] r = some r
    apply_all (e ∷ es) r = elim (apply e r) [ none ↦ none | some r' ↦ apply_all es r' ]

pub record Response : Type 0 where
  pub status : ℤ
  pub header : Header
  pub body : Text

-- What logger writes to the client: the live header, the status and the body.
unfoldable pub sent : Recorder → Response
sent r = record { status = r.code; header = r.header; body = r.body }

-- rec.Result(), of which logger dumps the raw response of the interactions.
unfoldable pub result : Recorder → Response
result r = record {
  status = r.code;
  header = if r.wrote_header then r.snapshot else r.header;
  body = r.body;
}
