-- ===== src/Server/Watching.antt =====
-- Log files that are watched: Watch (pkg/filewatcher/filewatcher.go), and the loops of
-- SMBServer.ListenAndServe (pkg/server/smb_server.go) and ResponderServer.ListenAndServe
-- (pkg/server/responder_server.go) over what it sends.
pub mod Lines
use interactsh.Prelude.{
  ℕ, ◌==◌, Bool, true, false, List, [], ◌∷◌, ◌++◌, Option, none, some, if◌then◌else◌, length, ltb,
  is_empty, Text, codes, has, text_eq, ◌||◌, take, ◌&&◌,
}
use interactsh.Storage.Lines.{newline, split}
use interactsh.Storage.Isolation.Steps.{Call, adds_with_id}
use interactsh.Server.Options.{ServerOptions, Utilities, no_interaction, Metrics, bump}
use interactsh.Server.Dns.Serve.{call_of}
use interactsh.Server.Http.Pages.{index}

-- bufio.ScanLines drops a carriage return at the end of a line.
unfoldable pub drop_cr : Text → Text
drop_cr [] = []
drop_cr (c ∷ []) = if c == 13 then [] else c ∷ []
drop_cr (c ∷ d ∷ cs) = c ∷ drop_cr (d ∷ cs)

-- The lines that a bufio.Scanner gives: it ends at a line that does not fit its buffer, and
-- after the last newline there is no line.
unfoldable pub scanned : List Text → List Text
unfolding drop_cr
scanned [] = []
scanned (l ∷ []) = if is_empty l || ltb 65535 (length l) then [] else drop_cr l ∷ []
scanned (l ∷ m ∷ ls) =
    let rest = scanned (m ∷ ls) in if ltb 65535 (length l) then [] else drop_cr l ∷ rest

unfoldable pub scan_lines : Text → List Text
unfolding scanned split
scan_lines content = scanned (split newline content)

-- The lines of one tick of Watch, given the lines seen: what is sent, and what is then seen.
unfoldable pub tick : List Text → List Text → List Text × List Text
tick [] seen = ([], seen)
tick (data_line ∷ ls) seen =
    let known = tick ls seen in
    let fresh = tick ls (data_line ∷ seen) in
    if has data_line seen then known else (data_line ∷ fresh.0, fresh.1)

-- The goroutine of Watch: what it sends, for the contents that the file has at the ticks.
unfoldable pub watch_from : List Text → List Text → List Text
unfolding tick scan_lines
watch_from seen [] = []
watch_from seen (content ∷ contents) =
    let (sent, seen_then) = tick (scan_lines content) seen in sent ++ watch_from seen_then contents

-- Watch; `none` is its error, of a file that does not exist.
unfoldable pub watch : Bool → List Text → Option (List Text)
unfolding watch_from
watch file_exists contents = if file_exists then some (watch_from [] contents) else none

-- An entry of a monitor list: what a line is searched for, and what its data comes after.
pub record Monitored : Type 0 where
  pub search_term : Text
  pub extract_after : Text

abbrev pub smb_monitor_list : List Monitored
smb_monitor_list = record { search_term = codes "INFO: "; extract_after = codes "INFO: " } ∷ []

abbrev pub responder_monitor_list : List Monitored
responder_monitor_list =
    record { search_term = codes "NTLMv2-SSP Hash"; extract_after = codes "NTLMv2-SSP Hash     : " }
    ∷ []

-- strings.Contains
unfoldable pub contains : Text → Text → Bool
unfolding index
contains s pattern_text = elim (index s pattern_text) [ none ↦ false | some i ↦ true ]

-- stringsutil.After gives the text after a word, or an error. `now` is the time at which a line is
-- handled: no line is handled twice.
module _ (u : Utilities) (after : Text → Text → Option Text) (options : ServerOptions)
    (now : Text → ℕ) where
  -- The loop over a monitor list, for a line of the log.
  unfoldable pub monitor : Text → List Monitored → Text → List Call
  unfolding contains call_of
  monitor protocol [] line = []
  monitor protocol (m ∷ ms) line =
      (if contains line m.search_term
        then elim (after line m.extract_after) [
          | none ↦ []
          | some raw ↦
              call_of
                (u.marshal (record no_interaction {
                  protocol = protocol;
                  raw_request = raw;
                  timestamp = now line;
                }))
                (adds_with_id options.token)
        ]
        else [])
      ++ monitor protocol ms line

  -- The goroutine of SMBServer.ListenAndServe, over the lines that it receives.
  unfoldable pub smb_loop : List Text → Metrics → Metrics × List Call
  unfolding bump monitor
  smb_loop [] stats = (stats, [])
  smb_loop (line ∷ lines) stats =
      let rest = smb_loop lines (record stats { smb = bump stats.smb }) in
      (rest.0, monitor (codes "smb") smb_monitor_list line ++ rest.1)

  -- The goroutine of ResponderServer.ListenAndServe, which counts nothing.
  unfoldable pub responder_loop : List Text → List Call
  unfolding monitor
  responder_loop [] = []
  responder_loop (line ∷ lines) =
      monitor (codes "responder") responder_monitor_list line ++ responder_loop lines
