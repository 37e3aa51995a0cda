-- ===== src/Commands/Client.antt =====
-- main of cmd/interactsh-client/main.go: the options of its client, the callback that shows an
-- interaction, and what an interrupt does.
pub mod Showing
pub mod Start
pub mod Interrupts
use interactsh.Prelude.{
  ℕ, Bool, true, false, not, ◌&&◌, ◌||◌, List, [], ◌∷◌, ◌++◌, Option, none, some, if◌then◌else◌,
  is_empty, map, Text, codes, text_eq,
}
use interactsh.Server.Options.{Interaction}
use interactsh.Client.Lifecycle.{
  Client, Reply, Outcome, returned, panicked, stop_polling, close, url,
}
use interactsh.Client.Settings.{ClientOptions, SessionInfo}

-- CLIClientOptions (pkg/options/client_options.go), without the poll interval, the check for updates
-- and the API key.
pub record CliClientOptions : Type 0 where
  pub match_items : List Text
  pub filter_items : List Text
  pub config : Text
  pub version : Bool
  pub server_url : Text
  pub number_of_payloads : ℕ
  pub output : Text
  pub json : Bool
  pub store_payload : Bool
  pub store_payload_file : Text
  pub verbose : Bool
  pub dns_only : Bool
  pub http_only : Bool
  pub smtp_only : Bool
  pub token : Text
  pub disable_http_fallback : Bool
  pub correlation_id_length : ℕ
  pub correlation_id_nonce_length : ℕ
  pub session_file : Text
  pub asn : Bool
  pub keep_alive_interval : ℕ

-- The options of client.New; the interval for the keep-alive is not among them, and so is zero.
unfoldable pub client_options : CliClientOptions → Option SessionInfo → ClientOptions
client_options cli session = record {
  server_url = cli.server_url;
  token = cli.token;
  disable_http_fallback = cli.disable_http_fallback;
  correlation_id_length = cli.correlation_id_length;
  correlation_id_nonce_length = cli.correlation_id_nonce_length;
  session_info = session;
  keep_alive_interval = 0;
}

-- A regexp.Regexp, as what it matches.
abbrev pub Regex : Type 0
Regex = Text → Bool

-- newRegexMatcher, over regexp.Compile
unfoldable pub new_regex_matcher : (Text → Option Regex) → List Text → Option (List Regex)
new_regex_matcher compile [] = some []
new_regex_matcher compile (item ∷ items) =
    let rest = new_regex_matcher compile items in
    elim (compile item) [
      | none ↦ none
      | some regex ↦ elim rest [ none ↦ none | some regexes ↦ some (regex ∷ regexes) ]
    ]

-- regexMatcher.match
unfoldable pub matches : List Regex → Text → Bool
matches [] item = false
matches (regex ∷ regexes) item = if regex item then true else matches regexes item

-- A matcher where there are items; the outer `none` is an item that does not compile, for which the
-- program exits.
unfoldable pub matcher_of : (Text → Option Regex) → List Text → Option (Option (List Regex))
unfolding new_regex_matcher
matcher_of compile items =
    if is_empty items
    then some none
    else elim (new_regex_matcher compile items) [ none ↦ none | some m ↦ some (some m) ]

-- generatePayloadURL, with the nonces of the URLs; `none` is the panic of URL.
unfoldable pub generate_payload_url : List Text → Client → Option (List Text)
unfolding url
generate_payload_url [] client = some []
generate_payload_url (nonce ∷ nonces) client =
    let rest = generate_payload_url nonces client in
    elim (url nonce client) [
      | none ↦ none
      | some payload ↦ elim rest [ none ↦ none | some payloads ↦ some (payload ∷ payloads) ]
    ]

-- What is shown of an interaction, and what is written into the output file if there is one.
pub record Output : Type 0 where
  pub shown : List Text
  pub written : Text

-- writeOutput
unfoldable pub write_output : Bool → Text → Output
write_output has_file text = record {
  shown = text ∷ [];
  written = if has_file then text ++ codes "\n" else [];
}

-- An interaction as JSON; one that is not encoded is an empty line of the file.
unfoldable pub write_json : Bool → Option Text → Output
unfolding write_output
write_json has_file none = record { shown = []; written = if has_file then codes "\n" else [] }
write_json has_file (some b) = write_output has_file b

abbrev rule : Text → Text
rule title = codes "\n------------\n" ++ (title ++ codes "\n------------\n\n")

-- time.Format("2006-01-02 15:04:05")
module _ (format : ℕ → Text) (cli : CliClientOptions) where
  abbrev pub no_filter : Bool
  no_filter = not cli.dns_only && (not cli.http_only && not cli.smtp_only)

  abbrev heading : Text → Interaction → Text
  heading kind i =
      codes "["
      ++ (i.full_id
          ++ (codes "] Received "
              ++ (kind
                  ++ (codes " interaction from "
                      ++ (i.remote_address ++ (codes " at " ++ format i.timestamp))))))

  abbrev verbose_request : Text → Interaction → Text
  verbose_request title i =
      if cli.verbose then rule title ++ (i.raw_request ++ codes "\n\n") else []

  dns_text : Interaction → Text
  dns_text i =
      codes "["
      ++ (i.full_id
          ++ (codes "] Received DNS interaction ("
              ++ (i.q_type
                  ++ (codes ") from "
                      ++ (i.remote_address
                          ++ (codes " at "
                              ++ (format i.timestamp
                                  ++ (if cli.verbose
                                      then codes "\n-----------\nDNS Request\n-----------\n\n"
                                        ++ (i.raw_request
                                            ++ (codes
                                                  "\n\n------------\nDNS Response\n------------\n\n"
                                                ++ (i.raw_response ++ codes "\n\n")))
                                      else []))))))))

  http_text : Interaction → Text
  http_text i =
      heading (codes "HTTP") i
      ++ (if cli.verbose
          then rule (codes "HTTP Request")
            ++ (i.raw_request
                ++ (codes "\n\n-------------\nHTTP Response\n-------------\n\n"
                    ++ (i.raw_response ++ codes "\n\n")))
          else [])

  -- The cases of the switch over the protocol; `none` writes nothing.
  unfoldable pub text_of : Interaction → Option Text
  unfolding dns_text http_text
  text_of i =
      let wanted =
        λ (selected : Bool) (text : Text). if no_filter || selected then some text else none in
      if text_eq i.protocol (codes "dns")
      then wanted cli.dns_only (dns_text i)
      else if text_eq i.protocol (codes "http")
      then wanted cli.http_only (http_text i)
      else if text_eq i.protocol (codes "smtp")
      then wanted cli.smtp_only
          (heading (codes "SMTP") i ++ verbose_request (codes "SMTP Interaction") i)
      else if text_eq i.protocol (codes "ftp")
      then wanted false (
          codes "Received FTP interaction from "
          ++ (i.remote_address
              ++ (codes " at "
                  ++ (format i.timestamp ++ verbose_request (codes "FTP Interaction") i))))
      else if text_eq i.protocol (codes "responder") || text_eq i.protocol (codes "smb")
      then wanted false (
          codes "Received Responder/Smb interaction at "
          ++ (format i.timestamp ++ verbose_request (codes "Responder/SMB Interaction") i))
      else if text_eq i.protocol (codes "ldap")
      then wanted false (heading (codes "LDAP") i ++ verbose_request (codes "LDAP Interaction") i)
      else none

  -- The callback of StartPolling, over jsoniter.Marshal; whether TryGetAsnInfo has been called on the
  -- interaction only shows in its JSON.
  unfoldable pub show :
      Option (List Regex)
      → Option (List Regex)
      → (Bool → Interaction → Option Text)
      → Bool
      → Interaction
      → Output
  unfolding matches text_of write_output write_json
  show matcher filter marshal has_file interaction =
      let nothing : Output = record { shown = []; written = [] } in
      let output =
        if cli.json
        then write_json has_file (marshal cli.asn interaction)
        else elim (text_of interaction) [
          | none ↦ nothing
          | some text ↦ write_output has_file text
        ] in
      if elim matcher [ none ↦ false | some m ↦ not (matches m interaction.full_id) ]
      then nothing
      else if elim filter [ none ↦ false | some f ↦ matches f interaction.full_id ]
      then nothing
      else output

-- An interrupt, after the session is saved if there is a file for it: polling stops, and without a
-- session file the client is closed.
unfoldable pub interrupt : CliClientOptions → Reply → Client → Outcome
unfolding stop_polling close
interrupt cli reply client = elim (stop_polling client) [
  | panicked ↦ panicked
  | returned e stopped ↦
      if is_empty cli.session_file then close reply stopped else returned none stopped
]
