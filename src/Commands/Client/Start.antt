-- ===== src/Commands/Client/Start.antt =====
-- The start of cmd/interactsh-client/main.go, from the flags to StartPolling. The flags are parsed;
-- the banner, the API key and the check for updates, which change nothing below, are left out.
use interactsh.Prelude.{
  ℕ, zero, suc, Bool, not, ◌&&◌, List, [], ◌∷◌, ◌++◌, Option, none, some, if◌then◌else◌, is_empty,
  Text, codes,
}
use interactsh.Storage.Libraries.{CryptoLib}
use interactsh.Client.Lifecycle.{Client, ClientError, start_polling}
use interactsh.Client.Registration.{UrlLib}
use interactsh.Client.Settings.{SessionInfo, CreationError}
use interactsh.Client.Keys.{KeyLib}
use interactsh.Client.Creation.{Environment, not_created, creation_panics, created, new}
use interactsh.Commands.Client.{
  CliClientOptions, client_options, Regex, matcher_of, generate_payload_url,
}

-- The file system: what exists, which files can be created and written, MergeConfigFile, and the
-- session that a file holds.
pub record ClientFiles : Type 0 where
  pub exists : Text → Bool
  pub creates : Text → Bool
  pub writes : Text → Bool
  pub merge : CliClientOptions → Option CliClientOptions
  pub session : Text → Option SessionInfo

-- What the program exits with before it polls.
pub data Exit : Type 0 where
  health_checked shows_version : Exit
  bad_config no_output_file : Exit
  not_made : CreationError → Exit
  no_payload_file bad_matchers bad_filter : Exit

-- What the program polls with: its options, its client, the payloads that it lists, what it stores
-- of them, the matcher and the filter, and the error of StartPolling, which is only reported.
pub record Polling : Type 0 where
  pub cli : CliClientOptions
  pub client : Client
  pub error : Option ClientError
  pub payloads : List Text
  pub stored : Option Text
  pub matcher : Option (List Regex)
  pub filter : Option (List Regex)

pub data Start : Type 0 where
  exits : Exit → Start
  start_panics : Start
  polls : Polling → Start

-- strings.Join of lines
unfoldable pub join_lines : List Text → Text
join_lines [] = []
join_lines (line ∷ lines) =
    let rest = join_lines lines in if is_empty lines then line else line ++ (codes "\n" ++ rest)

-- The nonces of the payloads, in their order.
unfoldable pub payload_nonces : (ℕ → Text) → ℕ → List Text
payload_nonces nonce zero = []
payload_nonces nonce (suc n) = payload_nonces nonce n ++ (nonce n ∷ [])

module _ (files : ClientFiles) (compile : Text → Option Regex) (nonce : ℕ → Text) where
  -- main once it has a client.
  unfoldable pub poll_with : CliClientOptions → Client → Start
  unfolding payload_nonces generate_payload_url join_lines matcher_of start_polling
  poll_with cli client =
      let stores = cli.store_payload && not (is_empty cli.store_payload_file) in
      let (error, started) = start_polling client in
      elim (generate_payload_url (payload_nonces nonce cli.number_of_payloads) client) [
        | none ↦ start_panics
        | some payloads ↦
            if stores && not (files.writes cli.store_payload_file)
            then exits no_payload_file
            else elim (matcher_of compile cli.match_items) [
              | none ↦ exits bad_matchers
              | some matcher ↦ elim (matcher_of compile cli.filter_items) [
                | none ↦ exits bad_filter
                | some filter ↦ polls (record {
                  cli = cli;
                  client = started;
                  error = error;
                  payloads = payloads;
                  stored = if stores then some (join_lines payloads) else none;
                  matcher = matcher;
                  filter = filter;
                })
              ]
            ]
      ]

  module _ (c : CryptoLib) (keys : KeyLib c) (urls : UrlLib) (has_prefix_i : Text → Text → Bool)
      (env : Environment c) where
    -- main from the output file on, with the options that the configuration file was merged into.
    unfoldable pub create : CliClientOptions → Start
    unfolding client_options new poll_with
    create cli =
        let session =
          if files.exists cli.session_file then files.session cli.session_file else none in
        if not (is_empty cli.output) && not (files.creates cli.output)
        then exits no_output_file
        else elim (new c keys urls has_prefix_i env (client_options cli session)) [
          | not_created e ↦ exits (not_made e)
          | creation_panics ↦ start_panics
          | created m ↦ poll_with cli m.client
        ]

    -- main after the flags, one of which asks for a health check.
    unfoldable pub start_client : Bool → CliClientOptions → Start
    unfolding create
    start_client health_check cli =
        if health_check
        then exits health_checked
        else if cli.version
        then exits shows_version
        else elim (if files.exists cli.config then files.merge cli else some cli) [
          | none ↦ exits bad_config
          | some merged ↦ create merged
        ]
