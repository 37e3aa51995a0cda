-- ===== src/Commands/Server/Launch.antt =====
-- main of cmd/interactsh-server/main.go as a whole, up to the servers that it starts.
pub mod Ids
pub mod Found
pub mod Auth
use interactsh.Prelude.{
  ℕ, Bool, true, not, ◌&&◌, ◌||◌, List, [], ◌∷◌, Option, none, some, inl, inr, ◌⊎◌, if◌then◌else◌,
  is_empty, Text,
}
use interactsh.Storage.Libraries.{Libs}
use interactsh.Storage.Types.{StorageDb}
use interactsh.Storage.Sessions.{new, set_id}
use interactsh.Server.Options.{ServerOptions}
use interactsh.Server.Dns.Types.{NetLib, Ip}
use interactsh.Commands.Flags.{CliServerOptions, as_server_options}
use interactsh.Commands.Server.{
  Fatal, no_storage, responder_and_smb, Host, check_flags, resolve_address, add_hostmasters,
  require_auth, give_token, storage_options,
}

-- What the servers are started with.
pub record Launched (L : Libs) : Type 0 where
  pub options : ServerOptions
  pub ip_addresses : List Ip
  pub hostmasters : List Text
  pub storage : StorageDb L

module _ {L : Libs} where
  unfoldable pub set_all : List Text → StorageDb L → StorageDb L
  unfolding set_id
  set_all [] s = s
  set_all (id ∷ ids) s = set_all ids (set_id s id)

  -- The ids that the server sets for itself.
  unfoldable pub set_ids : ServerOptions → StorageDb L → StorageDb L
  unfolding set_all
  set_ids options s =
      let with_token = if options.auth then set_id s options.token else s in
      if options.root_tld then set_all options.domains with_token else with_token

  unfoldable pub open_storage : Host L → CliServerOptions → ServerOptions → Fatal ⊎ StorageDb L
  unfolding storage_options set_ids new
  open_storage host cli options = elim (storage_options cli host.max_shared_interactions) [
    | inl e ↦ inl e
    | inr chosen ↦ elim (new L chosen host.cache host.db host.entropy host.folder_exists) [
      | none ↦ inl no_storage
      | some s ↦ inr (set_ids options s)
    ]
  ]

  -- main, from the address on.
  unfoldable pub launch_at : NetLib → Host L → CliServerOptions → Fatal ⊎ Launched L
  unfolding as_server_options require_auth give_token open_storage
  launch_at net host cli =
      let (e, options) =
        give_token host.token_bytes (require_auth cli (as_server_options net cli).0) in
      if cli.responder && cli.smb then inl responder_and_smb else elim e [
        | some fatal ↦ inl fatal
        | none ↦ elim (open_storage host cli options) [
          | inl fatal ↦ inl fatal
          | inr s ↦ inr (record {
            options = options;
            ip_addresses = (as_server_options net cli).1;
            hostmasters = cli.hostmasters;
            storage = s;
          })
        ]
      ]

  -- main
  unfoldable pub launch : NetLib → Host L → CliServerOptions → Fatal ⊎ Launched L
  unfolding check_flags resolve_address add_hostmasters launch_at
  launch net host cli =
      let (e, found) = resolve_address host cli in
      elim (check_flags cli) [
        | some fatal ↦ inl fatal
        | none ↦ elim e [
          | some fatal ↦ inl fatal
          | none ↦ launch_at net host (add_hostmasters found.domains found)
        ]
      ]
