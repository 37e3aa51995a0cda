-- ===== src/Commands/Server.antt =====
-- main of cmd/interactsh-server/main.go, from the flags to the storage that the servers share.
pub mod Launch
pub mod Services
pub mod Defaults
use interactsh.Prelude.{
  inl, inr, ◌⊎◌, ◌==◌, ℕ, ◌*◌, ◌+◌, ◌%◌, ◌/◌, ◌-◌, ◌^◌, Bool, true, false, not, ◌&&◌, ◌||◌, List,
  [], ◌∷◌, ◌++◌, Option, none, some, if◌then◌else◌, ltb, leb, is_empty, Text, codes, text_eq,
  to_lower,
}
use interactsh.Storage.Libraries.{Libs}
use interactsh.Storage.Types.{Options, StorageDb, EvictionStrategy, sliding, fixed, default_options}
use interactsh.Storage.Sessions.{new, set_id}
use interactsh.Server.Options.{ServerOptions}
use interactsh.Server.Dns.Types.{NetLib, Ip}
use interactsh.Client.Settings.{length_minimum, nonce_minimum}
use interactsh.Commands.Flags.{CliServerOptions, as_server_options}

-- What makes the program exit.
pub data Fatal : Type 0 where
  no_domains short_correlation_id short_nonce : Fatal
  no_public_ip no_bindable_address : Fatal
  responder_and_smb no_token bad_eviction_strategy no_disk_path no_storage : Fatal

-- What the program meets: the addresses (none of the outbound IP is nil, which prints as "<nil>"),
-- GetBindableAddress with whether it gives an error, the random bytes of the token, an
-- environment variable, and what storage.New opens.
pub record Host (L : Libs) : Type 0 where
  pub public_ip : Text
  pub outbound_ip : Option Text
  pub bindable : ℕ → Text → Text → Text × Bool
  pub token_bytes : Option Text
  pub max_shared_interactions : Text
  pub cache : L.cache.State
  pub db : L.db.State
  pub entropy : ℕ → ℕ
  pub folder_exists : Bool

unfoldable pub check_flags : CliServerOptions → Option Fatal
check_flags cli =
    if is_empty cli.domains
    then some no_domains
    else if ltb cli.correlation_id_length length_minimum
    then some short_correlation_id
    else if ltb cli.correlation_id_nonce_length nonce_minimum
    then some short_nonce
    else none

abbrev pub text_of : Option Text → Text
text_of none = codes "<nil>"
text_of (some ip) = ip

abbrev pub is_nil : Option Text → Bool
is_nil none = true
is_nil (some ip) = false

-- The part of main under "0.0.0.0" with no address: a public address is found and bound to.
unfoldable pub find_address :
    {L : Libs} → Host L → CliServerOptions → Option Fatal × CliServerOptions
find_address host cli =
    let public_ip = if is_empty host.public_ip then text_of host.outbound_ip else host.public_ip in
    let (bindable, bind_error) = host.bindable cli.dns_port public_ip (text_of host.outbound_ip) in
    if is_empty host.public_ip && is_nil host.outbound_ip
    then (some no_public_ip, cli)
    else if is_empty bindable && bind_error
    then (some no_bindable_address, cli)
    else (
      none,
      record cli { listen_ip = bindable; ip_addresses = cli.ip_addresses ++ (public_ip ∷ []) },
    )

unfoldable pub resolve_address :
    {L : Libs} → Host L → CliServerOptions → Option Fatal × CliServerOptions
unfolding find_address
resolve_address host cli =
    if is_empty cli.ip_addresses && text_eq cli.listen_ip (codes "0.0.0.0")
    then find_address host cli
    else (none, cli)

unfoldable pub add_hostmasters : List Text → CliServerOptions → CliServerOptions
add_hostmasters [] cli = cli
add_hostmasters (domain ∷ domains) cli =
    add_hostmasters domains
      (record cli { hostmasters = cli.hostmasters ++ ((codes "admin@" ++ domain) ∷ []) })

-- The three tests that turn authentication on.
unfoldable pub require_auth : CliServerOptions → ServerOptions → ServerOptions
require_auth cli options =
    let asked =
      if not (is_empty options.token)
        || cli.responder
        || cli.smb
        || cli.ftp
        || cli.ldap_with_full_logger
      then record options { auth = true }
      else options in
    let rooted = if asked.root_tld then record asked { auth = true } else asked in
    if not (is_empty rooted.token) then record rooted { auth = true } else rooted

unfoldable pub hex_digit : ℕ → ℕ
hex_digit n = if ltb n 10 then 48 + n else 87 + n

-- hex.EncodeToString
unfoldable pub hex_encode : Text → Text
unfolding hex_digit
hex_encode [] = []
hex_encode (b ∷ bs) = hex_digit (b / 16) ∷ hex_digit (b % 16) ∷ hex_encode bs

-- The token that is generated where none is given.
unfoldable pub give_token : Option Text → ServerOptions → Option Fatal × ServerOptions
unfolding hex_encode
give_token bytes options =
    if options.auth && is_empty options.token
    then elim bytes [
      | none ↦ (some no_token, options)
      | some b ↦ (none, record options { token = hex_encode b })
    ]
    else (none, options)

-- A time.Duration, which wraps around; one that is not positive is 0 here.
unfoldable pub eviction_ttl : CliServerOptions → ℕ
eviction_ttl cli =
    let wrapped = (cli.eviction * (24 * 3600 * 10 ^ 9)) % 2 ^ 64 in
    if cli.no_eviction then 0 else if leb (2 ^ 63) wrapped then 0 else wrapped

unfoldable pub eviction_strategy_of : Text → Option EvictionStrategy
eviction_strategy_of name =
    if text_eq (to_lower name) (codes "fixed")
    then some fixed
    else if text_eq (to_lower name) (codes "sliding")
    then some sliding
    else none

-- The digits of strconv.Atoi after a sign, most significant first.
unfoldable pub digits : ℕ → Text → Option ℕ
digits n [] = some n
digits n (d ∷ ds) =
    let rest = digits (10 * n + (d - 48)) ds in if leb 48 d && leb d 57 then rest else none

-- strconv.Atoi of a number that is then asked to be positive: none is an error, or another number.
unfoldable pub positive_atoi : Text → Option ℕ
unfolding digits
positive_atoi [] = none
positive_atoi (d ∷ ds) =
    let number = if d == 43 then digits 0 ds else digits 0 (d ∷ ds) in
    elim number [ none ↦ none | some n ↦ if ltb 0 n && ltb n (2 ^ 63) then some n else none ]

unfoldable pub limit_of : Text → Options → Options
unfolding positive_atoi
limit_of value options = elim (positive_atoi value) [
  | none ↦ options
  | some n ↦ record options { max_shared_interactions = n }
]

-- The options of the storage.
unfoldable pub storage_options : CliServerOptions → Text → Fatal ⊎ Options
unfolding eviction_ttl eviction_strategy_of limit_of
storage_options cli limit = elim (eviction_strategy_of cli.eviction_strategy) [
  | none ↦ inl bad_eviction_strategy
  | some strategy ↦
      let options : Options = record default_options {
        eviction_ttl = eviction_ttl cli;
        eviction_strategy = strategy;
      } in
      if cli.disk_storage
      then (if is_empty cli.disk_storage_path
          then inl no_disk_path
          else inr (limit_of limit (record options { db_path = cli.disk_storage_path })))
      else inr (limit_of limit options)
]
