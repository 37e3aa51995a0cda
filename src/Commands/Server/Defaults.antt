-- ===== src/Commands/Server/Defaults.antt =====
-- The defaults of the server's flags (main of cmd/interactsh-server/main.go), and what the server
-- launches with under them.
use interactsh.Prelude.{
  ◌*◌, ◌^◌, ◌≡◌, refl, ap, ◌∙◌, inr, Bool, false, ◌&&◌, [], Option, ◌∷◌, ◌++◌, none, arith,
  is_empty, Text, codes, text_eq, to_lower,
}
use interactsh.Storage.Libraries.{Libs}
use interactsh.Storage.Types.{Options, default_options, empty_data, use_disk}
use interactsh.Server.Dns.Types.{NetLib, unique_ips}
use interactsh.Client.Settings.{length_default, nonce_default}
use interactsh.Commands.Flags.{CliServerOptions, parse_ips, as_server_options}
use interactsh.Commands.Alive.{Ports}
use interactsh.Commands.Server.{
  Fatal, Host, text_of, resolve_address, find_address, storage_options, positive_atoi, check_flags,
  add_hostmasters,
}
use interactsh.Commands.Server.Launch.{Launched, launch, launch_at, open_storage}

abbrev pub default_flags : CliServerOptions
default_flags = record {
  domains = [];
  dns_port = 53;
  ip_addresses = [];
  listen_ip = codes "0.0.0.0";
  hostmasters = [];
  ldap_with_full_logger = false;
  eviction = 30;
  no_eviction = false;
  eviction_strategy = codes "sliding";
  responder = false;
  smb = false;
  ftp = false;
  auth = false;
  token = [];
  origin_url = codes "*";
  root_tld = false;
  skip_acme = false;
  dynamic_resp = false;
  correlation_id_length = length_default;
  correlation_id_nonce_length = nonce_default;
  scan_everywhere = false;
  certificate_path = [];
  private_key_path = [];
  origin_ip_header = [];
  disk_storage = false;
  disk_storage_path = [];
  no_version_header = false;
  header_server = [];
}

abbrev pub default_ports : Ports
default_ports = record {
  dns_port = 53;
  http_port = 80;
  https_port = 443;
  smtp_port = 25;
  smtps_port = 587;
  ftp_port = 21;
  ftps_port = 990;
  smb_port = 445;
  ldap_port = 389;
}

-- The storage in memory, for 30 days.
abbrev pub thirty_days : Options
thirty_days = record default_options { eviction_ttl = 30 * (24 * 3600 * 10 ^ 9) }

launch-launch_at :
    {L : Libs} (net : NetLib) (host : Host L) (cli found : CliServerOptions)
    → check_flags cli ≡ none
    → resolve_address host cli ≡ (none, found)
    → launch net host cli ≡ launch_at net host (add_hostmasters found.domains found)
unfolding launch
launch-launch_at net host cli found fine at =
    rw (launch, fine, ap (λ r. r.0) at)
      (ap
        (λ (r : Option Fatal × CliServerOptions).
          launch_at net host (add_hostmasters r.1.domains r.1))
        at)

module _ {L : Libs} (net : NetLib) (host : Host L) (domain : Text) where
  abbrev named_flags : CliServerOptions
  named_flags = record default_flags { domains = domain ∷ [] }

  abbrev chosen : Text × Bool
  chosen = host.bindable 53 host.public_ip (text_of host.outbound_ip)

  resolve_address-found :
      is_empty host.public_ip ≡ false
      → is_empty chosen.0 && chosen.1 ≡ false
      → resolve_address host named_flags
        ≡ (none, record named_flags { listen_ip = chosen.0; ip_addresses = host.public_ip ∷ [] })
  unfolding resolve_address find_address text_eq
  resolve_address-found public binds = ground (arith, public, binds)

  abbrev launched : Launched L
  launched = record {
    options = (as_server_options net named_flags).0;
    ip_addresses = unique_ips net (parse_ips net (host.public_ip ∷ []));
    hostmasters = (codes "admin@" ++ domain) ∷ [];
    storage = record {
      options = thirty_days;
      cache = host.cache;
      db = host.db;
      heap = λ p. empty_data;
      next = 0;
      entropy = host.entropy;
    };
  }

  abbrev found : CliServerOptions
  found = record named_flags {
    listen_ip = chosen.0;
    ip_addresses = host.public_ip ∷ [];
    hostmasters = (codes "admin@" ++ domain) ∷ [];
  }

  storage_options-found :
      host.max_shared_interactions ≡ []
      → storage_options found host.max_shared_interactions ≡ inr thirty_days
  unfolding storage_options text_eq to_lower positive_atoi
  storage_options-found unset = ap (storage_options found) unset

  launch_at-found : host.max_shared_interactions ≡ [] → launch_at net host found ≡ inr launched
  unfolding launch_at use_disk
  launch_at-found unset = rw (launch_at, open_storage, storage_options-found unset) refl

  launch-found :
      is_empty host.public_ip ≡ false
      → is_empty chosen.0 && chosen.1 ≡ false
      → host.max_shared_interactions ≡ []
      → launch net host named_flags ≡ inr launched
  unfolding check_flags
  launch-found public binds unset =
      let at = record found { hostmasters = [] } in
      launch-launch_at net host named_flags at refl (resolve_address-found public binds)
      ∙ unfold add_hostmasters in launch_at-found unset

  -- With a domain, the defaults of the other flags, no limit in the environment, and a public
  -- address that can be bound to, the server launches: with no authentication and no token, at that
  -- address, with one hostmaster, and with a storage in memory that evicts after 30 days.
  pub launch-defaults :
      is_empty host.public_ip ≡ false
      → is_empty chosen.0 && chosen.1 ≡ false
      → host.max_shared_interactions ≡ []
      → (t : Launched L) × (launch net host named_flags ≡ inr t)
        × (t.options.auth ≡ false)
        × (t.options.token ≡ [])
        × (t.hostmasters ≡ (codes "admin@" ++ domain) ∷ [])
        × (t.storage.options ≡ thirty_days)
  unfolding as_server_options
  launch-defaults public binds unset =
      (launched, launch-found public binds unset, refl, refl, refl, refl)
