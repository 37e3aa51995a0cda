-- ===== src/Commands/Flags.antt =====
-- The server's flags (pkg/options/server_options.go), and what AsServerOptions makes of them.
use interactsh.Prelude.{ℕ, Bool, List, [], ◌∷◌, none, some, Text, codes}
use interactsh.Server.Options.{ServerOptions}
use interactsh.Server.Dns.Types.{NetLib, Ip, unique_ips}

-- CLIServerOptions, without the flags that only the listeners and the printing read.
pub record CliServerOptions : Type 0 where
  pub domains : List Text
  pub dns_port : ℕ
  pub ip_addresses : List Text
  pub listen_ip : Text
  pub hostmasters : List Text
  pub ldap_with_full_logger : Bool
  pub eviction : ℕ
  pub no_eviction : Bool
  pub eviction_strategy : Text
  pub responder : Bool
  pub smb : Bool
  pub ftp : Bool
  pub auth : Bool
  pub token : Text
  pub origin_url : Text
  pub root_tld : Bool
  pub skip_acme : Bool
  pub dynamic_resp : Bool
  pub correlation_id_length : ℕ
  pub correlation_id_nonce_length : ℕ
  pub scan_everywhere : Bool
  pub certificate_path : Text
  pub private_key_path : Text
  pub origin_ip_header : Text
  pub disk_storage : Bool
  pub disk_storage_path : Text
  pub no_version_header : Bool
  pub header_server : Text

-- pkg/options/utils.go
abbrev pub version : Text
version = codes "1.3.1"

-- The addresses that parse.
unfoldable pub parse_ips : NetLib → List Text → List Ip
parse_ips net [] = []
parse_ips net (address ∷ addresses) =
    let rest = parse_ips net addresses in
    elim (net.parse_ip address) [ none ↦ rest | some ip ↦ ip ∷ rest ]

-- AsServerOptions, with the field IPAddresses beside the others. Its uniqueIPs keys an address
-- by its text, as that of the DNS server does; net.ParseIP gives no empty address.
unfoldable pub as_server_options : NetLib → CliServerOptions → ServerOptions × List Ip
unfolding parse_ips unique_ips
as_server_options net cli = (
  record {
    domains = cli.domains;
    auth = cli.auth;
    token = cli.token;
    root_tld = cli.root_tld;
    scan_everywhere = cli.scan_everywhere;
    correlation_id_length = cli.correlation_id_length;
    correlation_id_nonce_length = cli.correlation_id_nonce_length;
    origin_ip_header = cli.origin_ip_header;
    origin_url = cli.origin_url;
    version = version;
    dynamic_resp = cli.dynamic_resp;
    no_version_header = cli.no_version_header;
    header_server = cli.header_server;
  },
  unique_ips net (parse_ips net cli.ip_addresses),
)
