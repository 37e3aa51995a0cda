-- ===== src/Tests/Programs.antt =====
-- The theorems on the programs and on the log files, at small flags.
use interactsh.Prelude.{
  has, ◌*◌, ◌^◌, ◌≡◌, ℕ, zero, suc, refl, text_eq, to_lower, true, false, List, [], ◌∷◌, none, some,
  inr, Text, codes, length, is_empty, All, arith,
}
use interactsh.Storage.Libraries.{not_found}
use interactsh.Storage.Types.{StorageDb, default_options, empty_data, use_disk}
use interactsh.Server.Options.{Interaction, no_interaction, ServerOptions}
use interactsh.Server.Watching.{watch_from}
use interactsh.Server.Watching.Lines.{distinct, all_lines, watch_from-distinct}
use interactsh.Commands.Flags.{CliServerOptions, as_server_options}
use interactsh.Commands.Server.{Host, hex_encode}
use interactsh.Commands.Server.Launch.{Launched, launch, set_ids}
use interactsh.Commands.Server.Launch.Auth.{IsSecured, launch-IsSecured}
use interactsh.Commands.Server.Services.{Creation, start_services, IsGuarded, launch-IsGuarded}
use interactsh.Commands.Client.{CliClientOptions, Regex}
use interactsh.Tests.World.{small_world}
use interactsh.Tests.Settings.{small_net}

-- At the second tick, the file has grown by a line that is new and by one that is not.
watch_from-distinct_example :
    watch_from [] (codes "a\n" ∷ codes "a\nb\na\n" ∷ [])
    ≡ distinct (all_lines (codes "a\n" ∷ codes "a\nb\na\n" ∷ []))
watch_from-distinct_example = watch_from-distinct (codes "a\n" ∷ codes "a\nb\na\n" ∷ [])

abbrev cli_flags : CliServerOptions
cli_flags = record {
  domains = codes "o.st" ∷ [];
  dns_port = 53;
  ip_addresses = codes "1" ∷ [];
  listen_ip = codes "0.0.0.0";
  hostmasters = [];
  ldap_with_full_logger = false;
  eviction = 30;
  no_eviction = false;
  eviction_strategy = codes "sliding";
  responder = false;
  smb = true;
  ftp = false;
  auth = false;
  token = [];
  origin_url = codes "*";
  root_tld = true;
  skip_acme = true;
  dynamic_resp = false;
  correlation_id_length = 10;
  correlation_id_nonce_length = 0;
  scan_everywhere = false;
  certificate_path = [];
  private_key_path = [];
  origin_ip_header = [];
  disk_storage = false;
  disk_storage_path = [];
  no_version_header = false;
  header_server = [];
}

abbrev zeros : ℕ → Text
zeros zero = []
zeros (suc n) = 0 ∷ zeros n

abbrev small_host : Host small_world
small_host = record {
  public_ip = [];
  outbound_ip = none;
  bindable = λ port ip other. (ip, false);
  token_bytes = some (zeros 32);
  max_shared_interactions = [];
  cache = λ id. none;
  db = λ id. not_found;
  entropy = λ i. 0;
  folder_exists = true;
}

-- The flags ask for authentication by -smb and by -wildcard, and a token is generated.
abbrev launched_options : ServerOptions
launched_options = record (as_server_options small_net cli_flags).0 {
  auth = true;
  token = hex_encode (zeros 32);
}

abbrev opened : StorageDb small_world
opened = record {
  options = record default_options { eviction_ttl = 30 * (24 * 3600 * 10 ^ 9) };
  cache = small_host.cache;
  db = small_host.db;
  heap = λ p. empty_data;
  next = 0;
  entropy = small_host.entropy;
}

abbrev small_launched : Launched small_world
small_launched = record {
  options = launched_options;
  ip_addresses = codes "1" ∷ [];
  hostmasters = codes "admin@o.st" ∷ [];
  storage = set_ids launched_options opened;
}

small_launch : launch small_net small_host cli_flags ≡ inr small_launched
unfolding launch text_eq to_lower use_disk has
small_launch = refl

small_token : (b : Text) → some (zeros 32) ≡ some b → length b ≡ 32
small_token b e = ground (arith, e)

launch-IsSecured_example : IsSecured cli_flags small_launched
launch-IsSecured_example =
    launch-IsSecured small_net small_host cli_flags small_launched small_token small_launch

abbrev all_made : Creation
all_made = record {
  http_fails = false;
  smtp_fails = false;
  ldap_fails = false;
  ftp_fails = false;
  responder_fails = false;
  smb_fails = false;
}

launch-IsGuarded_example :
    All (IsGuarded small_launched.options.auth) (start_services cli_flags all_made).0
    × (small_launched.options.auth ≡ true → is_empty small_launched.options.token ≡ false)
launch-IsGuarded_example =
    launch-IsGuarded small_net small_host cli_flags small_launched all_made small_token small_launch

abbrev pub client_flags : CliClientOptions
client_flags = record {
  match_items = codes "abc" ∷ [];
  filter_items = [];
  config = [];
  version = false;
  server_url = [];
  number_of_payloads = 1;
  output = [];
  json = false;
  store_payload = false;
  store_payload_file = [];
  verbose = false;
  dns_only = true;
  http_only = false;
  smtp_only = false;
  token = [];
  disable_http_fallback = false;
  correlation_id_length = 10;
  correlation_id_nonce_length = 0;
  session_file = [];
  asn = false;
  keep_alive_interval = 60;
}

abbrev abc : List Regex
abc = (λ id. text_eq id (codes "abc")) ∷ []

abbrev dns_interaction : Interaction
dns_interaction = record no_interaction {
  protocol = codes "dns";
  full_id = codes "abc";
  q_type = codes "A";
}
