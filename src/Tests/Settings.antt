-- ===== src/Tests/Settings.antt =====
-- Small options, libraries and requests for the servers.
use interactsh.Prelude.{true, false, [], ◌∷◌, some, codes}
use interactsh.Server.Options.{ServerOptions, Utilities, Metrics}
use interactsh.Server.Dns.Types.{NetLib, DnsServer, Question, type_txt}
use interactsh.Server.Dns.Serve.{DnsRequest}
use interactsh.Server.Http.Types.{Request, HttpState}
use interactsh.Tests.World.{ascii_fold, small_world, small_state}

abbrev pub small_options : ServerOptions
small_options = record {
  domains = codes "o.st" ∷ [];
  auth = false;
  token = [];
  root_tld = false;
  scan_everywhere = false;
  correlation_id_length = 2;
  correlation_id_nonce_length = 1;
  origin_ip_header = [];
  origin_url = codes "*";
  version = [];
  dynamic_resp = false;
  no_version_header = false;
  header_server = [];
}

abbrev pub root_options : ServerOptions
root_options = record small_options { root_tld = true; token = codes "k"; auth = true }

-- Every text is below every other, a text is its one window, and every interaction is encoded.
abbrev pub small_utilities : Utilities
small_utilities = record {
  slide_with_length = λ t n. t ∷ [];
  split_any = λ t separators. t ∷ [];
  equal_fold = ascii_fold;
  has_suffix_i = λ t suffix. true;
  has_prefix_i = λ t prefix. false;
  is_alphanumeric = λ t. true;
  is_xid = λ t. true;
  marshal = λ i. some i.raw_request;
}

abbrev pub small_net : NetLib
small_net = record { ip_string = λ ip. ip; parse_ip = λ t. some t; fqdn = λ t. t }

abbrev pub small_server : DnsServer
small_server = record {
  options = root_options;
  mx_domains = [];
  ns_domains = [];
  ip_addresses = [];
  time_to_live = 60;
  records =
      (
        codes "aws",
        record { kind = codes "A"; value = codes "1.2.3.4"; ttl = 0; priority = 0 } ∷ [],
      )
      ∷ [];
  txt_record = [];
}

abbrev pub challenge_question : Question
challenge_question = record { name = codes "_acme-challenge.o.st."; qtype = type_txt }

abbrev pub dns_request : DnsRequest
dns_request = record {
  question = challenge_question ∷ [];
  request_text = codes "q";
  host = codes "h";
  now = 1;
}

abbrev pub no_metrics : Metrics
no_metrics = record {
  dns = 0;
  ftp = 0;
  http = 0;
  ldap = 0;
  smb = 0;
  smtp = 0;
  sessions_added = 0;
  sessions_removed = 0;
}

abbrev pub small_request : Request
small_request = record {
  method = codes "POST";
  host = codes "abc.o.st";
  path = codes "/";
  url = codes "/";
  remote_host = codes "h";
  tls = false;
  header = λ name. [];
  query = (codes "id", codes "t" ∷ []) ∷ (codes "secret", codes "s" ∷ []) ∷ [];
  dump = codes "POST / HTTP/1.1";
}

abbrev pub http_state : HttpState small_world
http_state = record { storage = small_state; stats = no_metrics }
