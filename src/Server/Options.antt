-- ===== src/Server/Options.antt =====
-- pkg/server/server.go: Interaction, Options and GetIdLength, with the libraries that every
-- protocol server of pkg/server calls.
use interactsh.Prelude.{ℕ, ◌+◌, Bool, List, [], Option, Text}
use interactsh.Prelude.{◌^◌, ◌%◌}

pub record Interaction : Type 0 where
  pub protocol : Text
  pub unique_id : Text
  pub full_id : Text
  pub q_type : Text
  pub raw_request : Text
  pub raw_response : Text
  pub smtp_from : Text
  pub remote_address : Text
  pub timestamp : ℕ

-- The fields that are not given are empty.
abbrev pub no_interaction : Interaction
no_interaction = record {
  protocol = [];
  unique_id = [];
  full_id = [];
  q_type = [];
  raw_request = [];
  raw_response = [];
  smtp_from = [];
  remote_address = [];
  timestamp = 0;
}

-- The options that the modelled code reads.
pub record ServerOptions : Type 0 where
  pub domains : List Text
  pub auth : Bool
  pub token : Text
  pub root_tld : Bool
  pub scan_everywhere : Bool
  pub correlation_id_length : ℕ
  pub correlation_id_nonce_length : ℕ
  pub origin_ip_header : Text
  pub origin_url : Text
  pub version : Text
  pub dynamic_resp : Bool
  pub no_version_header : Bool
  pub header_server : Text

unfoldable pub get_id_length : ServerOptions → ℕ
get_id_length options = options.correlation_id_length + options.correlation_id_nonce_length

-- projectdiscovery/utils/strings (the channel of SlideWithLength as the list of what it sends),
-- govalidator.IsAlphanumeric, whether xid.FromString succeeds, and jsoniter.Marshal.
pub record Utilities : Type 0 where
  pub slide_with_length : Text → ℕ → List Text
  pub split_any : Text → Text → List Text
  pub equal_fold : Text → Text → Bool
  pub has_suffix_i : Text → Text → Bool
  pub has_prefix_i : Text → Text → Bool
  pub is_alphanumeric : Text → Bool
  pub is_xid : Text → Bool
  pub marshal : Interaction → Option Text

-- pkg/server/metrics.go: the counters that the servers keep. Sessions may be negative: it is
-- what was added and what was taken away, apart.
pub record Metrics : Type 0 where
  pub dns : ℕ
  pub ftp : ℕ
  pub http : ℕ
  pub ldap : ℕ
  pub smb : ℕ
  pub smtp : ℕ
  pub sessions_added : ℕ
  pub sessions_removed : ℕ

-- atomic.AddUint64(&counter, 1)
unfoldable pub bump : ℕ → ℕ
bump n = (n + 1) % 2 ^ 64
