-- ===== src/Client/Settings.antt =====
-- The options of a client (pkg/client/client.go), a session to resume (pkg/options/session-info.go)
-- and the default lengths (pkg/settings/default.go).
use interactsh.Prelude.{ℕ, Bool, Option, none, some, if◌then◌else◌, ltb, ◌==◌, Text}
use interactsh.Client.Registration.{RegistrationError}

pub record SessionInfo : Type 0 where
  pub server_url : Text
  pub token : Text
  pub private_key : Text
  pub correlation_id : Text
  pub secret_key : Text
  pub public_key : Text

-- The options; the interval of the keep-alive routine is in nanoseconds.
pub record ClientOptions : Type 0 where
  pub server_url : Text
  pub token : Text
  pub disable_http_fallback : Bool
  pub correlation_id_length : ℕ
  pub correlation_id_nonce_length : ℕ
  pub session_info : Option SessionInfo
  pub keep_alive_interval : ℕ

pub data CreationError : Type 0 where
  short_correlation_id short_nonce : CreationError
  no_transport cleartext unverified : CreationError
  bad_public_key no_request no_keys : CreationError
  not_registered : RegistrationError → CreationError

-- pkg/settings/default.go
abbrev pub length_default : ℕ
length_default = 10

abbrev pub nonce_default : ℕ
nonce_default = 0

abbrev pub length_minimum : ℕ
length_minimum = 0

abbrev pub nonce_minimum : ℕ
nonce_minimum = 0

-- Zero asks for the default.
unfoldable pub or_default : ℕ → ℕ → ℕ
or_default n default_length = if n == 0 then default_length else n

-- The lengths that are too short.
unfoldable pub check_lengths : ClientOptions → Option CreationError
unfolding or_default
check_lengths options =
    if ltb (or_default options.correlation_id_length length_default) length_minimum
    then some short_correlation_id
    else if ltb (or_default options.correlation_id_nonce_length nonce_default) nonce_minimum
    then some short_nonce
    else none
