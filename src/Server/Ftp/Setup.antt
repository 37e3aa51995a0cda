-- ===== src/Server/Ftp/Setup.antt =====
-- NewFTPServer and ListenAndServe of pkg/server/ftp_server.go. The FTP library's NewServer and
-- ListenAndServe, os.MkdirTemp and file.NewDriver are parameters, by whether they fail.
use interactsh.Prelude.{
  Bool, true, false, not, ◌&&◌, ◌||◌, List, [], ◌∷◌, Option, none, some, if◌then◌else◌, is_empty,
  Text,
}

-- A certificate and its key, by their files.
pub record KeyPair : Type 0 where
  pub cert_file : Text
  pub key_file : Text

-- What fails of what NewFTPServer calls.
pub record FtpFailures : Type 0 where
  pub temp_dir : Bool
  pub driver : Bool
  pub ftp : Bool
  pub ftps : Bool

-- `ftps` is the key pair of the server with TLS; without one the field ftpsServer is nil.
pub record FtpServer : Type 0 where
  pub ftps : Option KeyPair

-- The key pair of the options, with the first of CertFiles before the custom one.
unfoldable pub ftps_key_pair : Text → Text → List KeyPair → Option KeyPair
ftps_key_pair certificate_path private_key_path (first ∷ rest) = some first
ftps_key_pair certificate_path private_key_path [] =
    if not (is_empty certificate_path) && not (is_empty private_key_path)
    then some (record { cert_file = certificate_path; key_file = private_key_path })
    else none

-- NewFTPServer; `none` is an error.
unfoldable pub new_ftp_server : FtpFailures → Text → Text → Text → List KeyPair → Option FtpServer
unfolding ftps_key_pair
new_ftp_server fails ftp_directory certificate_path private_key_path cert_files =
    let pair = ftps_key_pair certificate_path private_key_path cert_files in
    if is_empty ftp_directory && fails.temp_dir
    then none
    else if fails.driver || fails.ftp
    then none
    else elim pair [
      | none ↦ some (record { ftps = none })
      | some files ↦ if fails.ftps then none else some (record { ftps = some files })
    ]

-- ListenAndServe: what it tells the channels of FTPS and FTP, where TLS is set up or not, and each
-- listener fails or not. `none` is a panic, in a goroutine of its own: with TLS set up it calls a
-- method of ftpsServer, which reads the fields of a server that may be nil.
unfoldable pub listen_and_serve_ftp :
    FtpServer → Bool → Bool → Bool → Option (List Bool × List Bool)
listen_and_serve_ftp server has_tls ftps_fails ftp_fails =
    let ftp_alive = if ftp_fails then true ∷ false ∷ [] else true ∷ [] in
    if not has_tls then some ([], ftp_alive) else elim server.ftps [
      | none ↦ none
      | some files ↦ some (if ftps_fails then true ∷ false ∷ [] else true ∷ [], ftp_alive)
    ]
