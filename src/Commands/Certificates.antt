-- ===== src/Commands/Certificates.antt =====
-- The server's certificates: HandleWildcardCertificates, ExtractCaddyPaths and the two functions
-- that build a TLS configuration (pkg/server/acme/acme_certbot.go), and how main
-- (cmd/interactsh-server/main.go) calls them.
pub mod Retries
pub mod Ftp
use interactsh.Prelude.{
  ℕ, zero, suc, Bool, true, false, not, ◌&&◌, List, [], ◌∷◌, ◌++◌, Option, none, some,
  if◌then◌else◌, is_empty, Text, codes, length, drop,
}
use interactsh.Server.Dns.Types.{has_prefix, trim_suffix}
use interactsh.Commands.Flags.{CliServerOptions}

pub record CertificateFiles : Type 0 where
  pub cert_path : Text
  pub priv_key_path : Text

-- certmagic and crypto/tls: whether a certificate is obtained, whether the storage is a file
-- storage, the paths of a domain there, and LoadX509KeyPair, whose answer may depend on the pairs
-- asked for before.
pub record AcmeLib : Type 1 where
  pub Certificate : Type 0
  pub obtains : Text → Bool
  pub is_file_storage : Bool
  pub site_cert : Text → Text
  pub site_private_key : Text → Text
  pub load : List CertificateFiles → CertificateFiles → Option Certificate

-- strings.TrimPrefix(domain, "*.")
unfoldable pub trim_wildcard : Text → Text
trim_wildcard domain = if has_prefix domain (codes "*.") then drop 2 domain else domain

module _ (lib : AcmeLib) where
  -- A tls.Config, as far as it is set.
  pub record TlsConfig : Type 0 where
    pub server_name : Text
    pub certificates : List lib.Certificate

  -- ExtractCaddyPaths
  unfoldable pub extract_caddy_paths : Text → Option CertificateFiles
  extract_caddy_paths domain =
      let cert_path = if lib.is_file_storage then lib.site_cert domain else [] in
      let priv_key_path = if lib.is_file_storage then lib.site_private_key domain else [] in
      if not (is_empty cert_path) && not (is_empty priv_key_path)
      then some (record { cert_path = cert_path; priv_key_path = priv_key_path })
      else none

  -- The code from the label retry_cert, with the files so far; the outer `none` is out of fuel, of
  -- which each jump to the label takes one, and the inner one an error.
  unfoldable pub retry_cert :
      ℕ
      → Bool
      → Bool
      → Text
      → List CertificateFiles
      → Option (Option lib.Certificate × List CertificateFiles)
  unfolding extract_caddy_paths
  retry_cert zero retried retried_wildcard domain files = none
  retry_cert (suc fuel) retried retried_wildcard domain files = elim (extract_caddy_paths domain) [
    | none ↦ some (none, files)
    | some pair ↦
        let files_then = files ++ (pair ∷ []) in
        let again = retry_cert fuel true retried_wildcard domain files_then in
        let as_wildcard = retry_cert fuel retried true (codes "wildcard_." ++ domain) files_then in
        elim (lib.load files pair) [
          | some cert ↦ some (some cert, files_then)
          | none ↦
              if not retried
              then again
              else if not retried_wildcard
              then as_wildcard
              else some (none, files_then)
        ]
  ]

  -- The loop over the domains. Three rounds of retry_cert are enough.
  unfoldable pub load_certs :
      List Text
      → List lib.Certificate
      → List CertificateFiles
      → Option (List lib.Certificate × List CertificateFiles)
  unfolding retry_cert
  load_certs [] certs files = some (certs, files)
  load_certs (domain ∷ domains) certs files = elim (retry_cert 3 false false domain files) [
    | none ↦ none
    | some (none, files_then) ↦ none
    | some (some cert, files_then) ↦ load_certs domains (certs ++ (cert ∷ [])) files_then
  ]

  -- HandleWildcardCertificates; that a certificate is not managed is only printed.
  unfoldable pub handle_wildcard_certificates :
      Text → Option (List lib.Certificate × List CertificateFiles)
  unfolding load_certs trim_wildcard
  handle_wildcard_certificates domain =
      if lib.obtains domain then load_certs (domain ∷ trim_wildcard domain ∷ []) [] [] else none

  -- BuildTlsConfigWithCerts
  unfoldable pub build_tls_config_with_certs : Text → List lib.Certificate → Option TlsConfig
  build_tls_config_with_certs domain certs =
      if is_empty certs then none else some (record { server_name = domain; certificates = certs })

  -- BuildTlsConfigWithCertAndKeyPaths
  unfoldable pub build_tls_config_with_paths : CertificateFiles → Text → Option TlsConfig
  unfolding build_tls_config_with_certs
  build_tls_config_with_paths files domain = elim (lib.load [] files) [
    | none ↦ none
    | some cert ↦ build_tls_config_with_certs domain (cert ∷ [])
  ]

  -- The variables tlsConfig, domainCerts and certFiles of main.
  pub record TlsSetup : Type 0 where
    pub tls_config : Option TlsConfig
    pub domain_certs : List lib.Certificate
    pub cert_files : List CertificateFiles

  -- The loop of main over the domains: the certificates of all, and the variables that each
  -- domain sets anew, to nil where it fails.
  unfoldable pub domain_loop :
      List Text
      → List lib.Certificate
      → List lib.Certificate
      → List CertificateFiles
      → List lib.Certificate × List lib.Certificate × List CertificateFiles
  unfolding handle_wildcard_certificates trim_suffix
  domain_loop [] certs domain_certs cert_files = (certs, domain_certs, cert_files)
  domain_loop (domain ∷ domains) certs domain_certs cert_files =
      elim (handle_wildcard_certificates (codes "*." ++ trim_suffix domain (codes "."))) [
        | none ↦ domain_loop domains certs [] []
        | some (found, files) ↦ domain_loop domains (certs ++ found) found files
      ]

  abbrev pub first_of : List Text → Text
  first_of [] = []
  first_of (domain ∷ domains) = domain

  -- The switch of main.
  unfoldable pub set_up_tls : CliServerOptions → TlsSetup
  unfolding domain_loop build_tls_config_with_certs build_tls_config_with_paths
  set_up_tls cli =
      let (certs, domain_certs, cert_files) = domain_loop cli.domains [] [] [] in
      if not (is_empty cli.certificate_path) && not (is_empty cli.private_key_path)
      then record {
        tls_config =
            build_tls_config_with_paths
              (record { cert_path = cli.certificate_path; priv_key_path = cli.private_key_path })
              (first_of cli.domains);
        domain_certs = [];
        cert_files = [];
      }
      else if not cli.skip_acme && not (is_empty cli.domains)
      then record {
        tls_config = build_tls_config_with_certs [] certs;
        domain_certs = domain_certs;
        cert_files = cert_files;
      }
      else record { tls_config = none; domain_certs = []; cert_files = [] }
