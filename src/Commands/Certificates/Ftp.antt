-- ===== src/Commands/Certificates/Ftp.antt =====
-- The certificates of main (cmd/interactsh-server/main.go) and the FTP server that it starts with
-- them (pkg/server/ftp_server.go).
use interactsh.Prelude.{
  ◌≡◌, refl, sym, ap, ◌∙◌, inl, inr, Bool, true, false, List, [], ◌∷◌, ◌++◌, Option, none, some,
  arith, is_empty, not, Bool-cases, Option-cases, map, Text, codes,
}
use interactsh.Server.Dns.Types.{trim_suffix}
use interactsh.Server.Ftp.Setup.{
  KeyPair, FtpFailures, FtpServer, ftps_key_pair, new_ftp_server, listen_and_serve_ftp,
}
use interactsh.Commands.Flags.{CliServerOptions}
use interactsh.Commands.Certificates.{
  AcmeLib, CertificateFiles, handle_wildcard_certificates, build_tls_config_with_certs, domain_loop,
  set_up_tls,
}

-- serverOptions.CertFiles, for the FTP server.
abbrev pub key_pairs : List CertificateFiles → List KeyPair
key_pairs files =
    map (λ (f : CertificateFiles). record { cert_file = f.cert_path; key_file = f.priv_key_path })
      files

abbrev pub is_some {ℓ} : {A : Type ℓ} → Option A → Bool
is_some none = false
is_some (some x) = true

new_ftp_server-no_files :
    (fails : FtpFailures) (directory certificate_path private_key_path : Text) (server : FtpServer)
    → is_empty certificate_path ≡ true
    → new_ftp_server fails directory certificate_path private_key_path [] ≡ some server
    → server.ftps ≡ none
unfolding new_ftp_server ftps_key_pair
new_ftp_server-no_files fails directory certificate_path private_key_path server no_path made =
    ground (arith, no_path, made)

listen_and_serve_ftp-panics :
    (server : FtpServer) (ftps_fails ftp_fails : Bool)
    → server.ftps ≡ none
    → listen_and_serve_ftp server true ftps_fails ftp_fails ≡ none
unfolding listen_and_serve_ftp
listen_and_serve_ftp-panics server ftps_fails ftp_fails missing = rw missing refl

module _ (lib : AcmeLib) where
  -- The domain that comes last sets the files.
  domain_loop-last :
      (ds : List Text) (d : Text) (certs domain_certs : List lib.Certificate)
      (files : List CertificateFiles)
      → handle_wildcard_certificates lib (codes "*." ++ trim_suffix d (codes ".")) ≡ none
      → (domain_loop lib (ds ++ (d ∷ [])) certs domain_certs files).2 ≡ []
  unfolding domain_loop
  domain_loop-last [] d certs domain_certs files fails = ground (arith, fails)
  domain_loop-last (x ∷ ds) d certs domain_certs files fails =
      elim (Option-cases
        (handle_wildcard_certificates lib (codes "*." ++ trim_suffix x (codes ".")))) [
          | inl e ↦ rw (domain_loop, e) (domain_loop-last ds d certs [] [] fails)
          | inr ((found, more), e) ↦
              rw (domain_loop, e) (domain_loop-last ds d (certs ++ found) found more fails)
        ]

  -- and adds nothing to the certificates, if it fails.
  domain_loop-certs :
      (ds : List Text) (d : Text) (certs domain_certs : List lib.Certificate)
      (files : List CertificateFiles)
      → handle_wildcard_certificates lib (codes "*." ++ trim_suffix d (codes ".")) ≡ none
      → (domain_loop lib (ds ++ (d ∷ [])) certs domain_certs files).0
        ≡ (domain_loop lib ds certs domain_certs files).0
  unfolding domain_loop
  domain_loop-certs [] d certs domain_certs files fails = ground (arith, fails)
  domain_loop-certs (x ∷ ds) d certs domain_certs files fails =
      elim (Option-cases
        (handle_wildcard_certificates lib (codes "*." ++ trim_suffix x (codes ".")))) [
          | inl e ↦ rw (domain_loop, e) (domain_loop-certs ds d certs [] [] fails)
          | inr ((found, more), e) ↦
              rw (domain_loop, e) (domain_loop-certs ds d (certs ++ found) found more fails)
        ]

  append-nonempty : (ds : List Text) (d : Text) → is_empty (ds ++ (d ∷ [])) ≡ false
  append-nonempty [] d = refl
  append-nonempty (x ∷ ds) d = refl

  set_up_tls-acme :
      (cli : CliServerOptions)
      → is_empty cli.certificate_path ≡ true
      → cli.skip_acme ≡ false
      → is_empty cli.domains ≡ false
      → let loop = domain_loop lib cli.domains [] [] [] in
        (is_some (set_up_tls lib cli).tls_config ≡ not (is_empty loop.0))
        × ((set_up_tls lib cli).cert_files ≡ loop.2)
  unfolding set_up_tls build_tls_config_with_certs
  set_up_tls-acme cli no_path acme domains =
      let loop = domain_loop lib cli.domains [] [] [] in
      elim (Bool-cases (is_empty loop.0)) [
        | inl e ↦ rw (set_up_tls, no_path, acme, domains, e) (refl, refl)
        | inr e ↦ rw (set_up_tls, no_path, acme, domains, e) (refl, refl)
      ]

  -- Without certificates of its own, and where the last domain has none but one before has, the
  -- server has TLS and no files: the FTP server, if it is made, panics when it listens.
  pub set_up_tls-panics :
      (cli : CliServerOptions) (ds : List Text) (d directory : Text) (fails : FtpFailures)
      (server : FtpServer) (ftps_fails ftp_fails : Bool)
      → cli.domains ≡ ds ++ (d ∷ [])
      → is_empty cli.certificate_path ≡ true
      → cli.skip_acme ≡ false
      → handle_wildcard_certificates lib (codes "*." ++ trim_suffix d (codes ".")) ≡ none
      → is_empty (domain_loop lib ds [] [] []).0 ≡ false
      → new_ftp_server fails directory cli.certificate_path cli.private_key_path
          (key_pairs (set_up_tls lib cli).cert_files)
        ≡ some server
      → listen_and_serve_ftp server (is_some (set_up_tls lib cli).tls_config) ftps_fails ftp_fails
        ≡ none
  set_up_tls-panics cli ds d directory fails server ftps_fails ftp_fails asked no_path acme failing
        some_before made =
      let (tls, files) =
        set_up_tls-acme cli no_path acme (ap is_empty asked ∙ append-nonempty ds d) in
      let no_files : (set_up_tls lib cli).cert_files ≡ [] =
        files
        ∙ ap (λ ds. (domain_loop lib ds [] [] []).2) asked
        ∙ domain_loop-last ds d [] [] [] failing in
      let has_tls : is_some (set_up_tls lib cli).tls_config ≡ true =
        tls
        ∙ ap (λ ds. not (is_empty (domain_loop lib ds [] [] []).0)) asked
        ∙ ap (λ cs. not (is_empty cs)) (domain_loop-certs ds d [] [] [] failing)
        ∙ ap not some_before in
      rw has_tls (
        listen_and_serve_ftp-panics server ftps_fails ftp_fails (
          new_ftp_server-no_files fails directory cli.certificate_path cli.private_key_path server
            no_path
            (ap
                (λ cs.
                  new_ftp_server fails directory cli.certificate_path cli.private_key_path
                    (key_pairs cs))
                (sym no_files)
              ∙ made)))
