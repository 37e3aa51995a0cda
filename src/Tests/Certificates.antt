-- ===== src/Tests/Certificates.antt =====
-- Two domains, of which only the first gets a certificate.
use interactsh.Prelude.{
  ℕ, ◌≡◌, refl, true, false, [], ◌∷◌, ◌++◌, none, some, is_empty, codes, text_eq,
}
use interactsh.Server.Dns.Types.{trim_suffix, has_prefix}
use interactsh.Server.Ftp.Setup.{FtpFailures, new_ftp_server, listen_and_serve_ftp}
use interactsh.Commands.Flags.{CliServerOptions}
use interactsh.Commands.Certificates.{
  AcmeLib, handle_wildcard_certificates, domain_loop, set_up_tls,
}
use interactsh.Commands.Certificates.Ftp.{key_pairs, is_some, set_up_tls-panics}
use interactsh.Commands.Server.Defaults.{default_flags}

abbrev small_acme : AcmeLib
small_acme = record {
  Certificate = ℕ;
  obtains = λ domain. text_eq domain (codes "*.a");
  is_file_storage = true;
  site_cert = λ domain. domain;
  site_private_key = λ domain. domain;
  load = λ files pair. some 0;
}

abbrev two_domains : CliServerOptions
two_domains = record default_flags { domains = codes "a" ∷ codes "b" ∷ [] }

abbrev nothing_fails : FtpFailures
nothing_fails = record { temp_dir = false; driver = false; ftp = false; ftps = false }

b_fails :
    handle_wildcard_certificates small_acme (codes "*." ++ trim_suffix (codes "b") (codes "."))
    ≡ none
unfolding handle_wildcard_certificates trim_suffix text_eq
b_fails = refl

a_succeeds : is_empty (domain_loop small_acme (codes "a" ∷ []) [] [] []).0 ≡ false
unfolding domain_loop trim_suffix text_eq has_prefix
a_succeeds = refl

made :
    new_ftp_server nothing_fails [] [] [] (key_pairs (set_up_tls small_acme two_domains).cert_files)
    ≡ some (record { ftps = none })
unfolding set_up_tls new_ftp_server text_eq trim_suffix has_prefix
made = refl

set_up_tls-panics_example :
    listen_and_serve_ftp
      (record { ftps = none })
      (is_some (set_up_tls small_acme two_domains).tls_config)
      false
      false
    ≡ none
set_up_tls-panics_example =
    set_up_tls-panics small_acme two_domains (codes "a" ∷ []) (codes "b") [] nothing_fails
      (record { ftps = none }) false false refl refl refl b_fails a_succeeds made
