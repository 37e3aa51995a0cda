-- ===== src/Commands/Server/Services.antt =====
-- The rest of main (cmd/interactsh-server/main.go): the servers that it starts, what an interrupt
-- does, and getPublicIP.
use interactsh.Prelude.{
  ◌≡◌, refl, sym, subst, inr, Bool, true, false, List, [], ◌∷◌, Option, none, some, if◌then◌else◌,
  arith, length, ℕ, Text, is_empty, All,
}
use interactsh.Storage.Libraries.{Libs}
use interactsh.Server.Dns.Types.{NetLib}
use interactsh.Commands.Flags.{CliServerOptions}
use interactsh.Commands.Server.{Host}
use interactsh.Commands.Server.Launch.{Launched, launch}
use interactsh.Commands.Server.Launch.Auth.{needs_auth, launch-IsSecured}

-- The servers; the LDAP server with whether it has the full log.
pub data Started : Type 0 where
  dns_tcp dns_udp http smtp ftp responder smb : Started
  ldap : Bool → Started

-- Which of the constructors returns an error.
pub record Creation : Type 0 where
  pub http_fails : Bool
  pub smtp_fails : Bool
  pub ldap_fails : Bool
  pub ftp_fails : Bool
  pub responder_fails : Bool
  pub smb_fails : Bool

-- A server that is made and started before the rest, or makes the program exit.
abbrev start : Bool → Started → List Started × Option Started → List Started × Option Started
start fails server rest = if fails then ([], some server) else (server ∷ rest.0, rest.1)

-- What is started, in order, and the server that could not be made, if the program exits.
unfoldable pub start_services : CliServerOptions → Creation → List Started × Option Started
start_services cli made =
    let with_smb = if cli.smb then start made.smb_fails smb ([], none) else ([], none) in
    let with_responder =
      if cli.responder then start made.responder_fails responder with_smb else with_smb in
    let with_ftp = if cli.ftp then start made.ftp_fails ftp with_responder else with_responder in
    start false dns_tcp (
      start false dns_udp (
        start made.http_fails http (
          start made.smtp_fails smtp
            (start made.ldap_fails (ldap cli.ldap_with_full_logger) with_ftp))))

-- The warnings of an interrupt, which ends the program with the code 1: that the storage, or the
-- pprof server if there is one, does not close.
pub data Warning : Type 0 where
  storage_not_closed pprof_not_closed : Warning

unfoldable pub interrupted : Bool → Option Bool → List Warning × ℕ
interrupted store_fails pprof =
    let of_pprof : List Warning = elim pprof [
      | none ↦ []
      | some fails ↦ if fails then pprof_not_closed ∷ [] else []
    ] in
    (if store_fails then storage_not_closed ∷ of_pprof else of_pprof, 1)

-- `fold` is strings.EqualFold.
unfoldable pub any_fold : (Text → Text → Bool) → Text → List Text → Bool
any_fold fold ip [] = false
any_fold fold ip (address ∷ addresses) =
    let rest = any_fold fold ip addresses in if fold ip address then true else rest

-- getPublicIP, over WhatsMyIP and net.InterfaceAddrs: the address, and whether there is no error.
unfoldable pub get_public_ip : (Text → Text → Bool) → Option Text → Option (List Text) → Text × Bool
unfolding any_fold
get_public_ip fold none addresses = ([], false)
get_public_ip fold (some ip) none = ([], false)
get_public_ip fold (some ip) (some addresses) = (ip, any_fold fold ip addresses)

-- The servers that the README marks as authenticated.
abbrev pub IsGuarded : Bool → Started → Type 0
IsGuarded auth dns_tcp = Unit
IsGuarded auth dns_udp = Unit
IsGuarded auth http = Unit
IsGuarded auth smtp = Unit
IsGuarded auth ftp = auth ≡ true
IsGuarded auth responder = auth ≡ true
IsGuarded auth smb = auth ≡ true
IsGuarded auth (ldap full) = full ≡ true → auth ≡ true

start-IsGuarded :
    (auth fails : Bool) (server : Started) (rest : List Started × Option Started)
    → IsGuarded auth server
    → All (IsGuarded auth) rest.0
    → All (IsGuarded auth) (start fails server rest).0
start-IsGuarded auth true server rest h hs = tt
start-IsGuarded auth false server rest h hs = (h, hs)

start_if-IsGuarded :
    (auth wanted fails : Bool) (server : Started) (rest : List Started × Option Started)
    → (wanted ≡ true → IsGuarded auth server)
    → All (IsGuarded auth) rest.0
    → All (IsGuarded auth) (if wanted then start fails server rest else rest).0
start_if-IsGuarded auth true fails server rest h hs =
    start-IsGuarded auth fails server rest (h refl) hs
start_if-IsGuarded auth false fails server rest h hs = hs

needs_auth-flags :
    (cli : CliServerOptions)
    → (cli.smb ≡ true → needs_auth cli ≡ true)
      × (cli.responder ≡ true → needs_auth cli ≡ true)
      × (cli.ftp ≡ true → needs_auth cli ≡ true)
      × (cli.ldap_with_full_logger ≡ true → needs_auth cli ≡ true)
unfolding needs_auth
needs_auth-flags cli =
    (λ h. ground (arith, h), λ h. ground (arith, h), λ h. ground (arith, h), λ h. ground (arith, h))

start_services-IsGuarded :
    (cli : CliServerOptions) (made : Creation)
    → All (IsGuarded (needs_auth cli)) (start_services cli made).0
unfolding start_services
start_services-IsGuarded cli made =
    let auth = needs_auth cli in
    let (by_smb, by_responder, by_ftp, by_ldap) = needs_auth-flags cli in
    let after_smb = start_if-IsGuarded auth cli.smb made.smb_fails smb ([], none) by_smb tt in
    let after_responder =
      start_if-IsGuarded auth cli.responder made.responder_fails responder _ by_responder
        after_smb in
    let after_ftp = start_if-IsGuarded auth cli.ftp made.ftp_fails ftp _ by_ftp after_responder in
    (
      tt,
      (
        tt,
        start-IsGuarded auth made.http_fails http _ tt (
            start-IsGuarded auth made.smtp_fails smtp _ tt (
              start-IsGuarded auth made.ldap_fails (ldap cli.ldap_with_full_logger) _ by_ldap
                after_ftp)),
      ),
    )

module _ {L : Libs} where
  -- When the server launches, with 32 random bytes for a token that it has to generate, whatever of
  -- its servers can be made: it starts the FTP, the Responder and the SMB server, and the LDAP
  -- server with the full log, only with authentication on and a token that is not empty.
  pub launch-IsGuarded :
      (net : NetLib) (host : Host L) (cli : CliServerOptions) (t : Launched L) (made : Creation)
      → ((b : Text) → host.token_bytes ≡ some b → length b ≡ 32)
      → launch net host cli ≡ inr t
      → All (IsGuarded t.options.auth) (start_services cli made).0
        × (t.options.auth ≡ true → is_empty t.options.token ≡ false)
  launch-IsGuarded net host cli t made full e =
      let secured = launch-IsSecured net host cli t full e in
      (
        subst (λ auth. All (IsGuarded auth) (start_services cli made).0) (sym secured.required)
            (start_services-IsGuarded cli made),
        secured.nonempty,
      )
