-- ===== src/Commands/Server/Launch/Auth.antt =====
-- The authentication of a launched server.
use interactsh.Prelude.{
  ◌≡◌, refl, sym, ap, ◌∙◌, Bool, true, false, not, ◌&&◌, ◌||◌, [], ◌∷◌, Option, none, some, inl,
  inr, is_empty, length, Text, All, arith, subst, Bool-cases, Option-cases, Sum-cases,
}
use interactsh.Storage.Libraries.{Libs}
use interactsh.Server.Options.{ServerOptions}
use interactsh.Server.Dns.Types.{NetLib}
use interactsh.Commands.Flags.{CliServerOptions, as_server_options}
use interactsh.Commands.Server.{
  Host, check_flags, resolve_address, add_hostmasters, require_auth, hex_encode, give_token,
}
use interactsh.Commands.Server.Launch.{Launched, open_storage, launch_at, launch}
use interactsh.Commands.Server.Launch.Ids.{IsHeld, open_storage-SetsIds}
use interactsh.Commands.Server.Launch.Found.{
  IsFound, add_hostmasters-IsFound, resolve_address-IsFound,
}

-- Whether the flags ask for authentication, by themselves or by what they turn on.
unfoldable pub needs_auth : CliServerOptions → Bool
needs_auth cli =
    cli.auth
    || (not (is_empty cli.token)
        || (cli.root_tld || (cli.responder || (cli.smb || (cli.ftp || cli.ldap_with_full_logger)))))

require_auth-auth :
    (net : NetLib) (cli : CliServerOptions)
    → (require_auth cli (as_server_options net cli).0).auth ≡ needs_auth cli
unfolding require_auth needs_auth as_server_options
require_auth-auth net cli = ground arith

require_auth-keeps :
    (net : NetLib) (cli : CliServerOptions)
    → let options = require_auth cli (as_server_options net cli).0 in
      (options.token ≡ cli.token)
      × (options.root_tld ≡ cli.root_tld)
      × (options.domains ≡ cli.domains)
unfolding require_auth as_server_options
require_auth-keeps net cli = (ground arith, ground arith, ground arith)

-- What a token that is given, or kept, leaves of the options.
record Gives (options given : ServerOptions) : Type 0 where
  same_auth : given.auth ≡ options.auth
  same_root : given.root_tld ≡ options.root_tld
  same_domains : given.domains ≡ options.domains
  kept : is_empty options.token ≡ false → given.token ≡ options.token
  nonempty_token : options.auth ≡ true → is_empty given.token ≡ false

hex_encode-nonempty : (b : Text) → length b ≡ 32 → is_empty (hex_encode b) ≡ false
unfolding hex_encode
hex_encode-nonempty [] h = absurd (omega arith)
hex_encode-nonempty (c ∷ cs) h = refl

give_token-Gives :
    (bytes : Option Text) (options given : ServerOptions)
    → ((b : Text) → bytes ≡ some b → length b ≡ 32)
    → give_token bytes options ≡ (none, given)
    → Gives options given
unfolding give_token
give_token-Gives bytes options given full e =
    elim (Bool-cases (options.auth && is_empty options.token)) [
      | inr kept ↦
          let same : options ≡ given = ground (arith, e, kept) in
          subst (Gives options) same (record {
            same_auth = refl;
            same_root = refl;
            same_domains = refl;
            kept = λ h. refl;
            nonempty_token = λ h. ground (arith, h, kept);
          })
      | inl missing ↦ elim (Option-cases bytes) [
        | inl f ↦ absurd (ground (arith, e, missing, f))
        | inr (b, f) ↦
            let same : record options { token = hex_encode b } ≡ given =
              ground (arith, e, missing, f) in
            subst (Gives options) same (record {
              same_auth = refl;
              same_root = refl;
              same_domains = refl;
              kept = λ h. absurd (ground (arith, h, missing));
              nonempty_token = λ h. hex_encode-nonempty b (full b f);
            })
      ]
    ]

module _ {L : Libs} where
  -- What the authentication of a launched server comes to.
  pub record IsSecured (cli : CliServerOptions) (t : Launched L) : Type 0 where
    pub required : t.options.auth ≡ needs_auth cli
    pub given : is_empty cli.token ≡ false → t.options.token ≡ cli.token
    pub nonempty : t.options.auth ≡ true → is_empty t.options.token ≡ false
    pub token_set : t.options.auth ≡ true → IsHeld t.storage t.options.token
    pub domains_set : cli.root_tld ≡ true → All (IsHeld t.storage) cli.domains

  launch_at-IsSecured :
      (net : NetLib) (host : Host L) (cli : CliServerOptions) (t : Launched L)
      → ((b : Text) → host.token_bytes ≡ some b → length b ≡ 32)
      → launch_at net host cli ≡ inr t
      → IsSecured cli t
  unfolding launch_at
  launch_at-IsSecured net host cli t full e =
      let asked = require_auth cli (as_server_options net cli).0 in
      let (asked_token, asked_root, asked_domains) = require_auth-keeps net cli in
      let (error, options) = give_token host.token_bytes asked in
      elim (Bool-cases (cli.responder && cli.smb)) [
        | inl both ↦ absurd (ground (arith, e, both))
        | inr one ↦ elim (Option-cases error) [
          | inr (fatal, f) ↦ absurd (ground (arith, e, one, f))
          | inl f ↦ elim (Sum-cases (open_storage host cli options)) [
            | inl (fatal, g) ↦ absurd (ground (arith, e, one, f, g))
            | inr (opened, g) ↦
                let gives =
                  give_token-Gives host.token_bytes asked options full (ap (λ x. (x, options)) f) in
                let sets = open_storage-SetsIds host cli options opened g in
                let made : Launched L = record {
                  options = options;
                  ip_addresses = (as_server_options net cli).1;
                  hostmasters = cli.hostmasters;
                  storage = opened;
                } in
                let same : made ≡ t = ground (arith, e, one, f, g) in
                subst (IsSecured cli) same (record {
                  required = gives.same_auth ∙ require_auth-auth net cli;
                  given = λ h. gives.kept (ap is_empty asked_token ∙ h) ∙ asked_token;
                  nonempty = λ h. gives.nonempty_token (sym gives.same_auth ∙ h);
                  token_set = sets.token_set;
                  domains_set = λ h.
                      subst (All (IsHeld opened)) (gives.same_domains ∙ asked_domains)
                        (sets.domains_set (gives.same_root ∙ asked_root ∙ h));
                })
          ]
        ]
      ]

  -- What the address and the hostmasters are does not matter to it.
  of_found :
      (cli found : CliServerOptions) (t : Launched L)
      → IsFound cli found
      → IsSecured found t
      → IsSecured cli t
  unfolding needs_auth
  of_found cli found t h secured =
      let moved = subst (λ f. IsSecured f t) h.same secured in
      record {
        required = moved.required;
        given = moved.given;
        nonempty = moved.nonempty;
        token_set = moved.token_set;
        domains_set = moved.domains_set;
      }

  -- When the server launches, with 32 random bytes for a token that it has to generate, its
  -- authentication is on exactly if the flags ask for it: by themselves, by a token, or by
  -- root-tld, responder, smb, ftp or ldap. A token that is given is kept. With authentication
  -- on, the token is not empty, and the storage holds it with no secret and no data; with
  -- root-tld on, it holds each of the domains so.
  pub launch-IsSecured :
      (net : NetLib) (host : Host L) (cli : CliServerOptions) (t : Launched L)
      → ((b : Text) → host.token_bytes ≡ some b → length b ≡ 32)
      → launch net host cli ≡ inr t
      → IsSecured cli t
  unfolding launch
  launch-IsSecured net host cli t full e =
      let found = (resolve_address host cli).1 in
      elim (Option-cases (check_flags cli)) [
        | inr (fatal, f) ↦ absurd (ground (arith, e, f))
        | inl f ↦ elim (Option-cases (resolve_address host cli).0) [
          | inr (fatal, g) ↦ absurd (ground (arith, e, f, g))
          | inl g ↦
              let named = add_hostmasters found.domains found in
              let is_named =
                add_hostmasters-IsFound found.domains cli found
                  (resolve_address-IsFound host cli) in
              let at : launch_at net host named ≡ inr t = ground (arith, e, f, g) in
              let secured = launch_at-IsSecured net host named t full at in
              of_found cli named t is_named secured
        ]
      ]
