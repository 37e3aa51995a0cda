-- ===== src/Commands/Server/Launch/Found.antt =====
-- The flags after the address and the hostmasters are found.
use interactsh.Prelude.{
  ◌≡◌, refl, ap, ◌&&◌, List, [], ◌∷◌, ◌++◌, inl, inr, if◌then◌else◌, is_empty, Text, text_eq, arith,
  subst, Bool-cases, codes,
}
use interactsh.Storage.Libraries.{Libs}
use interactsh.Commands.Flags.{CliServerOptions}
use interactsh.Commands.Server.{
  Host, find_address, resolve_address, text_of, is_nil, add_hostmasters,
}

-- Only the address and the hostmasters of the flags are found out.
pub record IsFound (cli found : CliServerOptions) : Type 0 where
  pub listen_ip : Text
  pub ip_addresses : List Text
  pub hostmasters : List Text
  pub same :
      found
      ≡ record cli { listen_ip = listen_ip; ip_addresses = ip_addresses; hostmasters = hostmasters }

IsFound-itself : (cli : CliServerOptions) → IsFound cli cli
IsFound-itself cli = record {
  listen_ip = cli.listen_ip;
  ip_addresses = cli.ip_addresses;
  hostmasters = cli.hostmasters;
  same = refl;
}

abbrev with_hostmasters : CliServerOptions → List Text → CliServerOptions
with_hostmasters cli hostmasters = record cli { hostmasters = hostmasters }

pub add_hostmasters-IsFound :
    (domains : List Text) (cli found : CliServerOptions)
    → IsFound cli found
    → IsFound cli (add_hostmasters domains found)
unfolding add_hostmasters
add_hostmasters-IsFound [] cli found h = h
add_hostmasters-IsFound (domain ∷ domains) cli found h =
    let more = found.hostmasters ++ ((codes "admin@" ++ domain) ∷ []) in
    add_hostmasters-IsFound domains cli (with_hostmasters found more) (record {
      listen_ip = h.listen_ip;
      ip_addresses = h.ip_addresses;
      hostmasters = more;
      same = ap (λ f. with_hostmasters f more) h.same;
    })

module _ {L : Libs} where
  pub resolve_address-IsFound :
      (host : Host L) (cli : CliServerOptions) → IsFound cli (resolve_address host cli).1
  unfolding resolve_address find_address
  resolve_address-IsFound host cli =
      let public_ip =
        if is_empty host.public_ip then text_of host.outbound_ip else host.public_ip in
      let (bindable, bind_error) =
        host.bindable cli.dns_port public_ip (text_of host.outbound_ip) in
      let bound = record cli {
        listen_ip = bindable;
        ip_addresses = cli.ip_addresses ++ (public_ip ∷ []);
      } in
      let is_bound : IsFound cli bound = record {
        listen_ip = bindable;
        ip_addresses = cli.ip_addresses ++ (public_ip ∷ []);
        hostmasters = cli.hostmasters;
        same = refl;
      } in
      let itself = IsFound-itself cli in
      elim (Bool-cases (is_empty cli.ip_addresses && text_eq cli.listen_ip (codes "0.0.0.0"))) [
        | inr given ↦ subst (IsFound cli) (ground (arith, given)) itself
        | inl wanted ↦ elim (Bool-cases (is_empty host.public_ip && is_nil host.outbound_ip)) [
          | inl no_ip ↦ subst (IsFound cli) (ground (arith, wanted, no_ip)) itself
          | inr some_ip ↦ elim (Bool-cases (is_empty bindable && bind_error)) [
            | inl unbound ↦ subst (IsFound cli) (ground (arith, wanted, some_ip, unbound)) itself
            | inr fine ↦ subst (IsFound cli) (ground (arith, wanted, some_ip, fine)) is_bound
          ]
        ]
      ]
