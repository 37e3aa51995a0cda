-- ===== src/Server/Dns/Handlers.antt =====
-- The answers of pkg/server/dns_server.go: handleACNAMEANY, handleMX, handleNS, handleSOA,
-- handleTXT, handleACMETXTChallenge, and the address records.
use interactsh.Prelude.{
  ℕ, List, [], ◌∷◌, ◌++◌, Option, none, some, if◌then◌else◌, map, Text, codes, Assoc, lookup,
  is_empty,
}
use interactsh.Server.Dns.Types.{
  NetLib, Ip, DnsServer, Msg, Rr, a, aaaa, txt, ns, mx, soa, Header, to4, to16, unique_ips, type_a,
  type_ns, type_mx, type_txt, type_soa, type_aaaa,
}
use interactsh.Server.Dns.Custom.{check_custom_response, add_custom_records}

abbrev pub certificate_authority : Text
certificate_authority = codes "letsencrypt.org."

module _ (net : NetLib) (h : DnsServer) where
  -- The record of an address, for appendAnswerRecord and appendGlueRecords; a nil address has none.
  unfoldable pub address_record : Text → Ip → Option Rr
  unfolding to4 to16
  address_record name ip = elim (to4 ip) [
    | some v4 ↦ some (a (record { name = name; rrtype = type_a; ttl = h.time_to_live }) v4)
    | none ↦ elim (to16 ip) [
      | some v6 ↦ some (aaaa (record { name = name; rrtype = type_aaaa; ttl = h.time_to_live }) v6)
      | none ↦ none
    ]
  ]

  -- The records of a list of addresses, in order.
  unfoldable pub address_records : Text → List Ip → List Rr
  address_records name [] = []
  address_records name (ip ∷ ips) =
      let rest = address_records name ips in
      elim (address_record name ip) [ none ↦ rest | some rr ↦ rr ∷ rest ]

  -- The loop over dotDomains: the first of the zone and the first domain that has an entry.
  unfoldable pub for_dot_domains {ℓ} : {V : Type ℓ} → Assoc V → Text → Option V
  for_dot_domains table zone = elim (lookup zone table) [
    | some v ↦ some v
    | none ↦ elim h.options.domains [
      | [] ↦ none
      | domain ∷ domains ↦ lookup (net.fqdn domain) table
    ]
  ]

  unfoldable pub add_ns_with_glue : Header → List Text → Msg → Msg
  add_ns_with_glue header [] m = m
  add_ns_with_glue header (name ∷ names) m = add_ns_with_glue header names (record m {
    authority = m.authority ++ (ns header name ∷ []);
    extra = m.extra ++ address_records name (unique_ips net h.ip_addresses);
  })

  -- resultFunction
  unfoldable pub result_function : Header → Text → List Ip → Msg → Msg
  unfolding for_dot_domains add_ns_with_glue
  result_function header zone ips m =
      let added = address_records zone (unique_ips net ips) in
      let answered = record m { answer = m.answer ++ added } in
      if is_empty added then answered else elim (for_dot_domains h.ns_domains zone) [
        | none ↦ answered
        | some names ↦ add_ns_with_glue header names answered
      ]

  -- Custom records first, and else the server's own answer.
  unfoldable pub custom_or : ℕ → Text → (Msg → Msg) → Msg → Msg
  custom_or qtype zone own m =
      let custom = check_custom_response h zone qtype in
      if is_empty custom then own m else add_custom_records net h custom zone m

  -- The query type is that of the message's first question.
  unfoldable pub handle_acname_any : Text → Msg → Msg
  unfolding custom_or result_function
  handle_acname_any zone m =
      custom_or (elim m.question [ [] ↦ type_a | q ∷ qs ↦ q.qtype ]) zone
        (result_function (record { name = zone; rrtype = type_ns; ttl = h.time_to_live }) zone
          h.ip_addresses)
        m

  unfoldable pub handle_mx : Text → Msg → Msg
  unfolding custom_or for_dot_domains
  handle_mx zone m =
      custom_or type_mx zone
        (λ m. elim (for_dot_domains h.mx_domains zone) [
          | none ↦ m
          | some mx_domain ↦ record m {
            answer =
                m.answer
                ++ (mx (record { name = zone; rrtype = type_mx; ttl = h.time_to_live }) mx_domain 1
                    ∷ []);
          }
        ])
        m

  unfoldable pub handle_ns : Text → Msg → Msg
  unfolding custom_or for_dot_domains
  handle_ns zone m =
      custom_or type_ns zone
        (λ m. elim (for_dot_domains h.ns_domains zone) [
          | none ↦ m
          | some names ↦ record m {
            answer =
                m.answer
                ++ map (ns (record { name = zone; rrtype = type_ns; ttl = h.time_to_live })) names;
          }
        ])
        m

  -- The first of the name servers; the header gives no time to live.
  unfoldable pub handle_soa : Text → Msg → Msg
  unfolding for_dot_domains
  handle_soa zone m = elim (for_dot_domains h.ns_domains zone) [
    | none ↦ m
    | some names ↦ elim names [
      | [] ↦ m
      | name ∷ more ↦ record m {
        answer =
            m.answer
            ++ (soa (record { name = zone; rrtype = type_soa; ttl = 0 }) name certificate_authority
                ∷ []);
      }
    ]
  ]

  unfoldable pub handle_txt : Text → Msg → Msg
  unfolding custom_or
  handle_txt zone m =
      custom_or type_txt zone
        (λ m. record m {
          answer =
              m.answer
              ++ (txt (record { name = zone; rrtype = type_txt; ttl = 0 }) h.txt_record ∷ []);
        })
        m
