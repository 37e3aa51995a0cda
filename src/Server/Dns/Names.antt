-- ===== src/Server/Dns/Names.antt =====
-- Which names the answers of pkg/server/dns_server.go speak of.
pub mod Replies
use interactsh.Prelude.{
  ℕ, ◌≡◌, refl, sym, inl, inr, Bool, true, false, ◌||◌, List, [], ◌∷◌, ◌++◌, Option, none, some,
  arith, if◌then◌else◌, Bool-cases, Option-cases, All, All-append, is_empty, map, Text, lookup,
  subst,
}
use mathlib.Core.List.{Memᴰ}
use interactsh.Server.Options.{Utilities, Metrics}
use interactsh.Server.Dns.Types.{
  to4, to16, NetLib, Ip, DnsServer, Msg, Question, Rr, Header, a, aaaa, cname, txt, ns, mx, soa,
  CustomRecordConfig, unique_ips, type_a, type_mx, type_ns, type_soa, type_txt,
}
use interactsh.Server.Dns.Custom.{custom_answer, add_custom_records, check_custom_response}
use interactsh.Server.Dns.Handlers.{
  address_record, address_records, for_dot_domains, add_ns_with_glue, result_function, custom_or,
  handle_acname_any, handle_mx, handle_ns, handle_soa, handle_txt, certificate_authority,
}
use interactsh.Server.Dns.Serve.{
  AcmeRecord, DnsRequest, is_challenge, answer_challenge, answer_plain, answer_all,
  handle_acme_txt_challenge, serve_dns,
}

-- The name that a record is about.
abbrev pub name_of : Rr → Text
name_of (a header ip) = header.name
name_of (aaaa header ip) = header.name
name_of (cname header target) = header.name
name_of (txt header content) = header.name
name_of (ns header target) = header.name
name_of (mx header target preference) = header.name
name_of (soa header target mbox) = header.name

module _ (P : Text → Type 0) where
  -- The answers and the authority of a message speak of names in `P` only.
  pub record Names (asked : List Question) (m : Msg) : Type 0 where
    pub question : m.question ≡ asked
    pub answer : All (λ rr. P (name_of rr)) m.answer
    pub authority : All (λ rr. P (name_of rr)) m.authority

  -- More answers, about a name in `P`.
  pub Names-answer :
      (asked : List Question) (m : Msg) (rrs : List Rr)
      → All (λ rr. P (name_of rr)) rrs
      → Names asked m
      → Names asked (record m { answer = m.answer ++ rrs })
  Names-answer asked m rrs h n = record {
    question = n.question;
    answer = All-append (λ rr. P (name_of rr)) m.answer rrs n.answer h;
    authority = n.authority;
  }

  module _ (net : NetLib) (h : DnsServer) (zone : Text) (p : P zone) where
    address_record-name :
        (ip : Ip) (rr : Rr) → address_record net h zone ip ≡ some rr → name_of rr ≡ zone
    unfolding address_record
    address_record-name ip rr e = ground (arith, e)

    address_records-named :
        (ips : List Ip) → All (λ rr. P (name_of rr)) (address_records net h zone ips)
    unfolding address_records
    address_records-named [] = tt
    address_records-named (ip ∷ ips) = elim (Option-cases (address_record net h zone ip)) [
      | inl e ↦ rw (e, address_records) (address_records-named ips)
      | inr (rr, e) ↦
          rw (e, address_records)
            (subst P (sym (address_record-name ip rr e)) p, address_records-named ips)
    ]

    custom_answer-name :
        (c : CustomRecordConfig) (rr : Rr)
        → custom_answer net h c zone ≡ some rr
        → name_of rr ≡ zone
    unfolding custom_answer
    custom_answer-name c rr e = ground (arith, e)

    add_custom_records-Names :
        (asked : List Question) (cs : List CustomRecordConfig) (m : Msg)
        → Names asked m
        → Names asked (add_custom_records net h cs zone m)
    unfolding add_custom_records
    add_custom_records-Names asked [] m n = n
    add_custom_records-Names asked (c ∷ cs) m n = elim (Option-cases (custom_answer net h c zone)) [
      | inl e ↦ rw (e, add_custom_records) (add_custom_records-Names asked cs m n)
      | inr (rr, e) ↦
          rw (e, add_custom_records)
            (add_custom_records-Names asked cs _
              (Names-answer asked m (rr ∷ []) (subst P (sym (custom_answer-name c rr e)) p, tt) n))
    ]

    add_ns_with_glue-Names :
        (asked : List Question) (header : Header) (names : List Text) (m : Msg)
        → P header.name
        → Names asked m
        → Names asked (add_ns_with_glue net h header names m)
    unfolding add_ns_with_glue
    add_ns_with_glue-Names asked header [] m ph n = n
    add_ns_with_glue-Names asked header (name ∷ names) m ph n =
        add_ns_with_glue-Names asked header names _ ph (record {
          question = n.question;
          answer = n.answer;
          authority = All-append (λ rr. P (name_of rr)) m.authority _ n.authority (ph, tt);
        })

    result_function-Names :
        (asked : List Question) (header : Header) (ips : List Ip) (m : Msg)
        → P header.name
        → Names asked m
        → Names asked (result_function net h header zone ips m)
    unfolding result_function
    result_function-Names asked header ips m ph n =
        let added = address_records net h zone (unique_ips net ips) in
        let answered = Names-answer asked m added (address_records-named (unique_ips net ips)) n in
        elim (Bool-cases (is_empty added)) [
          | inl e ↦ rw (result_function, e) answered
          | inr e ↦ elim (Option-cases (for_dot_domains net h h.ns_domains zone)) [
            | inl f ↦ rw (result_function, e, f) answered
            | inr (names, f) ↦
                rw (result_function, e, f) (add_ns_with_glue-Names asked header names _ ph answered)
          ]
        ]

    custom_or-Names :
        (asked : List Question) (qtype : ℕ) (own : Msg → Msg) (m : Msg)
        → Names asked (own m)
        → Names asked m
        → Names asked (custom_or net h qtype zone own m)
    unfolding custom_or
    custom_or-Names asked qtype own m of_own n =
        elim (Bool-cases (is_empty (check_custom_response h zone qtype))) [
          | inl e ↦ rw (e, custom_or) of_own
          | inr e ↦
              rw (e, custom_or)
                (add_custom_records-Names asked (check_custom_response h zone qtype) m n)
        ]

    pub handle_acname_any-Names :
        (asked : List Question) (m : Msg)
        → Names asked m
        → Names asked (handle_acname_any net h zone m)
    unfolding handle_acname_any
    handle_acname_any-Names asked m n =
        let header : Header = record { name = zone; rrtype = type_ns; ttl = h.time_to_live } in
        custom_or-Names asked (elim m.question [ [] ↦ type_a | q ∷ qs ↦ q.qtype ])
          (result_function net h header zone h.ip_addresses) m
          (result_function-Names asked header h.ip_addresses m p n) n

    pub handle_mx-Names :
        (asked : List Question) (m : Msg) → Names asked m → Names asked (handle_mx net h zone m)
    unfolding handle_mx
    handle_mx-Names asked m n = custom_or-Names asked type_mx own m named n
      where
        own : Msg → Msg
        own m = elim (for_dot_domains net h h.mx_domains zone) [
          | none ↦ m
          | some mx_domain ↦ record m {
            answer =
                m.answer
                ++ (mx (record { name = zone; rrtype = type_mx; ttl = h.time_to_live }) mx_domain 1
                    ∷ []);
          }
        ]

        named : Names asked (own m)
        named = elim (Option-cases (for_dot_domains net h h.mx_domains zone)) [
          | inl e ↦ rw (own, e) n
          | inr (name, e) ↦ rw (own, e) (Names-answer asked m _ (p, tt) n)
        ]

    All-named :
        (header : Header) (names : List Text)
        → P header.name
        → All (λ rr. P (name_of rr)) (map (ns header) names)
    All-named header [] ph = tt
    All-named header (name ∷ names) ph = (ph, All-named header names ph)

    pub handle_ns-Names :
        (asked : List Question) (m : Msg) → Names asked m → Names asked (handle_ns net h zone m)
    unfolding handle_ns
    handle_ns-Names asked m n = custom_or-Names asked type_ns own m named n
      where
        header : Header
        header = record { name = zone; rrtype = type_ns; ttl = h.time_to_live }

        own : Msg → Msg
        own m = elim (for_dot_domains net h h.ns_domains zone) [
          | none ↦ m
          | some names ↦ record m { answer = m.answer ++ map (ns header) names }
        ]

        named : Names asked (own m)
        named = elim (Option-cases (for_dot_domains net h h.ns_domains zone)) [
          | inl e ↦ rw (own, e) n
          | inr (names, e) ↦ rw (own, e) (Names-answer asked m _ (All-named header names p) n)
        ]

    pub handle_soa-Names :
        (asked : List Question) (m : Msg) → Names asked m → Names asked (handle_soa net h zone m)
    unfolding handle_soa
    handle_soa-Names asked m n = elim (Option-cases (for_dot_domains net h h.ns_domains zone)) [
      | inl e ↦ rw (e, handle_soa) n
      | inr (names, e) ↦ rw (e, handle_soa) (go names)
    ]
      where
        go :
            (names : List Text)
            → Names asked (elim names as (λ names. Msg) [
              | [] ↦ m
              | name ∷ more ↦ record m {
                answer =
                    m.answer
                    ++ (soa
                          (record { name = zone; rrtype = type_soa; ttl = 0 })
                          name
                          certificate_authority
                        ∷ []);
              }
            ])
        go [] = n
        go (name ∷ more) = Names-answer asked m _ (p, tt) n

    pub handle_txt-Names :
        (asked : List Question) (m : Msg) → Names asked m → Names asked (handle_txt net h zone m)
    unfolding handle_txt
    handle_txt-Names asked m n =
        let rr = txt (record { name = zone; rrtype = type_txt; ttl = 0 }) h.txt_record in
        custom_or-Names asked type_txt (λ m. record m { answer = m.answer ++ (rr ∷ []) }) m
          (Names-answer asked m (rr ∷ []) (p, tt) n) n
