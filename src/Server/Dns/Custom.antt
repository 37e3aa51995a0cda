-- ===== src/Server/Dns/Custom.antt =====
-- The custom records of pkg/server/dns_server.go: loading, look-up, and their answers.
use interactsh.Prelude.{
  ℕ, ◌-◌, Bool, true, false, ◌&&◌, ◌||◌, List, [], ◌∷◌, ◌++◌, Option, none, some, ltb, ◌==◌,
  if◌then◌else◌, length, take, map, Text, codes, text_eq, to_lower, Assoc, lookup, insert, is_empty,
}
use interactsh.Server.Dns.Types.{
  NetLib, DnsServer, CustomRecordConfig, Msg, Rr, a, aaaa, cname, txt, ns, mx, Header, to4, to16,
  has_suffix, trim_suffix, type_a, type_ns, type_cname, type_mx, type_txt, type_aaaa, type_any,
}
use interactsh.Prelude.{leb}

-- unicode.ToUpper on an ASCII byte, and strings.ToUpper.
unfoldable pub to_upper : Text → Text
to_upper s = map (λ c. if leb b'a' c && leb c b'z' then c - 32 else c) s

abbrev a_record : Text → CustomRecordConfig
a_record ip = record { kind = codes "A"; value = ip; ttl = 0; priority = 0 }

-- The records that newCustomDNSRecordsServer starts from.
abbrev pub default_records : Assoc (List CustomRecordConfig)
default_records =
    (codes "aws", a_record (codes "169.254.169.254") ∷ [])
    ∷ (codes "alibaba", a_record (codes "100.100.100.200") ∷ [])
    ∷ (codes "localhost", a_record (codes "127.0.0.1") ∷ [])
    ∷ (codes "oracle", a_record (codes "192.0.0.192") ∷ [])
    ∷ []

abbrev entries_at : Text → Assoc (List CustomRecordConfig) → List CustomRecordConfig
entries_at k m = elim (lookup k m) [ none ↦ [] | some l ↦ l ]

-- The entries of one subdomain; an entry with no type or no value ends the loading, and keeps
-- what was loaded before it.
unfoldable pub load_entries :
    Text
    → List CustomRecordConfig
    → Assoc (List CustomRecordConfig)
    → Bool × Assoc (List CustomRecordConfig)
load_entries subdomain [] m = (true, m)
load_entries subdomain (entry ∷ entries) m =
    let more = load_entries subdomain entries (
      insert subdomain
        (entries_at subdomain m ++ (record entry { kind = to_upper entry.kind } ∷ [])) m) in
    if is_empty entry.kind || is_empty entry.value then (false, m) else more

-- The structured format of readRecordsFromFile, after the YAML is decoded.
unfoldable pub load_structured :
    Assoc (List CustomRecordConfig)
    → Assoc (List CustomRecordConfig)
    → Bool × Assoc (List CustomRecordConfig)
unfolding load_entries
load_structured [] m = (true, m)
load_structured ((subdomain, entries) ∷ rest) m =
    let (fine, m') = load_entries (to_lower subdomain) entries m in
    let more = load_structured rest m' in if fine then more else (false, m')

-- The legacy format: an address for each subdomain.
unfoldable pub load_legacy :
    Assoc Text → Assoc (List CustomRecordConfig) → Assoc (List CustomRecordConfig)
load_legacy [] m = m
load_legacy ((k, v) ∷ rest) m = load_legacy rest (insert (to_lower k) (a_record v ∷ []) m)

-- What is before ".domain", for the first of the domains that the zone is below. The zone of a
-- domain itself goes on to the next domain.
unfoldable pub subdomain_of : List Text → Text → Text
unfolding has_suffix
subdomain_of [] zone = []
subdomain_of (domain ∷ domains) zone =
    let suffix = codes "." ++ to_lower domain in
    let rest = subdomain_of domains zone in
    if text_eq zone (to_lower domain)
    then rest
    else if has_suffix zone suffix
    then take (length zone - length suffix) zone
    else rest

-- Whether a record answers a query of the type.
unfoldable pub answers : ℕ → CustomRecordConfig → Bool
answers record_type config =
    (record_type == type_a && text_eq config.kind (codes "A"))
    || (record_type == type_aaaa && text_eq config.kind (codes "AAAA"))
    || (record_type == type_cname && text_eq config.kind (codes "CNAME"))
    || (record_type == type_mx && text_eq config.kind (codes "MX"))
    || (record_type == type_txt && text_eq config.kind (codes "TXT"))
    || (record_type == type_ns && text_eq config.kind (codes "NS"))
    || record_type == type_any

unfoldable pub filter_by_type : ℕ → List CustomRecordConfig → List CustomRecordConfig
unfolding answers
filter_by_type record_type [] = []
filter_by_type record_type (c ∷ cs) =
    let rest = filter_by_type record_type cs in if answers record_type c then c ∷ rest else rest

-- checkCustomResponse
unfoldable pub check_custom_response : DnsServer → Text → ℕ → List CustomRecordConfig
unfolding trim_suffix subdomain_of filter_by_type
check_custom_response h zone record_type =
    let subdomain = subdomain_of h.options.domains (to_lower (trim_suffix zone (codes "."))) in
    if is_empty subdomain then [] else elim (lookup subdomain h.records) [
      | none ↦ []
      | some configs ↦ filter_by_type record_type configs
    ]

abbrev or_nil : Option Text → Text
or_nil none = []
or_nil (some ip) = ip

-- The record that addCustomRecordToMessage adds; `none` is its error.
unfoldable pub custom_answer : NetLib → DnsServer → CustomRecordConfig → Text → Option Rr
unfolding to4 to16
custom_answer net h config zone =
    let ttl = if ltb 0 config.ttl then config.ttl else h.time_to_live in
    let header : ℕ → Header = λ t. record { name = zone; rrtype = t; ttl = ttl } in
    if text_eq config.kind (codes "A")
    then (elim (net.parse_ip config.value) [
      | none ↦ none
      | some ip ↦ some (a (header type_a) (or_nil (to4 ip)))
    ])
    else if text_eq config.kind (codes "AAAA")
    then (elim (net.parse_ip config.value) [
      | none ↦ none
      | some ip ↦ some (aaaa (header type_aaaa) (or_nil (to16 ip)))
    ])
    else if text_eq config.kind (codes "CNAME")
    then some (cname (header type_cname) (net.fqdn config.value))
    else if text_eq config.kind (codes "MX")
    then some (
        mx (header type_mx) (net.fqdn config.value)
          (if config.priority == 0 then 10 else config.priority))
    else if text_eq config.kind (codes "TXT")
    then some (txt (header type_txt) config.value)
    else if text_eq config.kind (codes "NS")
    then some (ns (header type_ns) (net.fqdn config.value))
    else none

-- The loop over the custom records of a zone: a record that fails is passed over.
unfoldable pub add_custom_records : NetLib → DnsServer → List CustomRecordConfig → Text → Msg → Msg
unfolding custom_answer
add_custom_records net h [] zone m = m
add_custom_records net h (c ∷ cs) zone m =
    add_custom_records net h cs zone (elim (custom_answer net h c zone) [
      | none ↦ m
      | some rr ↦ record m { answer = m.answer ++ (rr ∷ []) }
    ])
