-- ===== src/Server/Dns/Types.antt =====
-- The messages of pkg/server/dns_server.go, its server and the tables that NewDNSServer fills.
use interactsh.Prelude.{
  ℕ, ◌-◌, Bool, ◌&&◌, ◌||◌, List, [], ◌∷◌, ◌++◌, Option, none, some, leb, ◌==◌, if◌then◌else◌,
  length, take, drop, Text, codes, text_eq, Assoc, insert, has, is_empty,
}
use interactsh.Server.Options.{ServerOptions}

-- net.IP: a nil address is empty.
abbrev pub Ip : Type 0
Ip = Text

-- net.IP.String, net.ParseIP, and dns.Fqdn of miekg/dns.
pub record NetLib : Type 0 where
  pub ip_string : Ip → Text
  pub parse_ip : Text → Option Ip
  pub fqdn : Text → Text

abbrev v4_in_v6_prefix : Text
v4_in_v6_prefix = 0 ∷ 0 ∷ 0 ∷ 0 ∷ 0 ∷ 0 ∷ 0 ∷ 0 ∷ 0 ∷ 0 ∷ 255 ∷ 255 ∷ []

-- ip.To4()
unfoldable pub to4 : Ip → Option Text
to4 ip =
    if length ip == 4
    then some ip
    else if length ip == 16 && text_eq (take 12 ip) v4_in_v6_prefix
    then some (drop 12 ip)
    else none

-- ip.To16()
unfoldable pub to16 : Ip → Option Text
to16 ip =
    if length ip == 4
    then some (v4_in_v6_prefix ++ ip)
    else if length ip == 16
    then some ip
    else none

-- strings.HasPrefix, strings.HasSuffix and strings.TrimSuffix.
unfoldable pub has_prefix : Text → Text → Bool
has_prefix s prefix = text_eq (take (length prefix) s) prefix

unfoldable pub has_suffix : Text → Text → Bool
has_suffix s suffix =
    leb (length suffix) (length s) && text_eq (drop (length s - length suffix) s) suffix

unfoldable pub trim_suffix : Text → Text → Text
unfolding has_suffix
trim_suffix s suffix = if has_suffix s suffix then take (length s - length suffix) s else s

-- The query types.
abbrev pub type_a : ℕ
type_a = 1

abbrev pub type_ns : ℕ
type_ns = 2

abbrev pub type_cname : ℕ
type_cname = 5

abbrev pub type_soa : ℕ
type_soa = 6

abbrev pub type_ptr : ℕ
type_ptr = 12

abbrev pub type_mx : ℕ
type_mx = 15

abbrev pub type_txt : ℕ
type_txt = 16

abbrev pub type_aaaa : ℕ
type_aaaa = 28

abbrev pub type_any : ℕ
type_any = 255

-- toQType
unfoldable pub to_q_type : ℕ → Text
to_q_type ttype =
    if ttype == type_a
    then codes "A"
    else if ttype == type_ns
    then codes "NS"
    else if ttype == type_cname
    then codes "CNAME"
    else if ttype == type_soa
    then codes "SOA"
    else if ttype == type_ptr
    then codes "PTR"
    else if ttype == type_mx
    then codes "MX"
    else if ttype == type_txt
    then codes "TXT"
    else if ttype == type_aaaa
    then codes "AAAA"
    else []

-- dns.RR_Header; the class is always INET.
pub record Header : Type 0 where
  pub name : Text
  pub rrtype : ℕ
  pub ttl : ℕ

pub data Rr : Type 0 where
  a aaaa cname txt ns : Header → Text → Rr
  mx : Header → Text → ℕ → Rr
  soa : Header → Text → Text → Rr

pub record Question : Type 0 where
  pub name : Text
  pub qtype : ℕ

pub record Msg : Type 0 where
  pub question : List Question
  pub answer : List Rr
  pub authority : List Rr
  pub extra : List Rr

-- A custom record; its type is in upper case once it is loaded.
pub record CustomRecordConfig : Type 0 where
  pub kind : Text
  pub value : Text
  pub ttl : ℕ
  pub priority : ℕ

pub record DnsServer : Type 0 where
  pub options : ServerOptions
  pub mx_domains : Assoc Text
  pub ns_domains : Assoc (List Text)
  pub ip_addresses : List Ip
  pub time_to_live : ℕ
  pub records : Assoc (List CustomRecordConfig)
  pub txt_record : Text

-- The loop of NewDNSServer over the domains.
unfoldable pub domain_tables :
    NetLib → List Text → Assoc Text × Assoc (List Text) → Assoc Text × Assoc (List Text)
domain_tables net [] tables = tables
domain_tables net (domain ∷ domains) tables =
    let dotted = net.fqdn domain in
    domain_tables net domains (
      insert dotted (codes "mail." ++ dotted) tables.0,
      insert dotted ((codes "ns1." ++ dotted) ∷ (codes "ns2." ++ dotted) ∷ []) tables.1,
    )

-- NewDNSServer
unfoldable pub new_dns_server :
    NetLib → ServerOptions → List Ip → Assoc (List CustomRecordConfig) → DnsServer
new_dns_server net options ips records =
    let tables = domain_tables net options.domains ([], []) in
    record {
      options = options;
      mx_domains = tables.0;
      ns_domains = tables.1;
      ip_addresses = ips;
      time_to_live = 3600;
      records = records;
      txt_record = [];
    }

-- uniqueIPs: addresses that print alike are one; `seen` are the keys met so far.
unfoldable pub unique_from : NetLib → List Text → List Ip → List Ip
unique_from net seen [] = []
unique_from net seen (ip ∷ ips) =
    let passed = is_empty ip || has (net.ip_string ip) seen in
    let rest = unique_from net (if passed then seen else net.ip_string ip ∷ seen) ips in
    if passed then rest else ip ∷ rest

unfoldable pub unique_ips : NetLib → List Ip → List Ip
unfolding unique_from
unique_ips net ips = unique_from net [] ips
