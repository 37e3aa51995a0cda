-- ===== src/Server/Dns/Serve.antt =====
-- ServeDNS and handleInteraction of pkg/server/dns_server.go. What a handler does to the storage
-- is the list of the calls that it makes, in order; their errors are only logged.
use interactsh.Prelude.{
  ℕ, Bool, false, ◌&&◌, ◌||◌, not, List, [], ◌∷◌, ◌++◌, Option, none, some, ◌==◌, if◌then◌else◌,
  map, take, Text, codes, is_empty, to_lower,
}
use interactsh.Storage.Lines.{split}
use interactsh.Storage.Isolation.Steps.{Call, adds, adds_with_id}
use interactsh.Server.Options.{Utilities, Interaction, no_interaction, Metrics, bump}
use interactsh.Server.Ids.{Matches, last_match, scan_parts, scan_chunks, dot}
use interactsh.Server.Dns.Types.{
  NetLib, DnsServer, Msg, Question, txt, has_prefix, to_q_type, type_a, type_ns, type_cname,
  type_mx, type_txt, type_soa, type_aaaa, type_any,
}
use interactsh.Server.Dns.Handlers.{handle_acname_any, handle_mx, handle_ns, handle_soa, handle_txt}

abbrev pub dns_challenge_string : Text
dns_challenge_string = codes "_acme-challenge."

-- A record of the ACME store: its data, and its time to live in seconds.
pub record AcmeRecord : Type 0 where
  pub content : Text
  pub ttl : ℕ

-- What ServeDNS gets: the question, the texts of the two messages, the peer and the time.
pub record DnsRequest : Type 0 where
  pub question : List Question
  pub request_text : Text
  pub host : Text
  pub now : ℕ

unfoldable pub call_of : Option Text → (Text → Call) → List Call
call_of none call = []
call_of (some item) call = call item ∷ []

-- The questions of the message that SetReply of the DNS library makes for a query: the first one.
unfoldable pub set_reply : List Question → List Question
set_reply [] = []
set_reply (q ∷ qs) = q ∷ []

module _ (u : Utilities) (net : NetLib) (h : DnsServer) where
  -- The first domain that the query is below; empty if there is none.
  unfoldable pub found_domain : List Text → Text → Text
  found_domain [] name = []
  found_domain (domain ∷ domains) name =
      let rest = found_domain domains name in
      if u.has_suffix_i name (net.fqdn domain) then domain else rest

  -- The ids of a query: in the request's text, or in the labels of the name.
  unfoldable pub dns_matches : Text → Text → Matches
  unfolding scan_chunks scan_parts split
  dns_matches name request_text =
      if h.options.scan_everywhere
      then scan_chunks u h.options (λ chunk w. w) (u.split_any request_text (codes ".\n\t\"'"))
      else scan_parts u h.options to_lower [] (split dot name)

  abbrev pub interaction_of : DnsRequest → Question → Text → Text → Text → Interaction
  interaction_of r q response unique_id full_id = record no_interaction {
    protocol = codes "dns";
    unique_id = unique_id;
    full_id = full_id;
    q_type = to_q_type q.qtype;
    raw_request = r.request_text;
    raw_response = response;
    remote_address = r.host;
    timestamp = r.now;
  }

  -- The calls of handleInteraction for the first question.
  unfoldable pub handle_interaction : DnsRequest → Question → Text → List Call
  unfolding found_domain call_of
  handle_interaction r q response =
      let domain = found_domain h.options.domains q.name in
      (if h.options.root_tld && not (is_empty domain)
        then call_of (u.marshal (interaction_of r q response q.name q.name)) (adds_with_id domain)
        else [])
      ++ (if is_empty domain then [] else elim (last_match (dns_matches q.name r.request_text)) [
        | none ↦ []
        | some m ↦
            if is_empty m.0
            then []
            else call_of (u.marshal (interaction_of r q response m.0 m.1))
                (adds (take h.options.correlation_id_length m.0))
      ])

  -- handleACMETXTChallenge, over the records that the ACME store has for the zone in lower case.
  unfoldable pub handle_acme_txt_challenge : Text → List AcmeRecord → Msg → Msg
  handle_acme_txt_challenge zone records m = record m {
    answer =
        m.answer
        ++ map (λ rr. txt (record { name = zone; rrtype = type_txt; ttl = rr.ttl }) rr.content)
            records;
  }

  unfoldable pub is_challenge : Question → Bool
  is_challenge q = has_prefix (to_lower q.name) dns_challenge_string

  -- One question that is not of an ACME challenge.
  unfoldable pub answer_plain : Question → Msg → Msg
  answer_plain q m =
      let t = q.qtype in
      if t == type_a || t == type_aaaa || t == type_cname || t == type_any
      then handle_acname_any net h q.name m
      else if t == type_mx
      then handle_mx net h q.name m
      else if t == type_ns
      then handle_ns net h q.name m
      else if t == type_soa
      then handle_soa net h q.name m
      else if t == type_txt
      then handle_txt net h q.name m
      else m

  -- One question of a challenge; `none` is the early return when the store has no records.
  unfoldable pub answer_challenge : (Text → Option (List AcmeRecord)) → Question → Msg → Option Msg
  unfolding handle_acme_txt_challenge
  answer_challenge store q m =
      let t = q.qtype in
      if t == type_soa
      then some (handle_soa net h q.name m)
      else if t == type_txt
      then (elim (store (to_lower q.name)) [
        | none ↦ none
        | some records ↦ some (handle_acme_txt_challenge q.name records m)
      ])
      else if t == type_ns
      then some (handle_ns net h q.name m)
      else if t == type_a || t == type_aaaa
      then some (handle_acname_any net h q.name m)
      else some m

  -- The loop over the questions: the message, and whether one was a challenge.
  unfoldable pub answer_all :
      (Text → Option (List AcmeRecord)) → List Question → Bool → Msg → Option (Msg × Bool)
  answer_all store [] challenge m = some (m, challenge)
  answer_all store (q ∷ qs) challenge m =
      elim (if is_challenge q then answer_challenge store q m else some (answer_plain q m)) [
        | none ↦ none
        | some m' ↦ answer_all store qs (challenge || is_challenge q) m'
      ]

  -- ServeDNS: the counters, the reply that is written, if one is, and the storage calls. `text`
  -- prints a message.
  unfoldable pub serve_dns :
      (Text → Option (List AcmeRecord))
      → (Msg → Text)
      → DnsRequest
      → Metrics
      → Metrics × Option Msg × List Call
  unfolding answer_all set_reply
  serve_dns store text r stats =
      let counted = record stats { dns = bump stats.dns } in
      elim r.question [
        | [] ↦ (counted, none, [])
        | q ∷ qs ↦
            let m : Msg = record {
              question = set_reply (q ∷ qs);
              answer = [];
              authority = [];
              extra = [];
            } in
            elim (answer_all store (q ∷ qs) false m) [
              | none ↦ (counted, none, [])
              | some r' ↦
                  (counted, some r'.0, if r'.1 then [] else handle_interaction r q (text r'.0))
            ]
      ]
