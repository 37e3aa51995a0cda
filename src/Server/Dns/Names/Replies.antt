-- ===== src/Server/Dns/Names/Replies.antt =====
-- The replies of ServeDNS (pkg/server/dns_server.go) speak of the names that are asked for.
use interactsh.Prelude.{
  ◌≡◌, refl, sym, ap, inl, inr, Bool, true, false, ◌||◌, List, [], ◌∷◌, Option, none, some, arith,
  if◌then◌else◌, Option-cases, All, map, Text, subst, to_lower, ◌==◌,
}
use mathlib.Core.List.{Memᴰ}
use interactsh.Server.Options.{Utilities, Metrics}
use interactsh.Server.Dns.Types.{
  NetLib, DnsServer, Msg, Question, txt, type_a, type_aaaa, type_cname, type_any, type_mx, type_ns,
  type_soa, type_txt,
}
use interactsh.Server.Dns.Serve.{
  AcmeRecord, DnsRequest, is_challenge, answer_challenge, answer_plain, answer_all,
  handle_acme_txt_challenge, set_reply, serve_dns,
}
use interactsh.Server.Dns.Names.{
  Names, name_of, Names-answer, handle_acname_any-Names, handle_mx-Names, handle_ns-Names,
  handle_soa-Names, handle_txt-Names,
}

module _ (P : Text → Type 0) (u : Utilities) (net : NetLib) (h : DnsServer)
    (asked : List Question) where
  Names-if :
      (b : Bool) (x y : Msg)
      → Names P asked x
      → Names P asked y
      → Names P asked (if b then x else y)
  Names-if true x y hx hy = hx
  Names-if false x y hx hy = hy

  answer_plain-Names :
      (q : Question) (m : Msg)
      → P q.name
      → Names P asked m
      → Names P asked (answer_plain u net h q m)
  unfolding answer_plain
  answer_plain-Names q m p n =
      let t = q.qtype in
      Names-if (t == type_a || t == type_aaaa || t == type_cname || t == type_any) _ _
        (handle_acname_any-Names P net h q.name p asked m n)
        (Names-if (t == type_mx) _ _ (handle_mx-Names P net h q.name p asked m n) (
          Names-if (t == type_ns) _ _ (handle_ns-Names P net h q.name p asked m n) (
            Names-if (t == type_soa) _ _ (handle_soa-Names P net h q.name p asked m n)
              (Names-if (t == type_txt) _ _ (handle_txt-Names P net h q.name p asked m n) n))))

  challenge_records-named :
      (zone : Text) (records : List AcmeRecord)
      → P zone
      → All
          (λ rr. P (name_of rr))
          (map
            (λ (rr : AcmeRecord).
              txt (record { name = zone; rrtype = type_txt; ttl = rr.ttl }) rr.content)
            records)
  challenge_records-named zone [] p = tt
  challenge_records-named zone (r ∷ rs) p = (p, challenge_records-named zone rs p)

  -- The message, if there is one.
  abbrev Replies : Option Msg → Type 0
  Replies none = Unit
  Replies (some m) = Names P asked m

  Replies-if : (b : Bool) (x y : Option Msg) → Replies x → Replies y → Replies (if b then x else y)
  Replies-if true x y hx hy = hx
  Replies-if false x y hx hy = hy

  answer_challenge-Replies :
      (store : Text → Option (List AcmeRecord)) (q : Question) (m : Msg)
      → P q.name
      → Names P asked m
      → Replies (answer_challenge u net h store q m)
  unfolding answer_challenge handle_acme_txt_challenge
  answer_challenge-Replies store q m p n =
      let t = q.qtype in
      Replies-if (t == type_soa) _ _ (handle_soa-Names P net h q.name p asked m n) (
        Replies-if (t == type_txt) _ _ (by_store (store (to_lower q.name))) (
          Replies-if (t == type_ns) _ _ (handle_ns-Names P net h q.name p asked m n) (
            Replies-if (t == type_a || t == type_aaaa) _ _
              (handle_acname_any-Names P net h q.name p asked m n) n)))
    where
      by_store :
          (o : Option (List AcmeRecord))
          → Replies (elim o as (λ o. Option Msg) [
            | none ↦ none
            | some records ↦ some (handle_acme_txt_challenge u net h q.name records m)
          ])
      by_store none = tt
      by_store (some records) =
          Names-answer P asked m _ (challenge_records-named q.name records p) n

  answer_all-Names :
      (store : Text → Option (List AcmeRecord)) (qs : List Question) (flag last : Bool) (m r : Msg)
      → All (λ (q : Question). P q.name) qs
      → Names P asked m
      → answer_all u net h store qs flag m ≡ some (r, last)
      → Names P asked r
  unfolding answer_all
  answer_all-Names store [] flag last m r ps n e = subst (Names P asked) (ground (arith, e)) n
  answer_all-Names store (q ∷ qs) flag last m r ps n e =
      let one =
        if is_challenge u net h q
        then answer_challenge u net h store q m
        else some (answer_plain u net h q m) in
      let named : Replies one =
        Replies-if (is_challenge u net h q) _ _ (answer_challenge-Replies store q m ps.0 n)
          (answer_plain-Names q m ps.0 n) in
      elim (Option-cases one) [
        | inl stop ↦ absurd (ground (arith, stop, e))
        | inr (m', on) ↦
            answer_all-Names store qs (flag || is_challenge u net h q) last m' r ps.1
              (subst Replies on named) (ground (arith, on, e))
      ]

-- A name of one of the questions.
abbrev pub IsAsked : List Question → Text → Type 0
IsAsked asked name = Memᴰ name (map (λ (q : Question). q.name) asked)

All-asked :
    (P : Text → Type 0) (qs : List Question)
    → ((name : Text) → IsAsked qs name → P name)
    → All (λ (q : Question). P q.name) qs
All-asked P [] h = tt
All-asked P (q ∷ qs) h =
    (h q.name (Memᴰ.head refl), All-asked P qs (λ name m. h name (Memᴰ.tail m)))

-- A reply that ServeDNS writes repeats the first question of the query, and each record of its
-- answers and of its authority is about a name that one of the questions asks for.
pub serve_dns-Names :
    (u : Utilities) (net : NetLib) (h : DnsServer) (store : Text → Option (List AcmeRecord))
    (text : Msg → Text) (r : DnsRequest) (stats : Metrics) (reply : Msg)
    → (serve_dns u net h store text r stats).1 ≡ some reply
    → Names (IsAsked r.question) (set_reply r.question) reply
unfolding serve_dns set_reply
serve_dns-Names u net h store text r stats reply e = go r.question refl
  where
    go :
        (qs : List Question)
        → r.question ≡ qs
        → Names (IsAsked r.question) (set_reply r.question) reply
    go [] none_asked = absurd (ground (arith, none_asked, e))
    go (q ∷ qs) some_asked =
        let m : Msg = record { question = q ∷ []; answer = []; authority = []; extra = [] } in
        elim (Option-cases (answer_all u net h store (q ∷ qs) false m)) [
          | inl stop ↦ absurd (ground (arith, some_asked, stop, e))
          | inr ((last, flag), on) ↦
              let fresh : Names (IsAsked r.question) (set_reply r.question) m = record {
                question = sym (ap set_reply some_asked);
                answer = tt;
                authority = tt;
              } in
              let named =
                answer_all-Names (IsAsked r.question) u net h (set_reply r.question) store (q ∷ qs)
                  false flag m last
                  (subst (All (λ (q : Question). IsAsked r.question q.name)) some_asked
                    (All-asked (IsAsked r.question) r.question (λ name a. a)))
                  fresh on in
              subst (Names (IsAsked r.question) (set_reply r.question))
                (ground (arith, some_asked, on, e)) named
        ]
