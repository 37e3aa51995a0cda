-- ===== src/Server/Dns/Answers.antt =====
-- What the custom records and the dispatch of pkg/server/dns_server.go answer.
use interactsh.Prelude.{
  subst, ℕ, ◌≡◌, ap, ◌∙◌, inl, inr, Bool, true, List, [], ◌∷◌, Option, some, arith, if◌then◌else◌,
  Bool-cases, Option-cases, Text, codes, lookup, is_empty, to_lower,
}
use mathlib.Core.List.{Memᴰ}
use mathlib.Core.List.Memᴰ
use interactsh.Server.Options.{Utilities, Metrics, bump}
use interactsh.Server.Dns.Types.{NetLib, DnsServer, CustomRecordConfig, Msg, Question, trim_suffix}
use interactsh.Server.Dns.Custom.{subdomain_of, answers, filter_by_type, check_custom_response}
use interactsh.Server.Dns.Serve.{
  AcmeRecord, DnsRequest, is_challenge, answer_challenge, answer_plain, answer_all, set_reply,
  serve_dns,
}

filter_by_type-answers :
    (t : ℕ) (cs : List CustomRecordConfig) (c : CustomRecordConfig)
    → Memᴰ c (filter_by_type t cs)
    → (answers t c ≡ true) × Memᴰ c cs
unfolding filter_by_type
filter_by_type-answers t [] c m = absurd (Memᴰ.not-nil m)
filter_by_type-answers t (x ∷ xs) c m = elim (Bool-cases (answers t x)) [
  | inl e ↦ elim (Memᴰ.cases_cons (subst (Memᴰ c) (ground (arith, e)) m)) [
    | inl same ↦ (ap (answers t) same ∙ e, Memᴰ.head same)
    | inr n ↦ let deeper = filter_by_type-answers t xs c n in (deeper.0, Memᴰ.tail deeper.1)
  ]
  | inr e ↦
      let deeper = filter_by_type-answers t xs c (subst (Memᴰ c) (ground (arith, e)) m) in
      (deeper.0, Memᴰ.tail deeper.1)
]

-- A record that checkCustomResponse gives is one that was configured, for the subdomain of the
-- zone, and is of the type that was asked for.
pub check_custom_response-answers :
    (h : DnsServer) (zone : Text) (t : ℕ) (c : CustomRecordConfig)
    → Memᴰ c (check_custom_response h zone t)
    → (answers t c ≡ true)
      × (configs : List CustomRecordConfig) × (lookup
            (subdomain_of h.options.domains (to_lower (trim_suffix zone (codes "."))))
            h.records
          ≡ some configs)
      × Memᴰ c configs
unfolding check_custom_response
check_custom_response-answers h zone t c m =
    let sub = subdomain_of h.options.domains (to_lower (trim_suffix zone (codes "."))) in
    elim (Bool-cases (is_empty sub)) [
      | inl e ↦ absurd (Memᴰ.not-nil (subst (Memᴰ c) (ground (arith, e)) m))
      | inr e ↦ elim (Option-cases (lookup sub h.records)) [
        | inl f ↦ absurd (Memᴰ.not-nil (subst (Memᴰ c) (ground (arith, e, f)) m))
        | inr (configs, f) ↦
            let inside =
              filter_by_type-answers t configs c (subst (Memᴰ c) (ground (arith, e, f)) m) in
            (inside.0, configs, f, inside.1)
      ]
    ]

module _ (u : Utilities) (net : NetLib) (h : DnsServer)
    (store : Text → Option (List AcmeRecord)) where
  answer_all-challenge :
      (qs : List Question) (m last : Msg) (flag : Bool)
      → answer_all u net h store qs true m ≡ some (last, flag)
      → flag ≡ true
  unfolding answer_all
  answer_all-challenge [] m last flag e = cc
  answer_all-challenge (q ∷ qs) m last flag e =
      elim (Option-cases (
        if is_challenge u net h q
        then answer_challenge u net h store q m
        else some (answer_plain u net h q m))) [
          | inl stop ↦ ground (arith, stop)
          | inr (m', on) ↦ answer_all-challenge qs m' last flag (ground (arith, on, e))
        ]

  -- A DNS query whose first question is of an ACME challenge is counted, and stores nothing,
  -- whatever the other questions and the records of the challenge.
  pub serve_dns-challenge :
      (text : Msg → Text) (r : DnsRequest) (stats : Metrics) (q : Question) (qs : List Question)
      → r.question ≡ q ∷ qs
      → is_challenge u net h q ≡ true
      → ((serve_dns u net h store text r stats).0 ≡ record stats { dns = bump stats.dns })
        × ((serve_dns u net h store text r stats).2 ≡ [])
  unfolding serve_dns answer_all set_reply
  serve_dns-challenge text r stats q qs asked challenge =
      let m : Msg = record { question = q ∷ []; answer = []; authority = []; extra = [] } in
      elim (Option-cases (answer_challenge u net h store q m)) [
        | inl e ↦ ground (arith, asked, challenge, e)
        | inr (m', e) ↦ elim (Option-cases (answer_all u net h store qs true m')) [
          | inl f ↦ ground (arith, asked, challenge, e, f)
          | inr ((last, flag), f) ↦
              ground (arith, asked, challenge, e, f, answer_all-challenge qs m' last flag f)
        ]
      ]
