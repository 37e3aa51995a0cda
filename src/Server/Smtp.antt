-- ===== src/Server/Smtp.antt =====
-- pkg/server/smtp_server.go: defaultHandler, which gets each message from the SMTP library.
use interactsh.Prelude.{
  ℕ, suc, List, [], ◌∷◌, ◌++◌, Option, none, some, ltb, if◌then◌else◌, length, take, drop, leb,
  is_empty, Text, codes,
}
use interactsh.Storage.Lines.{split}
use interactsh.Storage.Isolation.Steps.{Call, adds, adds_with_id}
use interactsh.Server.Options.{
  ServerOptions, Utilities, Interaction, no_interaction, get_id_length, Metrics, bump,
}
use interactsh.Server.Ids.{Matches, last_match, exact_parts, dot}
use interactsh.Server.Dns.Serve.{call_of}
use interactsh.Server.Http.Pages.{last_index}

-- `host` is the host of the peer's address.
pub record Mail : Type 0 where
  pub host : Text
  pub from : Text
  pub to : List Text
  pub content : Text
  pub now : ℕ

-- s[from:], which panics unless 0 ≤ from ≤ len(s); `none` is the index -1 of what is not there.
unfoldable pub slice_from : Text → Option ℕ → Option Text
slice_from s none = none
slice_from s (some from) = if leb from (length s) then some (drop from s) else none

module _ (u : Utilities) (options : ServerOptions) where
  abbrev pub mail_interaction : Mail → Text → Text → Interaction
  mail_interaction m unique_id full_id = record no_interaction {
    protocol = codes "smtp";
    unique_id = unique_id;
    full_id = full_id;
    raw_request = m.content;
    smtp_from = m.from;
    remote_address = m.host;
    timestamp = m.now;
  }

  -- The loop over the domains, for one recipient; `none` is a panic of the slice
  -- addr[strings.LastIndex(addr, "@"):].
  unfoldable pub recipient_calls : Mail → Text → List Text → Option (List Call)
  unfolding call_of last_index slice_from
  recipient_calls m addr [] = some []
  recipient_calls m addr (domain ∷ domains) =
      let rest = recipient_calls m addr domains in
      if u.has_suffix_i addr domain
      then (elim (slice_from addr (last_index b'@' addr)) [
        | none ↦ none
        | some address ↦ elim rest [
          | none ↦ none
          | some more ↦ some (
              call_of (u.marshal (mail_interaction m address address)) (adds_with_id domain)
              ++ more)
        ]
      ])
      else rest

  -- The first loop over the recipients, with root-tld on.
  unfoldable pub root_mail_calls : Mail → List Text → Option (List Call)
  unfolding recipient_calls
  root_mail_calls m [] = some []
  root_mail_calls m (addr ∷ addrs) =
      let rest = root_mail_calls m addrs in
      elim (recipient_calls m addr options.domains) [
        | none ↦ none
        | some calls ↦ elim rest [ none ↦ none | some more ↦ some (calls ++ more) ]
      ]

  -- The second loop over the recipients: the ids among the labels of each host.
  unfoldable pub mail_matches : List Text → Matches
  unfolding get_id_length last_index split exact_parts
  mail_matches [] = []
  mail_matches (addr ∷ addrs) =
      let rest = mail_matches addrs in
      elim (last_index b'@' addr) [
        | none ↦ rest
        | some at ↦
            if ltb (get_id_length options) (length addr)
            then exact_parts u options [] (split dot (drop (suc at) addr)) ++ rest
            else rest
      ]

  -- defaultHandler; the message is always accepted.
  unfoldable pub default_mail_handler : Mail → Metrics → Option (Metrics × List Call)
  unfolding bump root_mail_calls mail_matches last_match call_of
  default_mail_handler m stats =
      elim (if options.root_tld then root_mail_calls m m.to else some []) [
        | none ↦ none
        | some calls ↦ some (
          record stats { smtp = bump stats.smtp },
          calls ++ elim (last_match (mail_matches m.to)) [
            | none ↦ []
            | some (unique_id, full_id) ↦
                if is_empty unique_id
                then []
                else call_of (u.marshal (mail_interaction m unique_id full_id))
                    (adds (take options.correlation_id_length unique_id))
          ],
        )
      ]
