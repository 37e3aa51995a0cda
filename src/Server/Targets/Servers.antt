-- ===== src/Server/Targets/Servers.antt =====
-- The ids that the handlers of each server write to.
use interactsh.Prelude.{
  ℕ, ◌≡◌, ◌≢◌, refl, inl, inr, Bool, true, false, ◌&&◌, not, List, [], ◌∷◌, ◌++◌, Option, none,
  some, arith, if◌then◌else◌, Bool-cases, Option-cases, take, is_empty, All, All-append, Text,
  codes,
}
use mathlib.Core.List.{Memᴰ}
use interactsh.Storage.Isolation.Steps.{adds, adds_with_id}
use interactsh.Server.Options.{ServerOptions, Utilities, Metrics, Interaction, no_interaction, bump}
use interactsh.Server.Ids.{Matches, last_match}
use interactsh.Server.Dns.Serve.{
  DnsRequest, call_of, interaction_of, handle_interaction, found_domain, dns_matches,
}
use interactsh.Server.Dns.Types.{NetLib, DnsServer, Question}
use interactsh.Server.Http.Types.{Request}
use interactsh.Server.Http.Logger.{root_calls, id_calls, http_matches, logged_calls}
use interactsh.Server.Ftp.{FtpContext, Notice, notice_data, notify, record_interaction}
use interactsh.Server.Targets.{
  IsAllowed, IsMatch, scan_parts-IsMatch, scan_chunks-IsMatch, front-length, last_match-IsMatch,
  call_of-IsAllowed,
}

-- A choice between two lists.
pub All-if :
    {A : Type 0} (P : A → Type 0) (b : Bool) (xs ys : List A)
    → All P xs
    → All P ys
    → All P (if b then xs else ys)
All-if P true xs ys hx hy = hx
All-if P false xs ys hx hy = hy

-- What is done with a match, if there is one.
All-found :
    {A B : Type 0} (P : A → Type 0) (found : Option B) (f : B → List A)
    → ((m : B) → found ≡ some m → All P (f m))
    → All P (elim found as (λ _. List A) [ none ↦ [] | some m ↦ f m ])
All-found P none f h = tt
All-found P (some m) f h = h m refl

module _ (u : Utilities) (net : NetLib) (h : DnsServer) where
  found_domain-Mem :
      (domains : List Text) (name : Text)
      → is_empty (found_domain u net h domains name) ≡ false
      → Memᴰ (found_domain u net h domains name) domains
  unfolding found_domain
  found_domain-Mem [] name e = absurd cc
  found_domain-Mem (d ∷ ds) name e = elim (Bool-cases (u.has_suffix_i name (net.fqdn d))) [
    | inl here ↦ rw here (Memᴰ.head refl)
    | inr there ↦ rw there (Memᴰ.tail (found_domain-Mem ds name (ground (arith, there, e))))
  ]

  dns_matches-IsMatch : (name text : Text) → All (IsMatch h.options) (dns_matches u net h name text)
  unfolding dns_matches
  dns_matches-IsMatch name text =
      All-if (IsMatch h.options) h.options.scan_everywhere _ _ (scan_chunks-IsMatch u h.options _ _)
        (scan_parts-IsMatch u h.options _ _ _)

  session :
      (r : DnsRequest) (q : Question) (response : Text) (m : Text × Text)
      → last_match (dns_matches u net h q.name r.request_text) ≡ some m
      → All (IsAllowed h.options) (
          if is_empty m.0
          then []
          else call_of
              (u.marshal (interaction_of u net h r q response m.0 m.1))
              (adds (take h.options.correlation_id_length m.0)))
  session r q response m e = All-if (IsAllowed h.options) (is_empty m.0) [] _ tt (
      call_of-IsAllowed h.options _ _ (λ t.
        front-length h.options m
          (last_match-IsMatch h.options _ m (dns_matches-IsMatch q.name r.request_text) e)))

  -- handleInteraction of the DNS server adds only to a configured domain, to the token, or to an id
  -- as long as the correlation ids of its options.
  pub handle_interaction-IsAllowed :
      (r : DnsRequest) (q : Question) (response : Text)
      → All (IsAllowed h.options) (handle_interaction u net h r q response)
  unfolding handle_interaction
  handle_interaction-IsAllowed r q response =
      let domain = found_domain u net h h.options.domains q.name in
      elim (Bool-cases (is_empty domain)) [
        | inl e ↦ ground (arith, e)
        | inr e ↦
            rw (e, handle_interaction)
              (All-append (IsAllowed h.options) _ _
                (All-if (IsAllowed h.options) (h.options.root_tld && not false) _ []
                  (call_of-IsAllowed h.options _ (adds_with_id domain)
                    (λ t. inl (found_domain-Mem h.options.domains q.name e)))
                  tt)
                (All-found (IsAllowed h.options) _ _ (session r q response)))
      ]

module _ (u : Utilities) (options : ServerOptions) where
  root_calls-IsAllowed :
      (r : Request) (now : ℕ) (response : Text) (domains : List Text)
      → ((d : Text) → Memᴰ d domains → Memᴰ d options.domains)
      → All (IsAllowed options) (root_calls u options r now response domains)
  unfolding root_calls
  root_calls-IsAllowed r now response [] h = tt
  root_calls-IsAllowed r now response (d ∷ ds) h =
      All-append (IsAllowed options) _ _
        (All-if (IsAllowed options) (u.has_suffix_i r.host d) _ []
          (call_of-IsAllowed options _ (adds_with_id d) (λ t. inl (h d (Memᴰ.head refl)))) tt)
        (root_calls-IsAllowed r now response ds (λ e m. h e (Memᴰ.tail m)))

  id_calls-IsAllowed :
      (r : Request) (now : ℕ) (response : Text) (ms : Matches)
      → All (IsMatch options) ms
      → All (IsAllowed options) (id_calls u options r now response ms)
  unfolding id_calls
  id_calls-IsAllowed r now response [] h = tt
  id_calls-IsAllowed r now response (m ∷ ms) h =
      All-append (IsAllowed options) _ _
        (call_of-IsAllowed options _ _ (λ t. front-length options m h.0))
        (id_calls-IsAllowed r now response ms h.1)

  http_matches-IsMatch : (r : Request) → All (IsMatch options) (http_matches u options r)
  unfolding http_matches
  http_matches-IsMatch r =
      All-if (IsMatch options) options.scan_everywhere _ _ (scan_chunks-IsMatch u options _ _)
        (scan_parts-IsMatch u options _ _ _)

  -- The logger of the HTTP server adds only to a configured domain, to the token, or to an id as long
  -- as the correlation ids of its options.
  pub logged_calls-IsAllowed :
      (r : Request) (now : ℕ) (response : Text)
      → All (IsAllowed options) (logged_calls u options r now response)
  unfolding logged_calls
  logged_calls-IsAllowed r now response =
      All-append (IsAllowed options) _ _
        (All-if (IsAllowed options) options.root_tld _ []
          (root_calls-IsAllowed r now response options.domains (λ d m. m)) tt)
        (id_calls-IsAllowed r now response _ (http_matches-IsMatch r))

append-nonempty : (a b : Text) (c : ℕ) → is_empty (a ++ (c ∷ b)) ≡ false
append-nonempty [] b c = refl
append-nonempty (x ∷ xs) b c = refl

notice_data-nonempty : (ctx : FtpContext) (n : Notice) → is_empty (notice_data ctx n) ≡ false
unfolding notice_data
notice_data-nonempty ctx n = append-nonempty ctx.cmd _ b' '

module _ (u : Utilities) (options : ServerOptions) where
  -- Every notification of the FTP library is counted, and stored once, under the token: what it
  -- prints is never empty, and an interaction can always be encoded.
  pub notify-stores :
      (ctx : FtpContext) (n : Notice) (now : ℕ) (stats : Metrics)
      → ((i : Interaction) → u.marshal i ≢ none)
      → ((notify u options ctx n now stats).0 ≡ record stats { ftp = bump stats.ftp })
        × (item : Text) × ((notify u options ctx n now stats).1
            ≡ adds_with_id options.token item ∷ [])
  unfolding notify record_interaction call_of
  notify-stores ctx n now stats printed =
      let text = notice_data ctx n in
      elim (Option-cases (
        u.marshal (record no_interaction {
          remote_address = ctx.remote_address;
          protocol = codes "ftp";
          raw_request = text;
          timestamp = now;
        }))) [
          | inl e ↦ absurd (printed _ e)
          | inr (item, e) ↦ (refl, item, ground (arith, e, notice_data-nonempty ctx n))
        ]
