-- ===== src/Server/Targets/Mail.antt =====
-- The mail handler of pkg/server/smtp_server.go: which ids it adds to, and when it returns.
use interactsh.Prelude.{
  ℕ, ◌≤◌, Bool, false, ◌&&◌, ◌||◌, is_empty, subst, refl, ◌≡◌, ◌≢◌, inl, inr, true, List, [], ◌∷◌,
  ◌++◌, none, some, arith, Bool-cases, Option-cases, length, take, All, All-append, Text, ltb,
  if◌then◌else◌,
}
use mathlib.Core.List.{Memᴰ}
use interactsh.Storage.Isolation.Steps.{Call, adds, adds_with_id}
use interactsh.Server.Options.{ServerOptions, Utilities, Metrics, get_id_length}
use interactsh.Server.Ids.{last_match}
use interactsh.Server.Dns.Serve.{call_of}
use interactsh.Server.Http.Pages.{last_index}
use interactsh.Client.Registration.{is_none}
use interactsh.Server.Smtp.{
  slice_from, Mail, mail_interaction, recipient_calls, root_mail_calls, mail_matches,
  default_mail_handler,
}
use interactsh.Server.Targets.{
  IsAllowed, IsMatch, exact_parts-IsMatch, front-length, last_match-IsMatch, call_of-IsAllowed,
}

-- A text with an '@' in it.
abbrev pub HasAt : Text → Type 0
HasAt addr = last_index b'@' addr ≢ none

last_index-le : (addr : Text) (at : ℕ) → last_index b'@' addr ≡ some at → at ≤ length addr
unfolding last_index
last_index-le [] at e = ground (arith, e)
last_index-le (c ∷ cs) at e = elim (Option-cases (last_index b'@' cs)) [
  | inl f ↦ ground (arith, e, f)
  | inr (i, f) ↦ let below = last_index-le cs i f in ground (arith, e, f, below)
]

module _ (u : Utilities) (options : ServerOptions) where
  -- The slice of a recipient is in bounds exactly if it has an '@'.
  slice_from-is_none :
      (addr : Text)
      → is_none (slice_from addr (last_index b'@' addr)) ≡ is_none (last_index b'@' addr)
  unfolding slice_from
  slice_from-is_none addr = elim (Option-cases (last_index b'@' addr)) [
    | inl e ↦ rw e refl
    | inr (at, e) ↦ let within = last_index-le addr at e in ground (arith, e, within)
  ]

  recipient_calls-returns :
      (m : Mail) (addr : Text) (domains : List Text)
      → HasAt addr
      → recipient_calls u options m addr domains ≢ none
  unfolding recipient_calls
  recipient_calls-returns m addr [] h e = absurd cc
  recipient_calls-returns m addr (d ∷ ds) h e =
      ground (arith, slice_from-is_none addr, recipient_calls-returns m addr ds h)

  root_mail_calls-returns :
      (m : Mail) (addrs : List Text) → All HasAt addrs → root_mail_calls u options m addrs ≢ none
  unfolding root_mail_calls
  root_mail_calls-returns m [] h e = absurd cc
  root_mail_calls-returns m (addr ∷ addrs) h e = ground (
    arith,
    recipient_calls-returns m addr options.domains h.0,
    root_mail_calls-returns m addrs h.1,
  )

  -- The mail handler returns, whatever the options, if every recipient has an '@'.
  pub default_mail_handler-returns :
      (m : Mail) (stats : Metrics) → All HasAt m.to → default_mail_handler u options m stats ≢ none
  unfolding default_mail_handler
  default_mail_handler-returns m stats h e = ground (arith, root_mail_calls-returns m m.to h)

  -- A recipient with no '@' that ends in one of the domains.
  is_bare : List Text → Text → Bool
  is_bare [] addr = false
  is_bare (d ∷ ds) addr =
      (u.has_suffix_i addr d && is_none (last_index b'@' addr)) || is_bare ds addr

  pub some_bare : List Text → Bool
  unfolding is_bare
  some_bare [] = false
  some_bare (addr ∷ addrs) = is_bare options.domains addr || some_bare addrs

  recipient_calls-is_none :
      (m : Mail) (addr : Text) (domains : List Text)
      → is_none (recipient_calls u options m addr domains) ≡ is_bare domains addr
  unfolding recipient_calls is_bare
  recipient_calls-is_none m addr [] = refl
  recipient_calls-is_none m addr (d ∷ ds) =
      let rest = recipient_calls-is_none m addr ds in
      let sliced = slice_from-is_none addr in
      elim (Option-cases (slice_from addr (last_index b'@' addr))) [
        | inl bare ↦ ground (arith, rest, sliced, bare, Bool-cases (u.has_suffix_i addr d))
        | inr (address, e) ↦ elim (Option-cases (recipient_calls u options m addr ds)) [
          | inl stop ↦ ground (arith, rest, sliced, e, stop, Bool-cases (u.has_suffix_i addr d))
          | inr (more, f) ↦ ground (arith, rest, sliced, e, f, Bool-cases (u.has_suffix_i addr d))
        ]
      ]

  root_mail_calls-is_none :
      (m : Mail) (addrs : List Text) → is_none (root_mail_calls u options m addrs) ≡ some_bare addrs
  unfolding root_mail_calls some_bare
  root_mail_calls-is_none m [] = refl
  root_mail_calls-is_none m (addr ∷ addrs) =
      let here = recipient_calls-is_none m addr options.domains in
      let rest = root_mail_calls-is_none m addrs in
      elim (Option-cases (recipient_calls u options m addr options.domains)) [
        | inl stop ↦ ground (arith, here, stop)
        | inr (calls, e) ↦ elim (Option-cases (root_mail_calls u options m addrs)) [
          | inl stop ↦ ground (arith, here, rest, e, stop)
          | inr (more, f) ↦ ground (arith, here, rest, e, f)
        ]
      ]

  -- The mail handler panics exactly if root-tld is on and some recipient has no '@' and ends in one of
  -- the domains.
  pub default_mail_handler-panics :
      (m : Mail) (stats : Metrics)
      → is_none (default_mail_handler u options m stats) ≡ (options.root_tld && some_bare m.to)
  unfolding default_mail_handler
  default_mail_handler-panics m stats =
      let all = root_mail_calls-is_none m m.to in
      elim (Bool-cases options.root_tld) [
        | inr off ↦ ground (arith, off)
        | inl on ↦ elim (Option-cases (root_mail_calls u options m m.to)) [
          | inl stop ↦ ground (arith, on, all, stop)
          | inr (calls, e) ↦ ground (arith, on, all, e)
        ]
      ]

  All-if :
      (b : Bool) (calls : List Call)
      → All (IsAllowed options) calls
      → All (IsAllowed options) (if b then [] else calls)
  All-if true calls h = tt
  All-if false calls h = h

  mail_matches-IsMatch : (addrs : List Text) → All (IsMatch options) (mail_matches u options addrs)
  unfolding mail_matches
  mail_matches-IsMatch [] = tt
  mail_matches-IsMatch (addr ∷ addrs) = elim (Option-cases (last_index b'@' addr)) [
    | inl e ↦ rw (e, All) (mail_matches-IsMatch addrs)
    | inr (at, e) ↦ elim (Bool-cases (ltb (get_id_length options) (length addr))) [
      | inl long ↦
          rw (e, long, All)
            (All-append (IsMatch options) _ _ (exact_parts-IsMatch u options _ _)
              (mail_matches-IsMatch addrs))
      | inr short ↦ rw (e, short, All) (mail_matches-IsMatch addrs)
    ]
  ]

  recipient_calls-IsAllowed :
      (m : Mail) (addr : Text) (domains : List Text) (calls : List Call)
      → ((d : Text) → Memᴰ d domains → Memᴰ d options.domains)
      → recipient_calls u options m addr domains ≡ some calls
      → All (IsAllowed options) calls
  unfolding recipient_calls
  recipient_calls-IsAllowed m addr [] calls h e =
      let same : [] ≡ calls = cc in subst (All (IsAllowed options)) same tt
  recipient_calls-IsAllowed m addr (d ∷ ds) calls h e =
      let deeper = λ (more : List Call) (f : recipient_calls u options m addr ds ≡ some more).
        recipient_calls-IsAllowed m addr ds more (λ x n. h x (Memᴰ.tail n)) f in
      elim (Bool-cases (u.has_suffix_i addr d)) [
        | inr off ↦ deeper calls (ground (arith, off, e))
        | inl below ↦ elim (Option-cases (slice_from addr (last_index b'@' addr))) [
          | inl bare ↦ absurd (ground (arith, below, bare, e))
          | inr (address, f) ↦ elim (Option-cases (recipient_calls u options m addr ds)) [
            | inl stop ↦ absurd (ground (arith, below, f, stop, e))
            | inr (more, g) ↦
                let same : call_of (u.marshal (mail_interaction u options m address address))
                        (adds_with_id d)
                      ++ more
                    ≡ calls =
                  ground (arith, below, f, g, e) in
                subst (All (IsAllowed options)) same (
                  All-append (IsAllowed options) _ _
                    (call_of-IsAllowed options _ _ (λ t. inl (h d (Memᴰ.head refl))))
                    (deeper more g))
          ]
        ]
      ]

  root_mail_calls-IsAllowed :
      (m : Mail) (addrs : List Text) (calls : List Call)
      → root_mail_calls u options m addrs ≡ some calls
      → All (IsAllowed options) calls
  unfolding root_mail_calls
  root_mail_calls-IsAllowed m [] calls e =
      let same : [] ≡ calls = cc in subst (All (IsAllowed options)) same tt
  root_mail_calls-IsAllowed m (addr ∷ addrs) calls e =
      elim (Option-cases (recipient_calls u options m addr options.domains)) [
        | inl bare ↦ absurd (ground (arith, bare, e))
        | inr (here, f) ↦ elim (Option-cases (root_mail_calls u options m addrs)) [
          | inl stop ↦ absurd (ground (arith, f, stop, e))
          | inr (more, g) ↦
              let same : here ++ more ≡ calls = ground (arith, f, g, e) in
              subst (All (IsAllowed options)) same (
                All-append (IsAllowed options) _ _
                  (recipient_calls-IsAllowed m addr options.domains here (λ d n. n) f)
                  (root_mail_calls-IsAllowed m addrs more g))
        ]
      ]

  roots-IsAllowed :
      (m : Mail) (roots : List Call)
      → (if options.root_tld then root_mail_calls u options m m.to else some []) ≡ some roots
      → All (IsAllowed options) roots
  roots-IsAllowed m roots e = elim (Bool-cases options.root_tld) [
    | inl on ↦ root_mail_calls-IsAllowed m m.to roots (ground (arith, on, e))
    | inr off ↦
        let same : [] ≡ roots = ground (arith, off, e) in subst (All (IsAllowed options)) same tt
  ]

  -- Where the mail handler returns, it has added only to a configured domain, the token, or an id
  -- as long as the correlation ids of its options.
  pub default_mail_handler-IsAllowed :
      (m : Mail) (stats after : Metrics) (calls : List Call)
      → default_mail_handler u options m stats ≡ some (after, calls)
      → All (IsAllowed options) calls
  unfolding default_mail_handler
  default_mail_handler-IsAllowed m stats after calls e =
      elim (Option-cases (if options.root_tld then root_mail_calls u options m m.to else some [])) [
        | inl stop ↦ absurd (ground (arith, stop, e))
        | inr (roots, f) ↦ elim (Option-cases (last_match (mail_matches u options m.to))) [
          | inl g ↦
              let same : roots ++ [] ≡ calls = ground (arith, f, g, e) in
              subst (All (IsAllowed options)) same
                (All-append (IsAllowed options) roots [] (roots-IsAllowed m roots f) tt)
          | inr (x, g) ↦
              let call =
                call_of (u.marshal (mail_interaction u options m x.0 x.1))
                  (adds (take options.correlation_id_length x.0)) in
              let last = if is_empty x.0 then [] else call in
              let same : roots ++ last ≡ calls = ground (arith, f, g, e) in
              subst (All (IsAllowed options)) same (
                All-append (IsAllowed options) roots last (roots-IsAllowed m roots f) (
                  All-if (is_empty x.0) call (
                    call_of-IsAllowed options _ _ (λ t.
                      front-length options x
                        (last_match-IsMatch options _ x (mail_matches-IsMatch m.to) g)))))
        ]
      ]
