-- ===== src/Server/Targets.antt =====
-- Which ids of the storage the protocol servers of pkg/server can write to.
pub mod Servers
pub mod Mail
pub mod Ldap
use interactsh.Prelude.{
  subst, ℕ, ◌+◌, ◌≤◌, ◌≡◌, refl, sym, ap, ◌∙◌, inl, inr, ◌⊎◌, Bool, true, false, ◌&&◌, List, [],
  ◌∷◌, ◌++◌, Option, none, some, arith, if◌then◌else◌, Bool-cases, Option-cases, length, take,
  length-take, min, is_empty, All, All-append, Text, ◌==◌, ==_iff,
}
use mathlib.Core.List.{Memᴰ}
use interactsh.Storage.Isolation.Steps.{
  Call, adds, adds_with_id, registers, names, takes, takes_with_id, reads, leaves, removes,
  inspects,
}
use interactsh.Server.Options.{ServerOptions, Utilities, get_id_length, Metrics, Interaction}
use interactsh.Server.Ids.{
  Matches, last_match, is_correlation_id, ids_among, scan_parts, scan_chunks, exact_parts,
}
use interactsh.Server.Dns.Serve.{call_of, handle_interaction, found_domain, dns_matches, DnsRequest}
use interactsh.Server.Dns.Types.{NetLib, DnsServer, Question}
use interactsh.Server.Http.Logger.{root_calls, id_calls, http_matches, logged_calls}
use interactsh.Server.Http.Types.{Request}

-- A server adds to the id of a session, which is as long as a correlation id, to a configured
-- domain, or to the token.
abbrev pub IsAllowed : ServerOptions → Call → Type 0
IsAllowed options (adds id item) = length id ≡ options.correlation_id_length
IsAllowed options (adds_with_id id item) = Memᴰ id options.domains ⊎ (id ≡ options.token)
IsAllowed options (registers id secret key) = ⊥
IsAllowed options (names id) = ⊥
IsAllowed options (takes id secret) = ⊥
IsAllowed options (takes_with_id id) = ⊥
IsAllowed options (reads id consumer now) = ⊥
IsAllowed options (leaves id consumer now) = ⊥
IsAllowed options (removes id secret) = ⊥
IsAllowed options (inspects id) = ⊥

-- A match whose unique id has the length of an id.
abbrev IsMatch : ServerOptions → Text × Text → Type 0
IsMatch options m = length m.0 ≡ get_id_length options

module _ (u : Utilities) (options : ServerOptions) where
  is_correlation_id-length :
      (s : Text) → is_correlation_id u options s ≡ true → length s ≡ get_id_length options
  unfolding is_correlation_id
  is_correlation_id-length s h = ground arith

  pub ids_among-IsMatch :
      (normalize full : Text → Text) (ws : List Text)
      → All (IsMatch options) (ids_among u options normalize full ws)
  unfolding ids_among
  ids_among-IsMatch normalize full [] = tt
  ids_among-IsMatch normalize full (w ∷ ws) =
      elim (Bool-cases (is_correlation_id u options (normalize w))) [
        | inl e ↦
            rw e (is_correlation_id-length (normalize w) e, ids_among-IsMatch normalize full ws)
        | inr e ↦ rw e (ids_among-IsMatch normalize full ws)
      ]

  pub scan_parts-IsMatch :
      (normalize : Text → Text) (before parts : List Text)
      → All (IsMatch options) (scan_parts u options normalize before parts)
  unfolding scan_parts
  scan_parts-IsMatch normalize before [] = tt
  scan_parts-IsMatch normalize before (part ∷ parts) =
      All-append (IsMatch options) _ _ (ids_among-IsMatch normalize _ _)
        (scan_parts-IsMatch normalize (before ++ (part ∷ [])) parts)

  pub scan_chunks-IsMatch :
      (full : Text → Text → Text) (chunks : List Text)
      → All (IsMatch options) (scan_chunks u options full chunks)
  unfolding scan_chunks
  scan_chunks-IsMatch full [] = tt
  scan_chunks-IsMatch full (chunk ∷ chunks) =
      All-append (IsMatch options) _ _ (ids_among-IsMatch _ (full chunk) _)
        (scan_chunks-IsMatch full chunks)

  pub exact_parts-IsMatch :
      (before parts : List Text) → All (IsMatch options) (exact_parts u options before parts)
  unfolding exact_parts
  exact_parts-IsMatch before [] = tt
  exact_parts-IsMatch before (part ∷ parts) =
      All-append (IsMatch options) _ _ (ids_among-IsMatch _ _ _)
        (exact_parts-IsMatch (before ++ (part ∷ [])) parts)

module _ (options : ServerOptions) where
  -- The id of a session is the front of a match.
  pub front-length :
      (m : Text × Text)
      → IsMatch options m
      → length (take options.correlation_id_length m.0) ≡ options.correlation_id_length
  unfolding get_id_length
  front-length m h = omega (arith, length-take options.correlation_id_length m.0)

  pub last_match-IsMatch :
      (ms : Matches) (m : Text × Text)
      → All (IsMatch options) ms
      → last_match ms ≡ some m
      → IsMatch options m
  unfolding last_match
  last_match-IsMatch [] m h e = absurd cc
  last_match-IsMatch (x ∷ []) m h e = let same : x ≡ m = cc in subst (IsMatch options) same h.0
  last_match-IsMatch (x ∷ y ∷ ms) m h e = last_match-IsMatch (y ∷ ms) m h.1 e

  pub call_of-IsAllowed :
      (item : Option Text) (call : Text → Call)
      → ((t : Text) → IsAllowed options (call t))
      → All (IsAllowed options) (call_of item call)
  unfolding call_of
  call_of-IsAllowed none call h = tt
  call_of-IsAllowed (some t) call h = (h t, tt)
