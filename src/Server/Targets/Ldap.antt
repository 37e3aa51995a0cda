-- ===== src/Server/Targets/Ldap.antt =====
-- The ids that the LDAP server writes to.
use interactsh.Prelude.{
  ℕ, refl, inr, Bool, true, false, List, [], ◌∷◌, ◌++◌, none, some, is_empty, map, All, All-append,
  Text, codes,
}
use interactsh.Storage.Isolation.Steps.{Call}
use interactsh.Server.Options.{ServerOptions, Utilities, Metrics}
use interactsh.Server.Ids.{Matches}
use interactsh.Server.Ldap.{
  LdapAct, replied, abandoned, secured, stored, log_interaction, log_if_enabled,
  handle_ldap_interaction, search_matches, search_calls,
}
use interactsh.Server.Ldap.Handlers.{
  LdapRequest, bind, search, abandon, not_found, compare, add, delete_entry, modify, start_tls,
  who_am_i, extended, logged, handle_bind, handle_search, handle_abandon, handle_not_found,
  handle_compare, handle_add, handle_delete, handle_modify, handle_start_tls, handle_who_am_i,
  handle_extended, handle_ldap, search_entry,
}
use interactsh.Server.Targets.{
  IsAllowed, IsMatch, scan_parts-IsMatch, front-length, call_of-IsAllowed,
}
use interactsh.Server.Targets.Servers.{All-if}

-- What a handler stores is allowed.
abbrev pub IsAllowedAct : ServerOptions → LdapAct → Type 0
IsAllowedAct options (stored c) = IsAllowed options c
IsAllowedAct options (replied r) = Unit
IsAllowedAct options (abandoned id) = Unit
IsAllowedAct options secured = Unit

stored-IsAllowedAct :
    (options : ServerOptions) (cs : List Call)
    → All (IsAllowed options) cs
    → All (IsAllowedAct options) (map stored cs)
stored-IsAllowedAct options [] h = tt
stored-IsAllowedAct options (c ∷ cs) h = (h.0, stored-IsAllowedAct options cs h.1)

module _ (u : Utilities) (options : ServerOptions) (with_logger : Bool) where
  log_if_enabled-IsAllowed :
      (host raw : Text) (now : ℕ)
      → All (IsAllowed options) (log_if_enabled u options with_logger host raw now)
  unfolding log_if_enabled log_interaction
  log_if_enabled-IsAllowed host raw now =
      All-if (IsAllowed options) with_logger _ [] (call_of-IsAllowed options _ _ (λ t. inr refl)) tt

  search_matches-IsMatch :
      (parts : List Text) → All (IsMatch options) (search_matches u options with_logger parts)
  unfolding search_matches
  search_matches-IsMatch [] = tt
  search_matches-IsMatch (part ∷ parts) =
      All-append (IsMatch options) _ _ (scan_parts-IsMatch u options _ _ _)
        (search_matches-IsMatch parts)

  search_calls-IsAllowed :
      (raw host : Text) (now : ℕ) (ms : Matches)
      → All (IsMatch options) ms
      → All (IsAllowed options) (search_calls u options with_logger raw host now ms)
  unfolding search_calls handle_ldap_interaction
  search_calls-IsAllowed raw host now [] h = tt
  search_calls-IsAllowed raw host now (m ∷ ms) h =
      All-append (IsAllowed options) _ _
        (All-append (IsAllowed options) _ _
          (All-if (IsAllowed options) (is_empty m.0) [] _ tt
            (call_of-IsAllowed options _ _ (λ t. front-length options m h.0)))
          (log_if_enabled-IsAllowed host raw now))
        (search_calls-IsAllowed raw host now ms h.1)

  logged-IsAllowedAct :
      (host raw : Text) (now : ℕ)
      → All (IsAllowedAct options) (logged u options with_logger host raw now)
  unfolding logged
  logged-IsAllowedAct host raw now =
      stored-IsAllowedAct options _ (log_if_enabled-IsAllowed host raw now)

  -- A request to the LDAP server adds only to a configured domain, to the token, or to an id as long
  -- as the correlation ids of its options.
  pub handle_ldap-IsAllowed :
      (r : LdapRequest) (host : Text) (now : ℕ) (stats : Metrics)
      → All (IsAllowedAct options) (handle_ldap u options with_logger r host now stats).1
  unfolding handle_ldap
  handle_ldap-IsAllowed (bind choice name pass) host now stats =
      unfold handle_bind in (tt, logged-IsAllowedAct host _ now)
  handle_ldap-IsAllowed (compare attribute value) host now stats =
      unfold handle_compare in (tt, logged-IsAllowedAct host _ now)
  handle_ldap-IsAllowed (add name attributes) host now stats =
      unfold handle_add in (tt, logged-IsAllowedAct host _ now)
  handle_ldap-IsAllowed (delete_entry name) host now stats =
      unfold handle_delete in (tt, logged-IsAllowedAct host _ now)
  handle_ldap-IsAllowed (modify object changes) host now stats =
      unfold handle_modify in (tt, logged-IsAllowedAct host _ now)
  handle_ldap-IsAllowed who_am_i host now stats =
      unfold handle_who_am_i in (tt, logged-IsAllowedAct host _ now)
  handle_ldap-IsAllowed (extended name value) host now stats =
      unfold handle_extended in (tt, logged-IsAllowedAct host _ now)
  handle_ldap-IsAllowed (start_tls none) host now stats =
      unfold handle_start_tls in (tt, (tt, logged-IsAllowedAct host _ now))
  handle_ldap-IsAllowed (start_tls (some e)) host now stats =
      unfold handle_start_tls in (tt, (tt, tt))
  handle_ldap-IsAllowed (abandon id pending) host now stats =
      unfold handle_abandon in
      All-append (IsAllowedAct options) _ _
        (All-if (IsAllowedAct options) pending (abandoned id ∷ []) [] (tt, tt) tt)
        (logged-IsAllowedAct host _ now)
  handle_ldap-IsAllowed (not_found true message) host now stats =
      unfold handle_not_found in (tt, logged-IsAllowedAct host _ now)
  handle_ldap-IsAllowed (not_found false message) host now stats =
      unfold handle_not_found in (tt, logged-IsAllowedAct host _ now)
  handle_ldap-IsAllowed (search base filter attributes time_limit) host now stats =
      unfold handle_search search_entry in
      (
        tt,
        (
          tt,
          stored-IsAllowedAct options _ (
              search_calls-IsAllowed _ host now _ (
                search_matches-IsMatch (u.split_any (base ++ (codes "," ++ filter)) (codes "=,")))),
        ),
      )
