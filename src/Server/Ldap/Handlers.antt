-- ===== src/Server/Ldap/Handlers.antt =====
-- The handlers of the routes of pkg/server/ldap_server.go.
use interactsh.Prelude.{
  ℕ, suc, Bool, List, [], ◌∷◌, ◌++◌, Option, none, some, if◌then◌else◌, map, Text, codes,
}
use interactsh.Server.Options.{ServerOptions, Utilities, Metrics, bump}
use interactsh.Storage.Isolation.Steps.{Call}
use interactsh.Server.Ldap.Messages.{Change, line, entry_lines, change_lines, search_text}
use interactsh.Server.Ldap.{
  LdapReply, LdapAct, bind_response, search_done_response, compare_response, add_response,
  delete_response, modify_response, plain_response, extended_response, start_tls_response, success,
  compare_true, unwilling_to_perform, operations_error, entry, response, replied, abandoned,
  secured, stored, log_if_enabled, handle_log, search_matches, search_calls,
}

-- A request, by the route that it takes, with what its handler reads: of an abandon request the
-- message that it names and whether that is pending; of one of no route whether it is a bind
-- request; of StartTLS the error of the handshake, if there is one.
pub data LdapRequest : Type 0 where
  bind : Text → Text → Text → LdapRequest
  search : Text → Text → Text → Text → LdapRequest
  abandon : ℕ → Bool → LdapRequest
  not_found : Bool → Text → LdapRequest
  compare : Text → Text → LdapRequest
  add : Text → List (Text × List Text) → LdapRequest
  delete_entry : Text → LdapRequest
  modify : Text → List Change → LdapRequest
  start_tls : Option Text → LdapRequest
  who_am_i : LdapRequest
  extended : Text → Text → LdapRequest

-- atomic.AddUint64(&ldapServer.options.Stats.Ldap, 1)
unfoldable pub counted : Metrics → Metrics
unfolding bump
counted stats = record stats { ldap = bump stats.ldap }

unfoldable pub search_entry : Text → LdapReply
search_entry base = entry (codes "cn=interactsh, " ++ base) (
    (codes "mail", codes "interact@s.h" ∷ codes "interact@s.h" ∷ [])
    ∷ (codes "company", codes "aaa" ∷ [])
    ∷ (codes "department", codes "bbbb" ∷ [])
    ∷ (codes "l", codes "cccc" ∷ [])
    ∷ (codes "mobile", codes "123456789" ∷ [])
    ∷ (codes "telephoneNumber", codes "123456789" ∷ [])
    ∷ (codes "cn", codes "interact" ∷ [])
    ∷ [])

module _ (u : Utilities) (options : ServerOptions) (with_logger : Bool) where
  -- The last `if` of a handler, for the text in its builder.
  unfoldable pub logged : Text → Text → ℕ → List LdapAct
  unfolding log_if_enabled
  logged host raw now = map stored (log_if_enabled u options with_logger host raw now)

  unfoldable pub handle_bind : Text → Text → Text → Text → ℕ → List LdapAct
  unfolding logged
  handle_bind choice name pass host now =
      replied (response bind_response success [])
      ∷ logged host
          (codes "Type=Bind\n"
            ++ (line (codes "AuthenticationChoice=") choice
                ++ (line (codes "User=") name ++ line (codes "Pass=") pass)))
          now

  unfoldable pub handle_search : Text → Text → Text → Text → Text → ℕ → List LdapAct
  unfolding search_entry search_text search_matches search_calls
  handle_search base filter attributes time_limit host now =
      replied (search_entry base)
      ∷ replied (response search_done_response success [])
      ∷ map stored (
          search_calls u options with_logger (search_text base filter attributes time_limit) host
            now
            (search_matches u options with_logger
              (u.split_any (base ++ (codes "," ++ filter)) (codes "=,"))))

  unfoldable pub handle_abandon : ℕ → Bool → Text → ℕ → List LdapAct
  unfolding logged
  handle_abandon id pending host now =
      (if pending then abandoned id ∷ [] else []) ++ logged host (codes "Type=Abandon\n") now

  unfoldable pub handle_not_found : Bool → Text → Text → ℕ → List LdapAct
  unfolding logged
  handle_not_found is_bind message host now =
      (if is_bind
        then replied (
            response bind_response success (codes "Default binding behavior set to return Success"))
        else replied (
            response plain_response unwilling_to_perform
              (codes "Operation not implemented by server")))
      ∷ logged host (line (codes "Type=") message) now

  unfoldable pub handle_compare : Text → Text → Text → ℕ → List LdapAct
  unfolding logged
  handle_compare attribute value host now =
      replied (response compare_response compare_true [])
      ∷ logged host
          (codes "Type=Compare\n"
            ++ (line (codes "Attribute name to compare=") attribute
                ++ line (codes "Attribute value expected=") value))
          now

  unfoldable pub handle_add : Text → List (Text × List Text) → Text → ℕ → List LdapAct
  unfolding logged entry_lines
  handle_add name attributes host now =
      replied (response add_response success [])
      ∷ logged host (codes "Type=Add\n" ++ (line (codes "Entity=") name ++ entry_lines attributes))
          now

  unfoldable pub handle_delete : Text → Text → ℕ → List LdapAct
  unfolding logged
  handle_delete name host now =
      replied (response delete_response success [])
      ∷ logged host (codes "Type=Delete\n" ++ line (codes "Entity=") name) now

  unfoldable pub handle_modify : Text → List Change → Text → ℕ → List LdapAct
  unfolding logged change_lines
  handle_modify object changes host now =
      replied (response modify_response success [])
      ∷ logged host
          (codes "Type=Modify\n" ++ (line (codes "Entity=") object ++ change_lines changes)) now

  -- A handshake that fails ends the handler, with a second reply.
  unfoldable pub handle_start_tls : Option Text → Text → ℕ → List LdapAct
  unfolding logged
  handle_start_tls handshake host now =
      replied (response start_tls_response success []) ∷ elim handshake [
        | some error ↦
            replied (
              response start_tls_response operations_error
                (codes "StartTLS Handshake error : \"" ++ (error ++ codes "\"")))
            ∷ []
        | none ↦ secured ∷ logged host (codes "Type=StartTLS\nResult=StartTLS OK\n") now
      ]

  unfoldable pub handle_who_am_i : Text → ℕ → List LdapAct
  unfolding logged
  handle_who_am_i host now =
      replied (response extended_response success []) ∷ logged host (codes "Type=WhoAmI\n") now

  unfoldable pub handle_extended : Text → Text → Text → ℕ → List LdapAct
  unfolding logged
  handle_extended name value host now =
      replied (response extended_response success [])
      ∷ logged host
          (codes "Type=Extended\n" ++ (line (codes "Name=") name ++ line (codes "Value=") value))
          now

  -- What the library does with a request: the handler of its route, after the count.
  unfoldable pub handle_ldap : LdapRequest → Text → ℕ → Metrics → Metrics × List LdapAct
  unfolding counted
  handle_ldap (bind choice name pass) host now stats =
      (counted stats, handle_bind choice name pass host now)
  handle_ldap (search base filter attributes time_limit) host now stats =
      (counted stats, handle_search base filter attributes time_limit host now)
  handle_ldap (abandon id pending) host now stats =
      (counted stats, handle_abandon id pending host now)
  handle_ldap (not_found is_bind message) host now stats =
      (counted stats, handle_not_found is_bind message host now)
  handle_ldap (compare attribute value) host now stats =
      (counted stats, handle_compare attribute value host now)
  handle_ldap (add name attributes) host now stats =
      (counted stats, handle_add name attributes host now)
  handle_ldap (delete_entry name) host now stats = (counted stats, handle_delete name host now)
  handle_ldap (modify object changes) host now stats =
      (counted stats, handle_modify object changes host now)
  handle_ldap (start_tls handshake) host now stats =
      (counted stats, handle_start_tls handshake host now)
  handle_ldap who_am_i host now stats = (counted stats, handle_who_am_i host now)
  handle_ldap (extended name value) host now stats =
      (counted stats, handle_extended name value host now)

  -- The calls of HandleLogCallback, which NewLDAPServer sets to handleLog with the full log on: the
  -- texts of what the library logs are a parameter.
  unfoldable pub log_messages : Text → ℕ → List (List Text) → List Call
  unfolding handle_log
  log_messages host now [] = []
  log_messages host now (texts ∷ messages) =
      handle_log u options with_logger host texts now ++ log_messages host now messages

  -- What the library logs before each act of a handler, and at its end, among the acts.
  unfoldable pub weave : (ℕ → List (List Text)) → Text → ℕ → ℕ → List LdapAct → List LdapAct
  unfolding log_messages
  weave messages host now k [] = map stored (log_messages host now (messages k))
  weave messages host now k (act ∷ acts) =
      map stored (log_messages host now (messages k))
      ++ (act ∷ weave messages host now (suc k) acts)

  -- A request as the server has it served: its handler, and what the library logs meanwhile.
  unfoldable pub serve_ldap :
      (ℕ → List (List Text)) → LdapRequest → Text → ℕ → Metrics → Metrics × List LdapAct
  unfolding handle_ldap weave
  serve_ldap messages r host now stats =
      let (counted_stats, acts) = handle_ldap r host now stats in
      (counted_stats, weave messages host now 0 acts)
