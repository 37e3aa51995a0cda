-- ===== src/Server/Ldap.antt =====
-- pkg/server/ldap_server.go: what its handlers share, handleInteraction, logInteraction and
-- handleLog. The LDAP library decodes the messages, and gives their fields as texts; it writes the
-- answers. Ldap/Handlers has the handlers of the routes, and Ldap/Setup the server itself.
pub mod Setup
pub mod Messages
pub mod Handlers
pub mod Answers
use interactsh.Prelude.{
  ℕ, Bool, List, [], ◌∷◌, ◌++◌, Option, none, if◌then◌else◌, take, is_empty, Text, codes,
}
use interactsh.Storage.Lines.{split}
use interactsh.Storage.Isolation.Steps.{Call, adds, adds_with_id}
use interactsh.Server.Options.{ServerOptions, Utilities, no_interaction}
use interactsh.Server.Ids.{Matches, scan_parts, dot}
use interactsh.Server.Dns.Serve.{call_of}

-- The response types of the handlers, and the names of the extended ones.
pub data ResponseType : Type 0 where
  bind_response search_done_response compare_response add_response : ResponseType
  delete_response modify_response plain_response extended_response : ResponseType
  start_tls_response : ResponseType

pub data ResultCode : Type 0 where
  success compare_true unwilling_to_perform operations_error : ResultCode

-- An entry has its name and its attributes; a response its code and its diagnostic message.
pub data LdapReply : Type 0 where
  entry : Text → List (Text × List Text) → LdapReply
  response : ResponseType → ResultCode → Text → LdapReply

-- What a handler does, in order: it writes a reply, gives up a pending request, puts TLS on the
-- connection, or calls the storage.
pub data LdapAct : Type 0 where
  replied : LdapReply → LdapAct
  abandoned : ℕ → LdapAct
  secured : LdapAct
  stored : Call → LdapAct

unfoldable pub concat_texts : List Text → Text
concat_texts [] = []
concat_texts (t ∷ ts) = t ++ concat_texts ts

-- `with_logger` is the field WithLogger.
module _ (u : Utilities) (options : ServerOptions) (with_logger : Bool) where
  unfoldable pub log_interaction : Text → Text → ℕ → List Call
  unfolding call_of
  log_interaction host raw now =
      call_of
        (u.marshal (record no_interaction {
          protocol = codes "ldap";
          raw_request = raw;
          remote_address = host;
          timestamp = now;
        }))
        (adds_with_id options.token)

  -- The calls of a handler's last `if`.
  unfoldable pub log_if_enabled : Text → Text → ℕ → List Call
  unfolding log_interaction
  log_if_enabled host raw now = if with_logger then log_interaction host raw now else []

  -- handleLog: the text that the format makes of what the library logs, or, with no format, the
  -- texts of its values one after the other.
  unfoldable pub handle_log : Text → List Text → ℕ → List Call
  unfolding log_if_enabled concat_texts
  handle_log host texts now = log_if_enabled host (concat_texts texts) now

  -- handleInteraction.
  unfoldable pub handle_ldap_interaction : Text → Text → Text → Text → ℕ → List Call
  unfolding call_of log_if_enabled
  handle_ldap_interaction unique_id full_id raw host now =
      (if is_empty unique_id
        then []
        else call_of
            (u.marshal (record no_interaction {
              protocol = codes "ldap";
              unique_id = unique_id;
              full_id = full_id;
              raw_request = raw;
              remote_address = host;
              timestamp = now;
            }))
            (adds (take options.correlation_id_length unique_id)))
      ++ log_if_enabled host raw now

  -- The ids of a search, part by part.
  unfoldable pub search_matches : List Text → Matches
  unfolding scan_parts split
  search_matches [] = []
  search_matches (part ∷ parts) =
      scan_parts u options (λ w. w) [] (split dot part) ++ search_matches parts

  unfoldable pub search_calls : Text → Text → ℕ → Matches → List Call
  unfolding handle_ldap_interaction
  search_calls raw host now [] = []
  search_calls raw host now ((unique_id, full_id) ∷ ms) =
      handle_ldap_interaction unique_id full_id raw host now ++ search_calls raw host now ms
