-- ===== src/Server/Ldap/Setup.antt =====
-- NewLDAPServer, ListenAndServe, Close and getTLSconfig of pkg/server/ldap_server.go. The library's
-- NewServer, Handle, ListenAndServe, and tls.X509KeyPair are parameters, by what they return.
use interactsh.Prelude.{
  Bool, true, false, List, [], ◌∷◌, Option, none, some, if◌then◌else◌, Text, codes,
}

-- The handlers, by the methods of the server.
pub data Handler : Type 0 where
  handles_bind handles_not_found handles_abandon handles_compare handles_add : Handler
  handles_delete handles_modify handles_start_tls handles_who_am_i handles_extended : Handler
  handles_search : Handler

-- A route of the mux, with the request name that it is restricted to, and its label.
pub data RequestName : Type 0 where
  any_name notice_of_start_tls notice_of_who_am_i : RequestName

pub record LdapRoute : Type 0 where
  pub handler : Handler
  pub request_name : RequestName
  pub label : Text

-- `log_callback` says that the library's log goes to handleLog.
pub record LdapServer (Config : Type 0) : Type 0 where
  pub with_logger : Bool
  pub log_callback : Bool
  pub routes : List LdapRoute
  pub tls_config : Option Config

abbrev plain_route : Handler → LdapRoute
plain_route handler = record { handler = handler; request_name = any_name; label = [] }

unfoldable pub ldap_routes : List LdapRoute
ldap_routes =
    plain_route handles_bind
    ∷ plain_route handles_not_found
    ∷ plain_route handles_abandon
    ∷ plain_route handles_compare
    ∷ plain_route handles_add
    ∷ plain_route handles_delete
    ∷ plain_route handles_modify
    ∷ record {
      handler = handles_start_tls;
      request_name = notice_of_start_tls;
      label = codes "StartTLS";
    }
    ∷ record {
      handler = handles_who_am_i;
      request_name = notice_of_who_am_i;
      label = codes "Ext - WhoAmI";
    }
    ∷ record { handler = handles_extended; request_name = any_name; label = codes "Ext - Generic" }
    ∷ plain_route handles_search
    ∷ []

-- `handle_fails` is the error of server.Handle.
unfoldable pub new_ldap_server : (Config : Type 0) → Bool → Bool → Option (LdapServer Config)
unfolding ldap_routes
new_ldap_server Config with_logger handle_fails =
    if handle_fails
    then none
    else some (record {
      with_logger = with_logger;
      log_callback = with_logger;
      routes = ldap_routes;
      tls_config = none;
    })

-- What it tells the channel of the services: a message before it listens, and another if it fails.
unfoldable pub listen_and_serve_ldap :
    {Config : Type 0} → LdapServer Config → Option Config → Bool → LdapServer Config × List Bool
listen_and_serve_ldap h config fails =
    (record h { tls_config = config }, if fails then true ∷ false ∷ [] else true ∷ [])

-- `localhost` is the configuration of the built-in key pair, if it can be read, and `insecure` that
-- of no certificate; the Boolean says that there is no error.
unfoldable pub get_tls_config :
    {Config : Type 0} → LdapServer Config → Option Config → Config → Config × Bool
get_tls_config h localhost insecure = elim h.tls_config [
  | some config ↦ (config, true)
  | none ↦ elim localhost [ some config ↦ (config, true) | none ↦ (insecure, false) ]
]
