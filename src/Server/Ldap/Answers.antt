-- ===== src/Server/Ldap/Answers.antt =====
-- What the LDAP server answers, and what its handlers put into its full log.
pub mod Served
use interactsh.Prelude.{
  ℕ, suc, ◌+◌, ◌≡◌, ◌≢◌, refl, ap, ap₂, ◌∙◌, Bool, true, false, List, [], ◌∷◌, ◌++◌, Option, none,
  some, arith, if◌then◌else◌, map, length, Text, codes,
}
use interactsh.Storage.Isolation.Steps.{
  Call, adds, adds_with_id, registers, names, takes, takes_with_id, reads, leaves, removes,
  inspects,
}
use interactsh.Server.Options.{ServerOptions, Utilities, Metrics, Interaction, bump}
use interactsh.Server.Ids.{Matches}
use interactsh.Server.Dns.Serve.{call_of}
use interactsh.Server.Ldap.{
  LdapAct, ResultCode, success, compare_true, unwilling_to_perform, operations_error, entry,
  response, replied, abandoned, secured, stored, log_interaction, log_if_enabled,
  handle_ldap_interaction, search_matches, search_calls,
}
use interactsh.Server.Ldap.Messages.{search_text}
use interactsh.Server.Ldap.Handlers.{
  LdapRequest, bind, search, abandon, not_found, compare, add, delete_entry, modify, start_tls,
  who_am_i, extended, logged, handle_bind, handle_search, handle_abandon, handle_not_found,
  handle_compare, handle_add, handle_delete, handle_modify, handle_start_tls, handle_who_am_i,
  handle_extended, handle_ldap, search_entry, counted,
}

-- The result codes of the responses, in order.
pub codes_of : List LdapAct → List ResultCode
codes_of [] = []
codes_of (replied (response kind code text) ∷ acts) = code ∷ codes_of acts
codes_of (replied (entry name attributes) ∷ acts) = codes_of acts
codes_of (abandoned id ∷ acts) = codes_of acts
codes_of (secured ∷ acts) = codes_of acts
codes_of (stored c ∷ acts) = codes_of acts

is_log : Call → Bool
is_log (adds_with_id id item) = true
is_log (adds id item) = false
is_log (registers id secret key) = false
is_log (names id) = false
is_log (takes id secret) = false
is_log (takes_with_id id) = false
is_log (reads id consumer now) = false
is_log (leaves id consumer now) = false
is_log (removes id secret) = false
is_log (inspects id) = false

-- The number of records under an id that is not of a session.
pub logs_of : List Call → ℕ
unfolding is_log
logs_of [] = 0
logs_of (c ∷ cs) = let rest = logs_of cs in if is_log c then suc rest else rest

pub calls_of : List LdapAct → List Call
calls_of [] = []
calls_of (stored c ∷ acts) = c ∷ calls_of acts
calls_of (replied r ∷ acts) = calls_of acts
calls_of (abandoned id ∷ acts) = calls_of acts
calls_of (secured ∷ acts) = calls_of acts

-- The codes of each request.
abbrev pub expected_codes : LdapRequest → List ResultCode
expected_codes (bind choice name pass) = success ∷ []
expected_codes (search base filter attributes time_limit) = success ∷ []
expected_codes (abandon id pending) = []
expected_codes (not_found true message) = success ∷ []
expected_codes (not_found false message) = unwilling_to_perform ∷ []
expected_codes (compare attribute value) = compare_true ∷ []
expected_codes (add name attributes) = success ∷ []
expected_codes (delete_entry name) = success ∷ []
expected_codes (modify object changes) = success ∷ []
expected_codes (start_tls (some error)) = success ∷ operations_error ∷ []
expected_codes (start_tls none) = success ∷ []
expected_codes who_am_i = success ∷ []
expected_codes (extended name value) = success ∷ []

codes_of-stored : (cs : List Call) → codes_of (map stored cs) ≡ []
unfolding codes_of
codes_of-stored [] = refl
codes_of-stored (c ∷ cs) = codes_of-stored cs

calls_of-stored : (cs : List Call) → calls_of (map stored cs) ≡ cs
unfolding calls_of
calls_of-stored [] = refl
calls_of-stored (c ∷ cs) = ap (◌∷◌ c) (calls_of-stored cs)

logs_of-append : (cs ds : List Call) → logs_of (cs ++ ds) ≡ logs_of cs + logs_of ds
unfolding logs_of
logs_of-append [] ds = omega arith
logs_of-append (c ∷ cs) ds = ground (arith, logs_of-append cs ds)

call_of-one : (o : Option Text) (id : Text) → o ≢ none → logs_of (call_of o (adds_with_id id)) ≡ 1
unfolding call_of logs_of is_log
call_of-one none id h = absurd (h refl)
call_of-one (some item) id h = refl

call_of-no_log : (o : Option Text) (id : Text) → logs_of (call_of o (adds id)) ≡ 0
unfolding call_of logs_of is_log
call_of-no_log none id = refl
call_of-no_log (some item) id = refl

-- What the full log holds of a request.
abbrev pub expected_logs : Utilities → ServerOptions → LdapRequest → ℕ
expected_logs u options (bind choice name pass) = 1
expected_logs u options (search base filter attributes time_limit) =
    length
      (search_matches u options true (u.split_any (base ++ (codes "," ++ filter)) (codes "=,")))
expected_logs u options (abandon id pending) = 1
expected_logs u options (not_found is_bind message) = 1
expected_logs u options (compare attribute value) = 1
expected_logs u options (add name attributes) = 1
expected_logs u options (delete_entry name) = 1
expected_logs u options (modify object changes) = 1
expected_logs u options (start_tls (some error)) = 0
expected_logs u options (start_tls none) = 1
expected_logs u options who_am_i = 1
expected_logs u options (extended name value) = 1

-- The answers and the log of one request.
abbrev pub IsAnswered : Utilities → ServerOptions → LdapRequest → List LdapAct → Type 0
IsAnswered u options r acts =
    (codes_of acts ≡ expected_codes r) × (logs_of (calls_of acts) ≡ expected_logs u options r)

module _ (u : Utilities) (options : ServerOptions)
    (encodes : (i : Interaction) → u.marshal i ≢ none) where
  log_if_enabled-one :
      (host raw : Text) (now : ℕ) → logs_of (log_if_enabled u options true host raw now) ≡ 1
  unfolding log_if_enabled log_interaction
  log_if_enabled-one host raw now = call_of-one _ options.token (encodes _)

  handle_ldap_interaction-one :
      (unique_id full_id raw host : Text) (now : ℕ)
      → logs_of (handle_ldap_interaction u options true unique_id full_id raw host now) ≡ 1
  unfolding handle_ldap_interaction
  handle_ldap_interaction-one [] full_id raw host now = log_if_enabled-one host raw now
  handle_ldap_interaction-one (c ∷ cs) full_id raw host now =
      logs_of-append _ (log_if_enabled u options true host raw now)
      ∙ ap₂ ◌+◌ (call_of-no_log _ _) (log_if_enabled-one host raw now)

  search_calls-logs :
      (raw host : Text) (now : ℕ) (ms : Matches)
      → logs_of (search_calls u options true raw host now ms) ≡ length ms
  unfolding search_calls
  search_calls-logs raw host now [] = unfold logs_of in refl
  search_calls-logs raw host now (m ∷ ms) =
      let rest = search_calls u options true raw host now ms in
      logs_of-append (handle_ldap_interaction u options true m.0 m.1 raw host now) rest
      ∙ omega (
        arith,
        handle_ldap_interaction-one m.0 m.1 raw host now,
        search_calls-logs raw host now ms,
      )

  logged-one :
      (host raw : Text) (now : ℕ)
      → let acts = logged u options true host raw now in
        (codes_of acts ≡ []) × (logs_of (calls_of acts) ≡ 1)
  unfolding logged
  logged-one host raw now =
      let cs = log_if_enabled u options true host raw now in
      (codes_of-stored cs, ap logs_of (calls_of-stored cs) ∙ log_if_enabled-one host raw now)

  handle_ldap-IsAnswered :
      (r : LdapRequest) (host : Text) (now : ℕ) (stats : Metrics)
      → ((handle_ldap u options true r host now stats).0 ≡ record stats { ldap = bump stats.ldap })
        × IsAnswered u options r (handle_ldap u options true r host now stats).1
  unfolding handle_ldap counted codes_of calls_of logs_of handle_bind handle_search handle_abandon
      handle_not_found handle_compare handle_add handle_delete handle_modify handle_start_tls
      handle_who_am_i handle_extended search_entry
  handle_ldap-IsAnswered (bind choice name pass) host now stats =
      let (none_more, one) = logged-one host _ now in (refl, (ap (◌∷◌ success) none_more, one))
  handle_ldap-IsAnswered (compare attribute value) host now stats =
      let (none_more, one) = logged-one host _ now in (refl, (ap (◌∷◌ compare_true) none_more, one))
  handle_ldap-IsAnswered (add name attributes) host now stats =
      let (none_more, one) = logged-one host _ now in (refl, (ap (◌∷◌ success) none_more, one))
  handle_ldap-IsAnswered (delete_entry name) host now stats =
      let (none_more, one) = logged-one host _ now in (refl, (ap (◌∷◌ success) none_more, one))
  handle_ldap-IsAnswered (modify object changes) host now stats =
      let (none_more, one) = logged-one host _ now in (refl, (ap (◌∷◌ success) none_more, one))
  handle_ldap-IsAnswered who_am_i host now stats =
      let (none_more, one) = logged-one host _ now in (refl, (ap (◌∷◌ success) none_more, one))
  handle_ldap-IsAnswered (extended name value) host now stats =
      let (none_more, one) = logged-one host _ now in (refl, (ap (◌∷◌ success) none_more, one))
  handle_ldap-IsAnswered (start_tls none) host now stats =
      let (none_more, one) = logged-one host _ now in (refl, (ap (◌∷◌ success) none_more, one))
  handle_ldap-IsAnswered (not_found true message) host now stats =
      let (none_more, one) = logged-one host _ now in (refl, (ap (◌∷◌ success) none_more, one))
  handle_ldap-IsAnswered (not_found false message) host now stats =
      let (none_more, one) = logged-one host _ now in
      (refl, (ap (◌∷◌ unwilling_to_perform) none_more, one))
  handle_ldap-IsAnswered (start_tls (some e)) host now stats = (refl, (refl, refl))
  handle_ldap-IsAnswered (abandon id true) host now stats = (refl, logged-one host _ now)
  handle_ldap-IsAnswered (abandon id false) host now stats = (refl, logged-one host _ now)
  handle_ldap-IsAnswered (search base filter attributes time_limit) host now stats =
      let raw = search_text base filter attributes time_limit in
      let ms =
        search_matches u options true (u.split_any (base ++ (codes "," ++ filter)) (codes "=,")) in
      let cs = search_calls u options true raw host now ms in
      (
        refl,
        (
          ap (◌∷◌ success) (codes_of-stored cs),
          ap logs_of (calls_of-stored cs) ∙ search_calls-logs raw host now ms,
        ),
      )
