-- ===== src/Server/Ldap/Answers/Served.antt =====
-- What the LDAP server answers and logs of a request, with what the LDAP library logs meanwhile
-- (handleLog of pkg/server/ldap_server.go).
use interactsh.Prelude.{
  ℕ, suc, ◌+◌, ◌≡◌, ◌≢◌, refl, sym, ap, ◌∙◌, true, List, [], ◌∷◌, ◌++◌, none, arith, map, length,
  Text,
}
use interactsh.Storage.Isolation.Steps.{Call}
use interactsh.Server.Options.{ServerOptions, Utilities, Metrics, Interaction, bump}
use interactsh.Server.Ldap.{
  LdapAct, entry, response, replied, abandoned, secured, stored, log_if_enabled, handle_log,
  concat_texts,
}
use interactsh.Server.Ldap.Handlers.{LdapRequest, handle_ldap, log_messages, weave, serve_ldap}
use interactsh.Server.Ldap.Answers.{
  codes_of, calls_of, logs_of, expected_codes, expected_logs, codes_of-stored, calls_of-stored,
  logs_of-append, log_if_enabled-one, handle_ldap-IsAnswered,
}

-- What the library logs around the acts of a handler: the messages before each, and at the end.
abbrev pub message_count : (ℕ → List (List Text)) → ℕ → List LdapAct → ℕ
message_count messages k [] = length (messages k)
message_count messages k (act ∷ acts) = length (messages k) + message_count messages (suc k) acts

module _ (u : Utilities) (options : ServerOptions)
    (encodes : (i : Interaction) → u.marshal i ≢ none) where
  codes_of-log :
      (cs : List Call) (acts : List LdapAct) → codes_of (map stored cs ++ acts) ≡ codes_of acts
  unfolding codes_of
  codes_of-log [] acts = refl
  codes_of-log (c ∷ cs) acts = codes_of-log cs acts

  calls_of-log :
      (cs : List Call) (acts : List LdapAct)
      → calls_of (map stored cs ++ acts) ≡ cs ++ calls_of acts
  unfolding calls_of
  calls_of-log [] acts = refl
  calls_of-log (c ∷ cs) acts = ap (◌∷◌ c) (calls_of-log cs acts)

  log_messages-logs :
      (host : Text) (now : ℕ) (messages : List (List Text))
      → logs_of (log_messages u options true host now messages) ≡ length messages
  unfolding log_messages handle_log
  log_messages-logs host now [] = unfold logs_of in refl
  log_messages-logs host now (texts ∷ messages) =
      let rest = log_messages u options true host now messages in
      logs_of-append (log_if_enabled u options true host (concat_texts texts) now) rest
      ∙ omega (
        arith,
        log_if_enabled-one u options encodes host (concat_texts texts) now,
        log_messages-logs host now messages,
      )

  act-logs :
      (act : LdapAct) (acts : List LdapAct)
      → logs_of (calls_of (act ∷ acts)) ≡ logs_of (calls_of (act ∷ [])) + logs_of (calls_of acts)
  unfolding calls_of logs_of
  act-logs (stored c) acts = ground arith
  act-logs (replied (response t code d)) acts = omega arith
  act-logs (replied (entry name attributes)) acts = omega arith
  act-logs (abandoned id) acts = omega arith
  act-logs secured acts = omega arith

  act-codes :
      (act : LdapAct) (acts : List LdapAct)
      → codes_of (act ∷ acts) ≡ codes_of (act ∷ []) ++ codes_of acts
  unfolding codes_of
  act-codes (replied (response t code d)) acts = refl
  act-codes (replied (entry name attributes)) acts = refl
  act-codes (abandoned id) acts = refl
  act-codes secured acts = refl
  act-codes (stored c) acts = refl

  weave-codes :
      (messages : ℕ → List (List Text)) (host : Text) (now k : ℕ) (acts : List LdapAct)
      → codes_of (weave u options true messages host now k acts) ≡ codes_of acts
  unfolding weave codes_of
  weave-codes messages host now k [] =
      codes_of-stored (log_messages u options true host now (messages k))
  weave-codes messages host now k (act ∷ acts) =
      let after = weave u options true messages host now (suc k) acts in
      codes_of-log (log_messages u options true host now (messages k)) (act ∷ after)
      ∙ act-codes act after
      ∙ ap (λ cs. codes_of (act ∷ []) ++ cs) (weave-codes messages host now (suc k) acts)
      ∙ sym (act-codes act acts)

  weave-logs :
      (messages : ℕ → List (List Text)) (host : Text) (now k : ℕ) (acts : List LdapAct)
      → logs_of (calls_of (weave u options true messages host now k acts))
        ≡ message_count messages k acts + logs_of (calls_of acts)
  unfolding weave
  weave-logs messages host now k [] =
      ap logs_of (calls_of-stored (log_messages u options true host now (messages k)))
      ∙ log_messages-logs host now (messages k)
      ∙ (unfold calls_of logs_of in omega arith)
  weave-logs messages host now k (act ∷ acts) =
      let before = log_messages u options true host now (messages k) in
      let after = weave u options true messages host now (suc k) acts in
      ap logs_of (calls_of-log before (act ∷ after))
      ∙ logs_of-append before (calls_of (act ∷ after))
      ∙ omega (
        arith,
        log_messages-logs host now (messages k),
        act-logs act after,
        act-logs act acts,
        weave-logs messages host now (suc k) acts,
      )

  -- With the full log on, and where every interaction can be encoded, each request is counted and
  -- answered with the result codes of its kind, whatever the library logs meanwhile. The log then has
  -- a record for each message of the library, and one for the request itself; but a search has one for
  -- each correlation id that it holds, and a StartTLS that fails has none of its own.
  pub serve_ldap-IsAnswered :
      (messages : ℕ → List (List Text)) (r : LdapRequest) (host : Text) (now : ℕ) (stats : Metrics)
      → let served = serve_ldap u options true messages r host now stats in
        (served.0 ≡ record stats { ldap = bump stats.ldap })
        × (codes_of served.1 ≡ expected_codes r)
        × (logs_of (calls_of served.1)
            ≡ message_count messages 0 (handle_ldap u options true r host now stats).1
              + expected_logs u options r)
  unfolding serve_ldap
  serve_ldap-IsAnswered messages r host now stats =
      let (counts, (answered, logs)) = handle_ldap-IsAnswered u options encodes r host now stats in
      let acts = (handle_ldap u options true r host now stats).1 in
      (
        counts,
        weave-codes messages host now 0 acts ∙ answered,
        weave-logs messages host now 0 acts ∙ ap (λ n. message_count messages 0 acts + n) logs,
      )
