-- ===== src/Commands/Client/Showing.antt =====
-- Which interactions the client shows.
use interactsh.Prelude.{
  ◌≡◌, Bool, true, false, not, ◌&&◌, ◌||◌, List, [], ◌∷◌, ◌++◌, Option, none, some, if◌then◌else◌,
  is_empty, Text, codes, text_eq, ℕ,
}
use interactsh.Server.Options.{Interaction}
use interactsh.Commands.Client.{
  CliClientOptions, Regex, matches, text_of, Output, write_json, write_output,
}

-- The protocols whose interactions are shown as text.
unfoldable pub selects : CliClientOptions → Text → Bool
selects cli protocol =
    let only = cli.dns_only || (cli.http_only || cli.smtp_only) in
    (cli.dns_only && text_eq protocol (codes "dns"))
    || ((cli.http_only && text_eq protocol (codes "http"))
        || ((cli.smtp_only && text_eq protocol (codes "smtp"))
            || (not only
                && (text_eq protocol (codes "dns")
                    || (text_eq protocol (codes "http")
                        || (text_eq protocol (codes "smtp")
                            || (text_eq protocol (codes "ftp")
                                || (text_eq protocol (codes "responder")
                                    || (text_eq protocol (codes "smb")
                                        || text_eq protocol (codes "ldap"))))))))))

-- The matcher, if there is one, matches, and the filter does not.
unfoldable pub passes : Option (List Regex) → Option (List Regex) → Text → Bool
unfolding matches
passes matcher filter id =
    elim matcher [ none ↦ true | some m ↦ matches m id ]
    && elim filter [ none ↦ true | some f ↦ not (matches f id) ]

abbrev pub is_some_text : Option Text → Bool
is_some_text none = false
is_some_text (some t) = true

-- An output that shows one text if it is wanted, and else nothing.
pub record IsShown (has_file wanted : Bool) (o : Output) : Type 0 where
  pub shows : not (is_empty o.shown) ≡ wanted
  pub writes :
      (text : Text)
      → o.shown ≡ text ∷ []
      → o.written ≡ (if has_file then text ++ codes "\n" else [])
  pub keeps : has_file ≡ false → o.written ≡ []

abbrev nothing : Output
nothing = record { shown = []; written = [] }

module _ (format : ℕ → Text) (cli : CliClientOptions) where
  text_output : Bool → Option Text → Output
  text_output has_file none = nothing
  text_output has_file (some text) = write_output has_file text

  -- What becomes of an interaction that passes.
  body : (Bool → Interaction → Option Text) → Bool → Interaction → Output
  body marshal has_file i =
      if cli.json
      then write_json has_file (marshal cli.asn i)
      else text_output has_file (text_of format cli i)
