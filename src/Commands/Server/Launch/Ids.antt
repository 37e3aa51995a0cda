-- ===== src/Commands/Server/Launch/Ids.antt =====
-- The ids that a launched server sets for itself.
use interactsh.Prelude.{
  ℕ, ◌≡◌, sym, Bool, true, false, List, [], ◌∷◌, some, inl, inr, if◌then◌else◌, Text, text_eq,
  text_eq_refl, All, arith, subst, Bool-cases, Option-cases, Sum-cases, ◌==◌,
}
use interactsh.Storage.Libraries.{Libs}
use interactsh.Storage.Types.{StorageDb, Options, empty_data, use_disk}
use interactsh.Storage.Sessions.{new, set_id, put_new}
use interactsh.Storage.Isolation.{value_at}
use interactsh.Server.Options.{ServerOptions}
use interactsh.Commands.Flags.{CliServerOptions}
use interactsh.Commands.Server.{Host, storage_options}
use interactsh.Commands.Server.Launch.{set_all, set_ids, open_storage}

module _ {L : Libs} where
  -- No pointer of the storage has been written through.
  abbrev IsBlank : StorageDb L → Type 0
  IsBlank s = (p : ℕ) → s.heap p ≡ empty_data

  set_id-IsBlank : (s : StorageDb L) (id : Text) → IsBlank s → IsBlank (set_id s id)
  unfolding set_id put_new
  set_id-IsBlank s id h p = ground (arith, h p)

  -- An id is held, without a secret or data.
  abbrev pub IsHeld : StorageDb L → Text → Type 0
  IsHeld s id = value_at s id ≡ some empty_data

  set_id-IsHeld : (s : StorageDb L) (id : Text) → IsBlank s → IsHeld (set_id s id) id
  unfolding set_id put_new value_at
  set_id-IsHeld s id h = ground (arith, L.cache.find-put s.cache id id s.next, text_eq_refl id)

  set_id-IsHeld_other :
      (s : StorageDb L) (id other : Text) → IsBlank s → IsHeld s other → IsHeld (set_id s id) other
  unfolding set_id put_new value_at
  set_id-IsHeld_other s id other h set = elim (Option-cases (L.cache.find s.cache other)) [
    | inl missing ↦ absurd (ground (arith, missing, set))
    | inr (p, found) ↦ ground (
      arith,
      found,
      set,
      L.cache.find-put s.cache id other s.next,
      h p,
      Bool-cases (text_eq id other),
      Bool-cases (p == s.next),
    )
  ]

  set_all-IsHeld :
      (ids : List Text) (s : StorageDb L)
      → IsBlank s
      → All (IsHeld (set_all ids s)) ids × ((id : Text) → IsHeld s id → IsHeld (set_all ids s) id)
  unfolding set_all
  set_all-IsHeld [] s h = (tt, λ id set. set)
  set_all-IsHeld (id ∷ ids) s h =
      let (rest, kept) = set_all-IsHeld ids (set_id s id) (set_id-IsBlank s id h) in
      (
        (kept id (set_id-IsHeld s id h), rest),
        λ other set. kept other (set_id-IsHeld_other s id other h set),
      )

  -- The ids that a server with these options sets.
  pub record SetsIds (options : ServerOptions) (s : StorageDb L) : Type 0 where
    pub token_set : options.auth ≡ true → IsHeld s options.token
    pub domains_set : options.root_tld ≡ true → All (IsHeld s) options.domains

  set_ids-SetsIds :
      (options : ServerOptions) (s : StorageDb L) → IsBlank s → SetsIds options (set_ids options s)
  unfolding set_ids
  set_ids-SetsIds options s h =
      let with_token = if options.auth then set_id s options.token else s in
      let blank : IsBlank with_token =
        elim options.auth as (λ b. IsBlank (if b then set_id s options.token else s)) [
          | true ↦ set_id-IsBlank s options.token h
          | false ↦ h
        ] in
      let set : options.auth ≡ true → IsHeld with_token options.token = λ e.
        subst (λ b. IsHeld (if b then set_id s options.token else s) options.token) (sym e)
          (set_id-IsHeld s options.token h) in
      let (domains, kept) = set_all-IsHeld options.domains with_token blank in
      elim (Bool-cases options.root_tld) [
        | inl rooted ↦
            let same : set_ids options s ≡ set_all options.domains with_token =
              ground (arith, rooted) in
            subst (SetsIds options) (sym same)
              (record { token_set = λ e. kept options.token (set e); domains_set = λ e. domains })
        | inr plain ↦
            let same : set_ids options s ≡ with_token = ground (arith, plain) in
            subst (SetsIds options) (sym same)
              (record { token_set = set; domains_set = λ e. absurd (ground (arith, e, plain)) })
      ]

  new-IsBlank :
      (options : Options) (cache : L.cache.State) (db : L.db.State) (entropy : ℕ → ℕ)
      (exists : Bool) (s : StorageDb L)
      → new L options cache db entropy exists ≡ some s
      → IsBlank s
  unfolding new
  new-IsBlank options cache db entropy exists s e p =
      ground (arith, e, Bool-cases (use_disk options), Bool-cases exists)

  pub open_storage-SetsIds :
      (host : Host L) (cli : CliServerOptions) (options : ServerOptions) (s : StorageDb L)
      → open_storage host cli options ≡ inr s
      → SetsIds options s
  unfolding open_storage
  open_storage-SetsIds host cli options s e =
      elim (Sum-cases (storage_options cli host.max_shared_interactions)) [
        | inl (fatal, f) ↦ absurd (ground (arith, e, f))
        | inr (chosen, f) ↦
            elim (Option-cases (new L chosen host.cache host.db host.entropy host.folder_exists)) [
              | inl g ↦ absurd (ground (arith, e, f, g))
              | inr (opened, g) ↦
                  let same : set_ids options opened ≡ s = ground (arith, e, f, g) in
                  subst (SetsIds options) same (
                    set_ids-SetsIds options opened (
                      new-IsBlank chosen host.cache host.db host.entropy host.folder_exists opened
                        g))
            ]
      ]
