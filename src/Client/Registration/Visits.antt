-- ===== src/Client/Registration/Visits.antt =====
-- The visits of the servers, and the one that a client finds.
use interactsh.Prelude.{
  ◌≡◌, refl, sym, ap, ◌∙◌, inl, inr, Bool, true, false, List, [], ◌∷◌, ◌++◌, none, some, arith,
  subst, Text, Bool-cases, Option-cases, not, ◌||◌, is_empty,
}
use interactsh.Storage.Lines.{split}
use interactsh.Client.Lifecycle.{Reply, ClientError, bad_url}
use interactsh.Client.Registration.{
  Url, UrlLib, Attempt, Registration, register_func, visit, parse_server_urls, is_none, is_some,
  add_error, all_failed, invalid_server_url,
}
use interactsh.Client.Registration.Attempts.{
  IsSettled, IsOpen, Settles, open-Settles, register_func-Settles,
}

module _ (lib : UrlLib) (answers : List Attempt → Text → Reply) where
  after_error :
      (e : ClientError) (errors : List ClientError) (r : Registration)
      → Settles (some e) r
      → IsOpen (record r { errors = errors })
  unfolding IsSettled
  after_error e errors r settles =
      let none_yet : r.server_url ≡ none = elim (Option-cases r.server_url) [
        | inl none_there ↦ none_there
        | inr (u, there) ↦ absurd (ground (arith, settles.served, there))
      ] in
      record {
        none_yet = none_yet;
        all_failed_yet = subst (IsSettled r.attempts) none_yet settles.settled;
      }

  -- What the visits of the servers come to.
  pub record IsVisited (some_error : Bool) (r : Registration) : Type 0 where
    pub settles : IsSettled r.attempts r.server_url
    pub explains : is_some r.server_url ≡ false → some_error ≡ true → is_empty r.errors ≡ false

  open-IsVisited : (r : Registration) → IsOpen r → IsVisited (not (is_empty r.errors)) r
  open-IsVisited r h = record {
    settles = (open-Settles lib answers r bad_url h).settled;
    explains = λ none_there found. ground (arith, found, Bool-cases (is_empty r.errors));
  }

  visit-served :
      (d : Bool) (values : List Text) (r : Registration) (u : Url)
      → r.server_url ≡ some u
      → visit lib answers d values r ≡ r
  unfolding visit
  visit-served d [] r u e = refl
  visit-served d (value ∷ values) r u e = ground (arith, e)

  add_error-nonempty :
      (e : ClientError) (errors : List ClientError) → not (is_empty (errors ++ (e ∷ []))) ≡ true
  add_error-nonempty e [] = refl
  add_error-nonempty e (x ∷ errors) = refl

  visit-IsVisited :
      (d : Bool) (values : List Text) (r : Registration)
      → IsOpen r
      → IsVisited (not (is_empty values) || not (is_empty r.errors)) (visit lib answers d values r)
  unfolding visit
  visit-IsVisited d [] r h = open-IsVisited r h
  visit-IsVisited d (value ∷ values) r h =
      let made = register_func lib answers d value r in
      let made_settles = register_func-Settles lib answers d value r h in
      let left = record made.1 { errors = add_error made.0 made.1.errors } in
      let step : visit lib answers d (value ∷ values) r ≡ visit lib answers d values left =
        ground (arith, h.none_yet) in
      subst (IsVisited true) (sym step) (elim (Option-cases made.0) [
        | inl done ↦
            let there : is_some made.1.server_url ≡ true =
              ground (arith, made_settles.served, done) in
            elim (Option-cases made.1.server_url) [
              | inl none_there ↦ absurd (ground (arith, there, none_there))
              | inr (u, some_there) ↦
                  let same : left ≡ made.1 =
                    ap (λ o. record made.1 { errors = add_error o made.1.errors }) done in
                  subst (IsVisited true) (sym (visit-served d values left u some_there ∙ same))
                    (record {
                      settles = made_settles.settled;
                      explains = λ none_there found. absurd (ground (arith, there, none_there));
                    })
            ]
        | inr (e, failed) ↦
            let after = record made.1 { errors = made.1.errors ++ (e ∷ []) } in
            let same : left ≡ after =
              ap (λ o. record made.1 { errors = add_error o made.1.errors }) failed in
            let some_error : (not (is_empty values) || not (is_empty after.errors)) ≡ true =
              ground (arith, add_error-nonempty e made.1.errors, Bool-cases (is_empty values)) in
            subst (λ t. IsVisited true (visit lib answers d values t)) (sym same)
              (subst (λ b. IsVisited b (visit lib answers d values after)) some_error
                (visit-IsVisited d values after (
                  after_error e after.errors made.1
                    (subst (λ o. Settles o made.1) failed made_settles))))
      ])

  parsed_from_visits :
      (shuffle : List Text → List Text) (d : Bool) (server_url : Text) (r : Registration)
      → is_empty server_url ≡ false
      → IsVisited true (visit lib answers d (shuffle (split 44 server_url)) r)
      → let made = parse_server_urls lib answers shuffle d server_url r in
        IsSettled made.1.attempts made.1.server_url × (is_none made.0 ≡ is_some made.1.server_url)
  unfolding parse_server_urls
  parsed_from_visits shuffle d server_url r given v =
      let visited = visit lib answers d (shuffle (split 44 server_url)) r in
      elim (Option-cases visited.server_url) [
        | inl none_there ↦
            let made : parse_server_urls lib answers shuffle d server_url r
                ≡ (some (all_failed visited.errors), visited) =
              ground (arith, given, none_there, v.explains (ap is_some none_there) refl) in
            subst
              (λ m. IsSettled m.1.attempts m.1.server_url × (is_none m.0 ≡ is_some m.1.server_url))
              (sym made) (v.settles, sym (ap is_some none_there))
        | inr (u, there) ↦
            let made : parse_server_urls lib answers shuffle d server_url r ≡ (none, visited) =
              ground (arith, given, there) in
            subst
              (λ m. IsSettled m.1.attempts m.1.server_url × (is_none m.0 ≡ is_some m.1.server_url))
              (sym made) (v.settles, sym (ap is_some there))
      ]

  -- A client that looks for its first server finds at most one: when parseServerURLs returns no error,
  -- the last request registered it with the server that it then has, and none before it did; when it
  -- returns an error or panics, the client has no server and no request registered it. The shuffle
  -- leaves something of the values.
  pub parse_server_urls-IsSettled :
      (shuffle : List Text → List Text) (d : Bool) (server_url : Text) (r : Registration)
      → IsOpen r
      → is_empty (shuffle (split 44 server_url)) ≡ false
      → let made = parse_server_urls lib answers shuffle d server_url r in
        IsSettled made.1.attempts made.1.server_url × (is_none made.0 ≡ is_some made.1.server_url)
  unfolding parse_server_urls
  parse_server_urls-IsSettled shuffle d server_url r h some_value =
      elim (Bool-cases (is_empty server_url)) [
        | inl missing ↦
            let made : parse_server_urls lib answers shuffle d server_url r
                ≡ (some invalid_server_url, r) =
              ground (arith, missing) in
            let settles = open-Settles lib answers r bad_url h in
            subst
              (λ m. IsSettled m.1.attempts m.1.server_url × (is_none m.0 ≡ is_some m.1.server_url))
              (sym made) (settles.settled, settles.served)
        | inr given ↦ parsed_from_visits shuffle d server_url r given (
            subst (λ b. IsVisited b (visit lib answers d (shuffle (split 44 server_url)) r))
              (ground (arith, some_value)) (visit-IsVisited d (shuffle (split 44 server_url)) r h))
      ]
