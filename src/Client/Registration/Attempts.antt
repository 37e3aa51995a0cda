-- ===== src/Client/Registration/Attempts.antt =====
-- The requests that a client makes to find a server.
use interactsh.Prelude.{
  ℕ, suc, ◌≡◌, refl, sym, ap, ◌∙◌, ◌⊎◌, inl, inr, Bool, true, false, List, [], ◌∷◌, ◌++◌, Option,
  none, some, arith, subst, Text, codes, text_eq, Bool-cases, Option-cases, All, All-append, not,
  ◌&&◌,
}
use interactsh.Client.Lifecycle.{
  Reply, ClientError, bad_url, request_failed, perform_registration, Outcome-cases,
}
use interactsh.Client.Registration.{
  Url, UrlLib, Attempt, Registration, attempt, make_req, register_func, with_scheme, is_none,
  is_some,
}

abbrev pub HasFailed : Attempt → Type 0
HasFailed a = a.registered ≡ false

-- Exactly the last request registered the client if it has a server, and else none did.
unfoldable pub IsSettled : List Attempt → Option Url → Type 0
IsSettled attempts none = All HasFailed attempts
IsSettled attempts (some u) =
    (before : List Attempt) × (attempts ≡ before ++ (record { target = u; registered = true } ∷ []))
    × All HasFailed before

-- No server yet, and no request that registered the client.
pub record IsOpen (r : Registration) : Type 0 where
  pub none_yet : r.server_url ≡ none
  pub all_failed_yet : All HasFailed r.attempts

-- An error leaves a client without a server, and else it has the server of its last request.
pub record Settles (error : Option ClientError) (r : Registration) : Type 0 where
  pub settled : IsSettled r.attempts r.server_url
  pub served : is_none error ≡ is_some r.server_url

module _ (lib : UrlLib) (answers : List Attempt → Text → Reply) where
  -- An attempt adds a request with its result, or does nothing after a panic.
  pub attempt-attempts :
      (u : Url) (r : Registration)
      → ((attempt lib answers u r ≡ (some request_failed, r)))
        ⊎ (((attempt lib answers u r).1.attempts
              ≡ r.attempts
                ++ (record { target = u; registered = is_none (attempt lib answers u r).0 } ∷ []))
            × ((attempt lib answers u r).1.server_url ≡ r.server_url))
  unfolding attempt
  attempt-attempts u r =
      let reply = answers r.attempts (lib.text u ++ codes "/register") in
      elim (Bool-cases r.panics) [
        | inl dead ↦ inl (ground (arith, dead))
        | inr alive ↦ elim (Outcome-cases (perform_registration reply r.client)) [
          | inl stop ↦ inr (rw (alive, stop) (refl, refl))
          | inr (p, done) ↦ inr (rw (alive, done) (refl, refl))
        ]
      ]

  after_failure :
      (u : Url) (r : Registration) (e : ClientError)
      → IsOpen r
      → (attempt lib answers u r).0 ≡ some e
      → IsOpen (attempt lib answers u r).1
  after_failure u r e none_so_far failed = elim (attempt-attempts u r) [
    | inl dead ↦ subst IsOpen (sym (ap (λ p. p.1) dead)) none_so_far
    | inr (added, same) ↦ record {
      none_yet = same ∙ none_so_far.none_yet;
      all_failed_yet =
          subst (All HasFailed) (sym added)
            (All-append HasFailed r.attempts _ none_so_far.all_failed_yet (ap is_none failed, tt));
    }
  ]

  after_success :
      (u : Url) (r : Registration)
      → IsOpen r
      → (attempt lib answers u r).0 ≡ none
      → Settles none (record (attempt lib answers u r).1 { server_url = some u })
  unfolding IsSettled
  after_success u r none_so_far done = elim (attempt-attempts u r) [
    | inl dead ↦ absurd (ground (arith, done, ap (λ p. p.0) dead))
    | inr (added, same) ↦ record {
      settled = (
        r.attempts,
        added
            ∙ ap (λ b. r.attempts ++ (record { target = u; registered = b } ∷ []))
                (ap is_none done),
        none_so_far.all_failed_yet,
      );
      served = refl;
    }
  ]

  pub open-Settles : (r : Registration) (e : ClientError) → IsOpen r → Settles (some e) r
  unfolding IsSettled
  open-Settles r e none_so_far = record {
    settled = subst (IsSettled r.attempts) (sym none_so_far.none_yet) none_so_far.all_failed_yet;
    served = sym (ap is_some none_so_far.none_yet);
  }

  -- A round at a URL that is not https, or with no fallback, is the last.
  last_round :
      (fuel : ℕ) (d : Bool) (u : Url) (r : Registration)
      → IsOpen r
      → (not d && text_eq u.scheme (codes "https")) ≡ false
      → (o : Option ClientError) × (r' : Registration) × (make_req lib answers (suc fuel) d u r
          ≡ some (o, r'))
        × Settles o r'
  unfolding make_req
  last_round fuel d u r none_so_far last = elim (Option-cases (attempt lib answers u r).0) [
    | inl done ↦ (
      none,
      record (attempt lib answers u r).1 { server_url = some u },
      ground (arith, done),
      after_success u r none_so_far done,
    )
    | inr (e, failed) ↦ (
      some e,
      (attempt lib answers u r).1,
      ground (arith, failed, last),
      open-Settles (attempt lib answers u r).1 e (after_failure u r e none_so_far failed),
    )
  ]

  -- Two rounds of makeReq are enough: it gives a result, which settles the registration.
  pub make_req-Settles :
      (fuel : ℕ) (d : Bool) (u : Url) (r : Registration)
      → IsOpen r
      → (o : Option ClientError) × (r' : Registration) × (make_req lib answers
            (suc (suc fuel))
            d
            u
            r
          ≡ some (o, r'))
        × Settles o r'
  unfolding make_req text_eq
  make_req-Settles fuel d u r none_so_far =
      elim (Bool-cases (not d && text_eq u.scheme (codes "https"))) [
        | inr last ↦ last_round (suc fuel) d u r none_so_far last
        | inl more ↦ elim (Option-cases (attempt lib answers u r).0) [
          | inl done ↦ (
            none,
            record (attempt lib answers u r).1 { server_url = some u },
            ground (arith, done),
            after_success u r none_so_far done,
          )
          | inr (e, failed) ↦
              let plain : Url = record u { scheme = codes "http" } in
              let (o, r', same, settles) =
                last_round fuel d plain (attempt lib answers u r).1
                  (after_failure u r e none_so_far failed) (ground (arith, Bool-cases d)) in
              (o, r', ground (arith, failed, more, same), settles)
        ]
      ]

  pub register_func-Settles :
      (d : Bool) (value : Text) (r : Registration)
      → IsOpen r
      → Settles (register_func lib answers d value r).0 (register_func lib answers d value r).1
  unfolding register_func
  register_func-Settles d value r none_so_far =
      elim (Option-cases (lib.parse (with_scheme value))) [
        | inl e ↦
            let fails : register_func lib answers d value r ≡ (some bad_url, r) =
              ground (arith, e) in
            subst (λ p. Settles p.0 p.1) (sym fails) (open-Settles r bad_url none_so_far)
        | inr (u, e) ↦
            let (o, r', same, settles) = make_req-Settles 0 d u r none_so_far in
            let made : register_func lib answers d value r ≡ (o, r') = ground (arith, e, same) in
            subst (λ p. Settles p.0 p.1) (sym made) settles
      ]
