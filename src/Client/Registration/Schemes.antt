-- ===== src/Client/Registration/Schemes.antt =====
-- The scheme of the requests that a client makes to find a server.
use interactsh.Prelude.{
  ℕ, suc, ◌≡◌, refl, sym, inl, inr, true, false, List, [], ◌∷◌, ◌++◌, Option, some, arith, subst,
  Text, codes, Bool-cases, Option-cases, All, All-append, is_empty, text_eq,
}
use interactsh.Storage.Lines.{split}
use interactsh.Server.Dns.Types.{has_prefix}
use interactsh.Client.Lifecycle.{Reply, ClientError}
use interactsh.Client.Registration.{
  Url, UrlLib, Attempt, Registration, with_scheme, attempt, make_req, register_func, visit,
  parse_server_urls, add_error, is_none,
}
use interactsh.Client.Registration.Attempts.{attempt-attempts}

-- A request over https.
abbrev pub IsSecure : Attempt → Type 0
IsSecure a = a.target.scheme ≡ codes "https"

-- A value that does not ask for http.
abbrev pub IsNotHttp : Text → Type 0
IsNotHttp value = has_prefix value (codes "http://") ≡ false

https-added : (value : Text) → has_prefix (codes "https://" ++ value) (codes "https://") ≡ true
unfolding has_prefix text_eq
https-added value = refl

with_scheme-https :
    (value : Text) → IsNotHttp value → has_prefix (with_scheme value) (codes "https://") ≡ true
unfolding with_scheme
with_scheme-https value plain = elim (Bool-cases (has_prefix value (codes "https://"))) [
  | inl given ↦
      let same : with_scheme value ≡ value = ground (arith, given) in
      subst (λ t. has_prefix t (codes "https://") ≡ true) (sym same) given
  | inr missing ↦
      let same : with_scheme value ≡ codes "https://" ++ value = ground (arith, plain, missing) in
      subst (λ t. has_prefix t (codes "https://") ≡ true) (sym same) (https-added value)
]

module _ (lib : UrlLib) (answers : List Attempt → Text → Reply)
    (keeps_https : (t : Text) (u : Url)
      → has_prefix t (codes "https://") ≡ true
      → lib.parse t ≡ some u
      → u.scheme ≡ codes "https") where
  make_req-IsSecure :
      (fuel : ℕ) (u : Url) (r : Registration) (o : Option ClientError) (r' : Registration)
      → u.scheme ≡ codes "https"
      → All IsSecure r.attempts
      → make_req lib answers (suc fuel) true u r ≡ some (o, r')
      → All IsSecure r'.attempts
  unfolding make_req
  make_req-IsSecure fuel u r o r' https before e =
      let done : All IsSecure (attempt lib answers u r).1.attempts =
        elim (attempt-attempts lib answers u r) [
          | inl dead ↦ subst (λ p. All IsSecure p.1.attempts) (sym dead) before
          | inr (added, same) ↦ subst (All IsSecure) (sym added) (
              All-append IsSecure r.attempts
                (record { target = u; registered = is_none (attempt lib answers u r).0 } ∷ [])
                before (https, tt))
        ] in
      elim (Option-cases (attempt lib answers u r).0) [
        | inl good ↦ subst (All IsSecure) (ground (arith, good, e)) done
        | inr (err, bad) ↦ subst (All IsSecure) (ground (arith, bad, e)) done
      ]

  register_func-IsSecure :
      (value : Text) (r : Registration)
      → IsNotHttp value
      → All IsSecure r.attempts
      → All IsSecure (register_func lib answers true value r).1.attempts
  unfolding register_func make_req
  register_func-IsSecure value r plain before =
      elim (Option-cases (lib.parse (with_scheme value))) [
        | inl e ↦ subst (All IsSecure) (ground (arith, e)) before
        | inr (u, e) ↦
            let https = keeps_https (with_scheme value) u (with_scheme-https value plain) e in
            elim (Option-cases (make_req lib answers 2 true u r)) [
              | inl stuck ↦ subst (All IsSecure) (ground (arith, e, stuck)) before
              | inr ((o, r'), done) ↦
                  subst (All IsSecure) (ground (arith, e, done))
                    (make_req-IsSecure 1 u r o r' https before done)
            ]
      ]

  visit-IsSecure :
      (values : List Text) (r : Registration)
      → All IsNotHttp values
      → All IsSecure r.attempts
      → All IsSecure (visit lib answers true values r).attempts
  unfolding visit
  visit-IsSecure [] r plain before = before
  visit-IsSecure (value ∷ values) r plain before =
      let made = register_func lib answers true value r in
      let left = record made.1 { errors = add_error made.0 made.1.errors } in
      elim (Option-cases r.server_url) [
        | inr (u, e) ↦ subst (All IsSecure) (ground (arith, e)) before
        | inl e ↦
            subst (All IsSecure) (ground (arith, e))
              (visit-IsSecure values left plain.1 (register_func-IsSecure value r plain.0 before))
      ]

  -- With DisableHTTPFallback, no request to register leaves in cleartext: when no value that is
  -- visited starts with "http://", and a URL that starts with "https://" parses to one of that
  -- scheme, all requests of parseServerURLs, to whatever answers, are over https.
  pub parse_server_urls-IsSecure :
      (shuffle : List Text → List Text) (server_url : Text) (r : Registration)
      → All IsNotHttp (shuffle (split 44 server_url))
      → All IsSecure r.attempts
      → All IsSecure (parse_server_urls lib answers shuffle true server_url r).1.attempts
  unfolding parse_server_urls
  parse_server_urls-IsSecure shuffle server_url r plain before =
      let visited = visit lib answers true (shuffle (split 44 server_url)) r in
      let after = visit-IsSecure (shuffle (split 44 server_url)) r plain before in
      elim (Bool-cases (is_empty server_url)) [
        | inl missing ↦ subst (All IsSecure) (ground (arith, missing)) before
        | inr given ↦ elim (Option-cases visited.server_url) [
          | inl e ↦ subst (All IsSecure) (ground (arith, given, e)) after
          | inr (u, e) ↦ subst (All IsSecure) (ground (arith, given, e)) after
        ]
      ]
