-- ===== src/Commands/Certificates/Retries.antt =====
-- The loading of a certificate ends.
use interactsh.Prelude.{
  ℕ, suc, ◌≡◌, ◌≤◌, ◌+◌, inl, inr, Bool, true, false, List, [], ◌∷◌, ◌++◌, Option, none, some,
  arith, Text, codes, Option-cases, Bool-cases, length, length-append,
}
use interactsh.Commands.Certificates.{AcmeLib, CertificateFiles, extract_caddy_paths, retry_cert}

module _ (lib : AcmeLib) where
  -- A call that gives a result, after so many pairs of files at most.
  abbrev Returns :
      Option (Option lib.Certificate × List CertificateFiles) → List CertificateFiles → ℕ → Type 0
  Returns called files rounds =
      (r : Option lib.Certificate × List CertificateFiles) × (called ≡ some r)
      × (length r.1 ≤ length files + rounds)

  -- A round, where the one that may follow it gives a result.
  a_round :
      (fuel rounds : ℕ) (retried retried_wildcard : Bool) (domain : Text)
      (files : List CertificateFiles)
      → ((files_then : List CertificateFiles)
          → retried ≡ false
          → Returns (retry_cert lib fuel true retried_wildcard domain files_then) files_then rounds)
      → ((files_then : List CertificateFiles)
          → retried ≡ true
          → retried_wildcard ≡ false
          → Returns
              (retry_cert lib fuel retried true (codes "wildcard_." ++ domain) files_then)
              files_then
              rounds)
      → Returns (retry_cert lib (suc fuel) retried retried_wildcard domain files) files (suc rounds)
  unfolding retry_cert
  a_round fuel rounds retried retried_wildcard domain files again as_wildcard =
      elim (Option-cases (extract_caddy_paths lib domain)) [
        | inl e ↦ ((none, files), ground (arith, e), ground arith)
        | inr (pair, e) ↦
            let files_then = files ++ (pair ∷ []) in
            let longer : length files_then ≡ length files + 1 = length-append files (pair ∷ []) in
            elim (Option-cases (lib.load files pair)) [
              | inr (cert, f) ↦
                  ((some cert, files_then), ground (arith, e, f), ground (arith, longer))
              | inl f ↦ elim (Bool-cases retried) [
                | inr first ↦
                    let (r, made, short) = again files_then first in
                    (r, ground (arith, e, f, first, made), ground (arith, longer, short))
                | inl second ↦ elim (Bool-cases retried_wildcard) [
                  | inr not_yet ↦
                      let (r, made, short) = as_wildcard files_then second not_yet in
                      (
                        r,
                        ground (arith, e, f, second, not_yet, made),
                        ground (arith, longer, short),
                      )
                  | inl done ↦ (
                    (none, files_then),
                    ground (arith, e, f, second, done),
                    ground (arith, longer),
                  )
                ]
              ]
            ]
      ]

  last_round :
      (fuel : ℕ) (domain : Text) (files : List CertificateFiles)
      → Returns (retry_cert lib (suc fuel) true true domain files) files 1
  last_round fuel domain files =
      a_round fuel 0 true true domain files (λ files_then e. cc) (λ files_then e f. cc)

  wildcard_round :
      (fuel : ℕ) (domain : Text) (files : List CertificateFiles)
      → Returns (retry_cert lib (suc (suc fuel)) true false domain files) files 2
  wildcard_round fuel domain files =
      a_round (suc fuel) 1 true false domain files (λ files_then e. cc)
        (λ files_then e f. last_round fuel (codes "wildcard_." ++ domain) files_then)

  -- However often a pair does not load, three rounds of retry_cert are enough for a result, and no
  -- more than three pairs of files are asked for.
  pub retry_cert-returns :
      (fuel : ℕ) (domain : Text) (files : List CertificateFiles)
      → (r : Option lib.Certificate × List CertificateFiles) × (retry_cert lib
            (suc (suc (suc fuel)))
            false
            false
            domain
            files
          ≡ some r)
        × (length r.1 ≤ length files + 3)
  retry_cert-returns fuel domain files =
      a_round (suc (suc fuel)) 2 false false domain files
        (λ files_then e. wildcard_round fuel domain files_then) (λ files_then e f. cc)
