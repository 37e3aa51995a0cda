-- ===== src/Server/Challenges.antt =====
-- The ACME record store of pkg/server/acme/records_store.go over a sequence of calls.
use interactsh.Prelude.{
  ◌≡◌, ◌∙◌, [], ◌∷◌, none, some, true, false, arith, Text, text_eq_refl, to_lower, lookup, insert,
  lookup-insert,
}
use interactsh.Server.Dns.Types.{has_prefix}
use interactsh.Server.Dns.Serve.{dns_challenge_string}
use interactsh.Server.Acme.{
  Record, Provider, compare_records, remove_at, remove_equal, delete_from, delete_entries,
  append_records, delete_records, get_records,
}

-- compareRecords of a record with itself.
compare_records_refl : (r : Record) → compare_records r r ≡ true
unfolding compare_records
compare_records_refl r =
    ground (arith, text_eq_refl r.kind, text_eq_refl r.name, text_eq_refl r.content)

delete_only : (r : Record) → delete_entries (r ∷ []) (r ∷ []) ≡ some (r ∷ [], [])
unfolding delete_entries delete_from remove_equal remove_at
delete_only r = ground (arith, compare_records_refl r)

shown-lookup :
    (zone : Text) (r : Record) (p : Provider)
    → has_prefix (to_lower zone) dns_challenge_string ≡ true
    → lookup zone (append_records zone (r ∷ []) p).1 ≡ some (r ∷ [])
unfolding append_records
shown-lookup zone r p challenge =
    ground (arith, challenge, lookup-insert zone zone (r ∷ []) p, text_eq_refl zone)

-- A challenge is one record: appending it to the zone of a challenge leaves that record alone
-- there, and deleting it leaves none.
pub challenge-round :
    (zone : Text) (r : Record) (p : Provider)
    → has_prefix (to_lower zone) dns_challenge_string ≡ true
    → let shown = (append_records zone (r ∷ []) p).1 in
      (get_records zone shown ≡ some (r ∷ []))
      × (q : Provider) × (delete_records zone (r ∷ []) shown ≡ some (r ∷ [], q))
      × (get_records zone q ≡ some [])
unfolding delete_records get_records
challenge-round zone r p challenge =
    let shown = (append_records zone (r ∷ []) p).1 in
    (
      shown-lookup zone r p challenge,
      insert zone [] shown,
      ground (arith, shown-lookup zone r p challenge, delete_only r),
      lookup-insert zone zone [] shown ∙ ground (arith, text_eq_refl zone),
    )

-- Deleting the two different records of a zone in one call, in their order, panics: the second is
-- met again at the place after the end of what is left.
pub delete_records-panics :
    (zone : Text) (a b : Record) (p : Provider)
    → lookup zone p ≡ some (a ∷ b ∷ [])
    → compare_records a b ≡ false
    → compare_records b a ≡ false
    → delete_records zone (a ∷ b ∷ []) p ≡ none
unfolding delete_records delete_entries delete_from remove_equal remove_at
delete_records-panics zone a b p held ab ba =
    ground (arith, held, ab, ba, compare_records_refl a, compare_records_refl b)
