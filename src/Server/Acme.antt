-- ===== src/Server/Acme.antt =====
-- pkg/server/acme/records_store.go: the records of each zone, in memory. AppendRecords keeps the
-- caller's slice for a challenge; the caller does not change it after, so its contents are copied.
use interactsh.Prelude.{
  ℕ, zero, suc, ◌-◌, Bool, ◌&&◌, List, [], ◌∷◌, ◌++◌, Option, none, some, ltb, ◌==◌, if◌then◌else◌,
  length, take, drop, Text, text_eq, to_lower, Assoc, lookup, insert,
}
use interactsh.Server.Dns.Types.{has_prefix}
use interactsh.Server.Dns.Serve.{dns_challenge_string}

-- libdns.RR
pub record Record : Type 0 where
  pub kind : Text
  pub name : Text
  pub content : Text
  pub ttl : ℕ

-- compareRecords
unfoldable pub compare_records : Record → Record → Bool
compare_records a b =
    text_eq a.kind b.kind && text_eq a.name b.name && text_eq a.content b.content && a.ttl == b.ttl

-- The provider: recordMap.
abbrev pub Provider : Type 0
Provider = Assoc (List Record)

-- r.entries in the loop of deleteRecords: the array that it started with, and how many of its
-- places are in use now.
pub record Slice : Type 0 where
  pub array : List Record
  pub used : ℕ

-- append(r.entries[:i], r.entries[i+1:]...), which moves the entries after `i` within the array,
-- and panics (`none`) if `i` is not below the length.
unfoldable pub remove_at : ℕ → Slice → Option Slice
remove_at i s =
    if ltb i s.used
    then some (record {
      array = take i s.array ++ (drop (suc i) (take s.used s.array) ++ drop (s.used - 1) s.array);
      used = s.used - 1;
    })
    else none

-- The inner loop: what is deleted, and the slice.
unfoldable pub remove_equal : ℕ → Record → List Record → Slice → Option (List Record × Slice)
unfolding remove_at
remove_equal i entry [] s = some ([], s)
remove_equal i entry (r ∷ recs) s =
    if compare_records entry r
    then (elim (remove_at i s) [
      | none ↦ none
      | some t ↦ elim (remove_equal i entry recs t) [
        | none ↦ none
        | some (deleted, last) ↦ some (r ∷ deleted, last)
      ]
    ])
    else remove_equal i entry recs s

-- The outer loop, at the places from `i` on of the array that it started with.
unfoldable pub delete_from : ℕ → ℕ → List Record → Slice → Option (List Record × Slice)
unfolding remove_equal
delete_from zero i recs s = some ([], s)
delete_from (suc places) i recs s = elim (drop i s.array) [
  | [] ↦ some ([], s)
  | entry ∷ after ↦ elim (remove_equal i entry recs s) [
    | none ↦ none
    | some (deleted, t) ↦ elim (delete_from places (suc i) recs t) [
      | none ↦ none
      | some (more, last) ↦ some (deleted ++ more, last)
    ]
  ]
]

-- deleteRecords: what is deleted, and the entries that are left.
unfoldable pub delete_entries : List Record → List Record → Option (List Record × List Record)
unfolding delete_from
delete_entries recs entries =
    elim (delete_from (length entries) 0 recs (record { array = entries; used = length entries })) [
      | none ↦ none
      | some (deleted, s) ↦ some (deleted, take s.used s.array)
    ]

unfoldable pub append_records : Text → List Record → Provider → List Record × Provider
unfolding has_prefix
append_records zone recs p =
    let entries : List Record = elim (lookup zone p) [ none ↦ [] | some old ↦ old ] in
    let new = if has_prefix (to_lower zone) dns_challenge_string then recs else entries ++ recs in
    (new, insert zone new p)

unfoldable pub delete_records : Text → List Record → Provider → Option (List Record × Provider)
unfolding delete_entries
delete_records zone recs p = elim (lookup zone p) [
  | none ↦ some ([], p)
  | some entries ↦ elim (delete_entries recs entries) [
    | none ↦ none
    | some (deleted, left) ↦ some (deleted, insert zone left p)
  ]
]

-- GetRecords, with an error (`none`) for a zone that has no store.
unfoldable pub get_records : Text → Provider → Option (List Record)
get_records zone p = lookup zone p
