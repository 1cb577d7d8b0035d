-- ===== src/Storage/Examples.antt =====
-- Runs of the store over a database in memory (internal/storage/pebble.go).
use metaso_p2p.Prelude.{
  ◌≡◌, ◌⊎◌, refl, ◌&&◌, true, All, map, ◌||◌, Option, none, some, List, [], ◌∷◌, ◌++◌, arith, false,
  if◌then◌else◌,
}
use metaso_p2p.Prelude.Text.{Str, codes, str_eq, str_ltb, is_empty}
use metaso_p2p.Prelude.Assoc.{Assoc, lookup}
use metaso_p2p.Storage.Keys.{
  IsBytes, has_prefix, prefix_upper_bound, at_least, below, upper_loop, prefix_upper_bound-range,
}
use metaso_p2p.Storage.Pebble.{Entry, put, keep, written, as_fetch, found}
use metaso_p2p.Storage.Store.{
  Outcome, done, failed, PebbleStore, visit, open_db, get_db, set_batch, delete, delete_as,
  delete_by_prefix, scan, scan_prefix, scan_after, scan_prefix_after, get,
}
use metaso_p2p.Storage.Contents.{contents, set_batch-contents}
use metaso_p2p.Storage.Removal.{holds, delete_by_prefix-contents}
use metaso_p2p.Storage.Scans.{scans-visit}
use metaso_p2p.Storage.Memory.{memory, memory_laws}

-- No directory can be opened, and every directory holds an entry.
abbrev nothing : Str → Option (Assoc Str)
nothing namespace = none

abbrev on_disk : Str → Option (Assoc Str)
on_disk namespace = some (((1 ∷ []), (7 ∷ [])) ∷ [])

abbrev users : Assoc Str
users = ((97 ∷ 255 ∷ []), (1 ∷ [])) ∷ ((97 ∷ 255 ∷ 3 ∷ []), (2 ∷ [])) ∷ ((98 ∷ []), (3 ∷ [])) ∷ []

abbrev opened_store : PebbleStore (Assoc Str)
opened_store = record { dbs = (codes "users", users) ∷ []; opened = true }

upper_of_carry : prefix_upper_bound (97 ∷ 255 ∷ []) ≡ some (98 ∷ [])
unfolding prefix_upper_bound upper_loop
upper_of_carry = refl

upper_of_255 : prefix_upper_bound (255 ∷ 255 ∷ []) ≡ none
unfolding prefix_upper_bound upper_loop
upper_of_255 = refl

bytes2 : IsBytes (97 ∷ 255 ∷ [])
bytes2 = (omega arith, (omega arith, tt))

bytes3 : IsBytes (97 ∷ 255 ∷ 3 ∷ [])
bytes3 = (omega arith, (omega arith, (omega arith, tt)))

users_open : get_db memory nothing (codes "users") opened_store ≡ some users
unfolding get_db lookup str_eq
users_open = refl

opens_users : open_db memory nothing (codes "users") opened_store ≡ (opened_store, some users)
unfolding open_db lookup str_eq
opens_users = refl

prefixed : has_prefix (97 ∷ []) (97 ∷ 255 ∷ []) ≡ true
unfolding has_prefix
prefixed = refl

abbrev collect : Entry → List Str → List Str × Outcome
collect e keys = (keys ++ e.0 ∷ [], done)

scanned :
    (scan_prefix memory nothing (codes "users") (97 ∷ 255 ∷ []) collect [] opened_store).1
    ≡ ((97 ∷ 255 ∷ []) ∷ (97 ∷ 255 ∷ 3 ∷ []) ∷ [], done)
unfolding scan_prefix scan open_db lookup prefix_upper_bound upper_loop visit keep at_least below
    str_ltb str_eq
scanned = refl

-- A delete before the namespace is opened is lost.
lost_delete :
    (get memory on_disk
      (codes "n")
      (1 ∷ [])
      (delete memory on_disk (codes "n") (1 ∷ []) (record { dbs = []; opened = false })).0).1
    ≡ found (7 ∷ [])
unfolding get delete delete_as get_db open_db lookup as_fetch str_eq
lost_delete = refl

prefix_upper_bound-range_example :
    (at_least (some (97 ∷ 255 ∷ [])) (97 ∷ 255 ∷ 3 ∷ [])
      && below (prefix_upper_bound (97 ∷ 255 ∷ [])) (97 ∷ 255 ∷ 3 ∷ []))
    ≡ has_prefix (97 ∷ 255 ∷ []) (97 ∷ 255 ∷ 3 ∷ [])
prefix_upper_bound-range_example =
    prefix_upper_bound-range (97 ∷ 255 ∷ []) (97 ∷ 255 ∷ 3 ∷ []) bytes2 bytes3

users-IsBytes : All (λ e. IsBytes e.0) (memory.entries users)
users-IsBytes = (bytes2, (bytes3, ((omega arith, tt), tt)))

delete_by_prefix-contents_example :
    (es rest : List Entry) × (es ++ rest ≡ keep (λ e. has_prefix (97 ∷ 255 ∷ []) e.0) users)
    × (((delete_by_prefix memory nothing (codes "users") (97 ∷ 255 ∷ []) opened_store).1 ≡ failed)
        ⊎ ((memory.iterate (some (97 ∷ 255 ∷ [])) (prefix_upper_bound (97 ∷ 255 ∷ [])) users
              ≡ some es)
            × ((memory.stopped (some (97 ∷ 255 ∷ [])) (prefix_upper_bound (97 ∷ 255 ∷ [])) users
                  ≡ true)
                ⊎ (rest ≡ []))))
    × (contents memory nothing
          (codes "users")
          (97 ∷ 255 ∷ [])
          (delete_by_prefix memory nothing (codes "users") (97 ∷ 255 ∷ []) opened_store).0
        ≡ elim (delete_by_prefix memory nothing (codes "users") (97 ∷ 255 ∷ []) opened_store).1 [
          | failed ↦ contents memory nothing (codes "users") (97 ∷ 255 ∷ []) opened_store
          | done ↦
              if str_eq (codes "users") (codes "users") && holds (97 ∷ 255 ∷ []) es
              then none
              else contents memory nothing (codes "users") (97 ∷ 255 ∷ []) opened_store
        ])
delete_by_prefix-contents_example =
    delete_by_prefix-contents memory memory_laws nothing (codes "users") (97 ∷ 255 ∷ []) users
      opened_store bytes2 users_open users-IsBytes (codes "users") (97 ∷ 255 ∷ [])

abbrev batch : List Entry
batch = ((98 ∷ []), (9 ∷ [])) ∷ []

set_batch-contents_example :
    contents memory nothing
      (codes "users")
      (98 ∷ [])
      (set_batch memory nothing (codes "users") batch opened_store).0
    ≡ elim (set_batch memory nothing (codes "users") batch opened_store).1 [
      | failed ↦ contents memory nothing (codes "users") (98 ∷ []) opened_store
      | done ↦
          if str_eq (codes "users") (codes "users")
          then written
              (map (λ e. put e.0 e.1) batch)
              (98 ∷ [])
              (contents memory nothing (codes "users") (98 ∷ []) opened_store)
          else contents memory nothing (codes "users") (98 ∷ []) opened_store
    ]
set_batch-contents_example =
    set_batch-contents memory memory_laws nothing (codes "users") batch opened_store (codes "users")
      (98 ∷ [])

scans-visit_example :
    (scan_prefix memory nothing (codes "users") (97 ∷ []) collect [] opened_store
      ≡ (opened_store, visit collect (keep (λ e. has_prefix (97 ∷ []) e.0) users) []))
    × (scan_after memory nothing (codes "users") (97 ∷ 255 ∷ []) collect [] opened_store ≡ (
      opened_store,
      visit collect (keep (λ e. is_empty (97 ∷ 255 ∷ []) || str_ltb (97 ∷ 255 ∷ []) e.0) users) [],
    ))
    × (scan_prefix_after memory nothing
          (codes "users")
          (97 ∷ [])
          (97 ∷ 255 ∷ [])
          collect
          []
          opened_store
        ≡ (
          opened_store,
          visit collect
              (keep (λ e. str_ltb (97 ∷ 255 ∷ []) e.0 && has_prefix (97 ∷ []) e.0) users)
              [],
        ))
scans-visit_example =
    scans-visit memory memory_laws nothing collect (codes "users") [] opened_store opened_store
      users opens_users (λ lower upper h. cc) (λ lower upper. refl) users-IsBytes (97 ∷ [])
      (97 ∷ 255 ∷ []) (omega arith, tt) prefixed
