-- ===== src/Cache/Examples.antt =====
-- Runs of a cache over stores in memory (internal/cache/cache.go).
use metaso_p2p.Prelude.{◌≡◌, refl, ◌≢◌, arith, Option, none, some, [], ◌∷◌, false, if◌then◌else◌}
use metaso_p2p.Prelude.Text.{Str, codes, str_eq}
use metaso_p2p.Prelude.Assoc.{Assoc, lookup, insert, without, lookup-insert, lookup-without}
use metaso_p2p.Storage.Pebble.{as_fetch, unread}
use metaso_p2p.Storage.Store.{
  done, failed, PebbleStore, get_db, open_db, open_and_write, write, delete_as,
}
use metaso_p2p.Storage.Store
use metaso_p2p.Storage.Memory.{memory, memory_laws, read_only, read_only_laws, apply}
use metaso_p2p.Cache.{Cache, with_l1, get_l2, decoded, get, set, delete}
use metaso_p2p.Cache.Lru.{LruCache, LruLaws, Codec}
use metaso_p2p.Cache.Coherent.{persisted, Coherent, Unchanged}
use metaso_p2p.Cache.Operations.{set-failed, delete-refines}
use metaso_p2p.Cache.Runs.{Step, Run, run-serves}

-- An LRU that never evicts, and values that are their bytes.
abbrev unbounded : LruCache (Assoc Str)
unbounded = record {
  get = λ k l. (l, lookup k l);
  add = λ k v l. insert k v l;
  remove = λ k l. without k l;
  purge = λ l. [];
  held = λ k l. lookup k l;
}

unbounded_laws : LruLaws unbounded
unfolding lookup
unbounded_laws = record {
  get-held = λ k l v h. h;
  held-get = λ k j l v h. h;
  held-add = λ k j v w l h. ground (arith, lookup-insert k j v l, h);
  held-remove = λ k j l v h. ground (arith, lookup-without k j l, h);
  held-purge = λ j l. refl;
}

abbrev bytes : Codec Str
bytes = record { marshal = λ v. some v; unmarshal = λ raw. some raw }

abbrev on_disk : Str → Option (Assoc Str)
on_disk namespace = some (((1 ∷ []), (7 ∷ [])) ∷ [])

abbrev fresh : Cache (Assoc Str) (Assoc Str)
fresh = record {
  ns = record { l1 = []; l2_prefix = codes "cache_a" };
  store = record { dbs = []; opened = false };
}

abbrev after_set : Cache (Assoc Str) (Assoc Str)
after_set = (set memory on_disk unbounded bytes (2 ∷ []) (5 ∷ []) 60 fresh).0

get_persisted : (get memory on_disk unbounded bytes (1 ∷ []) fresh).1 ≡ some (7 ∷ [])
unfolding get get_l2 decoded Store.get open_db lookup as_fetch str_eq
get_persisted = refl

-- A value that was deleted without an error is served again: its namespace was not open.
get_deleted :
    (get memory on_disk unbounded bytes
      (1 ∷ [])
      (delete memory on_disk unbounded bytes (1 ∷ []) fresh).0).1
    ≡ some (7 ∷ [])
unfolding get get_l2 with_l1 decoded delete Store.get Store.delete delete_as get_db open_db lookup
    without as_fetch str_eq
get_deleted = refl

-- A value whose write failed is served.
get_unwritten :
    (get read_only on_disk unbounded bytes
      (1 ∷ [])
      (set read_only on_disk unbounded bytes (1 ∷ []) (5 ∷ []) 60 fresh).0).1
    ≡ some (5 ∷ [])
unfolding get get_l2 with_l1 decoded set Store.set open_and_write write open_db lookup insert str_eq
get_unwritten = refl

empty : (j : Str) → unbounded.held j fresh.ns.l1 ≡ none
unfolding lookup
empty j = refl

set_done : (set memory on_disk unbounded bytes (2 ∷ []) (5 ∷ []) 60 fresh).1 ≡ done
unfolding set with_l1 Store.set open_and_write write open_db lookup insert str_eq
set_done = refl

one_set : Run memory memory_laws on_disk unbounded unbounded_laws bytes fresh after_set
one_set =
    Run.then fresh fresh after_set (Run.start fresh)
      (Step.stored (2 ∷ []) (5 ∷ []) 60 fresh set_done)

readable : (Store.get memory on_disk after_set.ns.l2_prefix (2 ∷ []) after_set.store).1 ≢ unread
unfolding set with_l1 Store.set Store.get open_and_write write open_db lookup insert str_eq apply
    as_fetch
readable h = cc

run-serves_example :
    (get memory on_disk unbounded bytes (2 ∷ []) after_set).1
    ≡ decoded memory on_disk unbounded bytes
        (persisted memory memory_laws on_disk unbounded unbounded_laws bytes (2 ∷ []) after_set)
run-serves_example =
    run-serves memory memory_laws on_disk unbounded unbounded_laws bytes fresh after_set
      (λ j. empty j) one_set (2 ∷ []) readable

fresh-Coherent : Coherent memory memory_laws on_disk unbounded unbounded_laws bytes fresh
unfolding lookup
fresh-Coherent j raw h = cc

write_fails : (set read_only on_disk unbounded bytes (1 ∷ []) (5 ∷ []) 60 fresh).1 ≡ failed
unfolding set with_l1 Store.set open_and_write write open_db lookup str_eq
write_fails = refl

added : (unbounded.get (1 ∷ []) (unbounded.add (1 ∷ []) (5 ∷ []) fresh.ns.l1)).1 ≡ some (5 ∷ [])
unfolding lookup insert str_eq
added = refl

set-failed_example :
    Unchanged read_only read_only_laws on_disk unbounded unbounded_laws bytes fresh
      (set read_only on_disk unbounded bytes (1 ∷ []) (5 ∷ []) 60 fresh).0
    × ((get read_only on_disk unbounded bytes
          (1 ∷ [])
          (set read_only on_disk unbounded bytes (1 ∷ []) (5 ∷ []) 60 fresh).0).1
        ≡ some (5 ∷ []))
set-failed_example =
    set-failed read_only read_only_laws on_disk unbounded unbounded_laws bytes (1 ∷ []) (5 ∷ [])
      (5 ∷ []) 60 fresh refl refl write_fails added

delete-refines_example :
    Coherent memory memory_laws on_disk unbounded unbounded_laws bytes
      (delete memory on_disk unbounded bytes (1 ∷ []) fresh).0
    × ((j : Str)
        → persisted memory memory_laws on_disk unbounded unbounded_laws bytes j
            (delete memory on_disk unbounded bytes (1 ∷ []) fresh).0
          ≡ elim (delete memory on_disk unbounded bytes (1 ∷ []) fresh).1 [
            | failed ↦ persisted memory memory_laws on_disk unbounded unbounded_laws bytes j fresh
            | done ↦ elim (get_db memory on_disk fresh.ns.l2_prefix fresh.store) [
              | none ↦ persisted memory memory_laws on_disk unbounded unbounded_laws bytes j fresh
              | some _ ↦
                  if str_eq (1 ∷ []) j
                  then none
                  else persisted memory memory_laws on_disk unbounded unbounded_laws bytes j fresh
            ]
          ])
delete-refines_example =
    delete-refines memory memory_laws on_disk unbounded unbounded_laws bytes (1 ∷ []) fresh
      fresh-Coherent
