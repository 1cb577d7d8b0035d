-- ===== src/Storage/Store.antt =====
-- PebbleStore (internal/storage/pebble.go): its operations over the open databases. An error is
-- `failed`; what an iteration calls is a function on a state of its own.
use metaso_p2p.Prelude.{Bool, true, false, Option, none, some, List, [], ◌∷◌, ◌++◌, map}
use metaso_p2p.Prelude.Text.{Str}
use metaso_p2p.Prelude.Assoc.{Assoc, lookup, insert}
use metaso_p2p.Storage.Keys.{prefix_upper_bound, after_bound}
use metaso_p2p.Storage.Pebble.{
  Entry, Write, put, remove, Durability, sync, no_sync, Fetch, unread, Pebble,
}

pub data Outcome : Type 0 where
  done : Outcome
  failed : Outcome

pub record PebbleStore (Db : Type 0) : Type 0 where
  pub dbs : Assoc Db
  pub opened : Bool

-- An iteration: every entry in turn, until a call fails.
unfoldable pub visit {ℓ} : {A : Type ℓ} → (Entry → A → A × Outcome) → List Entry → A → A × Outcome
visit f [] a = (a, done)
visit f (e ∷ es) a =
    let (b, o) = f e a in let rest = visit f es b in elim o [ done ↦ rest | failed ↦ (b, failed) ]

-- `open_dir` is os.MkdirAll and pebble.Open for the directory of a namespace, none on an error.
module _ {Db : Type 0} (pebble : Pebble Db) (open_dir : Str → Option Db) where
  new_pebble_store : PebbleStore Db
  new_pebble_store = record { dbs = []; opened = false }

  -- `OpenDB`
  unfoldable pub open_db : Str → PebbleStore Db → PebbleStore Db × Option Db
  open_db namespace s = elim (lookup namespace s.dbs) [
    | some db ↦ (s, some db)
    | none ↦ elim (open_dir namespace) [
      | none ↦ (s, none)
      | some db ↦ (record { dbs = insert namespace db s.dbs; opened = true }, some db)
    ]
  ]

  -- `GetDB`
  unfoldable pub get_db : Str → PebbleStore Db → Option Db
  get_db namespace s = lookup namespace s.dbs

  -- A write to an open database, which every holder of it sees.
  unfoldable pub write :
      Durability → Str → List Write → Db → PebbleStore Db → PebbleStore Db × Outcome
  write durability namespace writes db s = elim (pebble.commit durability writes db) [
    | none ↦ (s, failed)
    | some new ↦ (record s { dbs = insert namespace new s.dbs }, done)
  ]

  unfoldable pub open_and_write :
      Durability → Str → List Write → PebbleStore Db → PebbleStore Db × Outcome
  unfolding open_db write
  open_and_write durability namespace writes s =
      let (t, opened) = open_db namespace s in
      elim opened [ none ↦ (t, failed) | some db ↦ write durability namespace writes db t ]

  -- `Set` and `SetNoSync`
  unfoldable pub set : Str → Str → Str → PebbleStore Db → PebbleStore Db × Outcome
  unfolding open_and_write
  set namespace key value s = open_and_write sync namespace (put key value ∷ []) s

  unfoldable pub set_no_sync : Str → Str → Str → PebbleStore Db → PebbleStore Db × Outcome
  unfolding open_and_write
  set_no_sync namespace key value s = open_and_write no_sync namespace (put key value ∷ []) s

  -- `SetBatch`, `SetBatchNoSync` and `DeleteBatch`: nothing is opened for an empty batch.
  unfoldable pub write_batch :
      Durability → Str → List Write → PebbleStore Db → PebbleStore Db × Outcome
  unfolding open_and_write
  write_batch durability namespace [] s = (s, done)
  write_batch durability namespace (w ∷ ws) s = open_and_write durability namespace (w ∷ ws) s

  unfoldable pub set_batch : Str → List Entry → PebbleStore Db → PebbleStore Db × Outcome
  unfolding write_batch
  set_batch namespace entries s = write_batch sync namespace (map (λ e. put e.0 e.1) entries) s

  unfoldable pub set_batch_no_sync : Str → List Entry → PebbleStore Db → PebbleStore Db × Outcome
  unfolding write_batch
  set_batch_no_sync namespace entries s =
      write_batch no_sync namespace (map (λ e. put e.0 e.1) entries) s

  unfoldable pub delete_batch : Str → List Str → PebbleStore Db → PebbleStore Db × Outcome
  unfolding write_batch
  delete_batch namespace keys s = write_batch sync namespace (map remove keys) s

  -- `Get`
  unfoldable pub get : Str → Str → PebbleStore Db → PebbleStore Db × Fetch
  unfolding open_db
  get namespace key s =
      let (t, opened) = open_db namespace s in
      elim opened [ none ↦ (t, unread) | some db ↦ (t, pebble.fetch key db) ]

  -- `Delete` and `DeleteNoSync`: a namespace that is not open is left alone.
  unfoldable pub delete_as : Durability → Str → Str → PebbleStore Db → PebbleStore Db × Outcome
  unfolding get_db write
  delete_as durability namespace key s = elim (get_db namespace s) [
    | none ↦ (s, done)
    | some db ↦ write durability namespace (remove key ∷ []) db s
  ]

  unfoldable pub delete : Str → Str → PebbleStore Db → PebbleStore Db × Outcome
  unfolding delete_as
  delete = delete_as sync

  unfoldable pub delete_no_sync : Str → Str → PebbleStore Db → PebbleStore Db × Outcome
  unfolding delete_as
  delete_no_sync = delete_as no_sync

  -- `DeleteByPrefix`, which removes what its iterator comes to and does not ask its Error.
  unfoldable pub delete_by_prefix : Str → Str → PebbleStore Db → PebbleStore Db × Outcome
  unfolding get_db write
  delete_by_prefix namespace prefix s = elim (get_db namespace s) [
    | none ↦ (s, done)
    | some db ↦ elim (pebble.iterate (some prefix) (prefix_upper_bound prefix) db) [
      | none ↦ (s, failed)
      | some entries ↦ write sync namespace (map (λ e. remove e.0) entries) db s
    ]
  ]

  -- The entries between two bounds that the iterator comes to; its Error is not asked.
  unfoldable pub scan {ℓ} :
      {A : Type ℓ}
      → Option Str
      → Option Str
      → Str
      → (Entry → A → A × Outcome)
      → A
      → PebbleStore Db
      → PebbleStore Db × (A × Outcome)
  unfolding open_db visit
  scan lower upper namespace f a s =
      let (t, opened) = open_db namespace s in
      elim opened [
        | none ↦ (t, (a, failed))
        | some db ↦ elim (pebble.iterate lower upper db) [
          | none ↦ (t, (a, failed))
          | some entries ↦ (t, visit f entries a)
        ]
      ]

  -- `ScanPrefix`, `ScanAfter` and `ScanPrefixAfter`
  unfoldable pub scan_prefix {ℓ} :
      {A : Type ℓ}
      → Str
      → Str
      → (Entry → A → A × Outcome)
      → A
      → PebbleStore Db
      → PebbleStore Db × (A × Outcome)
  unfolding scan
  scan_prefix namespace prefix = scan (some prefix) (prefix_upper_bound prefix) namespace

  unfoldable pub scan_after {ℓ} :
      {A : Type ℓ}
      → Str
      → Str
      → (Entry → A → A × Outcome)
      → A
      → PebbleStore Db
      → PebbleStore Db × (A × Outcome)
  unfolding scan
  scan_after namespace after = scan (after_bound after) none namespace

  unfoldable pub scan_prefix_after {ℓ} :
      {A : Type ℓ}
      → Str
      → Str
      → Str
      → (Entry → A → A × Outcome)
      → A
      → PebbleStore Db
      → PebbleStore Db × (A × Outcome)
  unfolding scan
  scan_prefix_after namespace prefix after =
      scan (some (after ++ 0 ∷ [])) (prefix_upper_bound prefix) namespace
