-- ===== src/Storage/Contents.antt =====
-- What the namespaces hold, before and after the operations of the store
-- (internal/storage/pebble.go).
use metaso_p2p.Prelude.{
  ◌≡◌, refl, arith, ◌∙◌, ◌≢◌, ◌⊎◌, true, Option, none, some, List, [], ◌∷◌, map, inl, inr,
  if◌then◌else◌, Option-cases,
}
use metaso_p2p.Prelude.Text.{Str, str_eq, str_eq_iff}
use metaso_p2p.Prelude.Assoc.{lookup, insert, lookup-insert}
use metaso_p2p.Storage.Pebble.{
  Entry, Write, put, remove, Durability, sync, Pebble, PebbleLaws, written, unread, as_fetch,
}
use metaso_p2p.Storage.Store.{
  Outcome, done, failed, PebbleStore, open_db, get_db, write, open_and_write, set_batch,
  write_batch, delete, delete_as, get,
}

module _ {Db : Type 0} (open_dir : Str → Option Db) where
  -- The database of a namespace: the open one, or what its directory holds.
  unfoldable pub database : Str → PebbleStore Db → Option Db
  database namespace s = elim (lookup namespace s.dbs) [
    | some db ↦ some db
    | none ↦ open_dir namespace
  ]

module _ {Db : Type 0} (pebble : Pebble Db) (open_dir : Str → Option Db) where
  -- The value of a key in a namespace; none where the namespace cannot be opened.
  unfoldable pub contents : Str → Str → PebbleStore Db → Option Str
  unfolding database
  contents namespace key s = elim (database open_dir namespace s) [
    | none ↦ none
    | some db ↦ lookup key (pebble.entries db)
  ]

  open_db-database :
      (n m : Str) (s : PebbleStore Db)
      → ((open_db pebble open_dir n s).1 ≡ database open_dir n s)
        × (database open_dir m (open_db pebble open_dir n s).0 ≡ database open_dir m s)
  unfolding open_db database
  open_db-database n m s = elim (Option-cases (lookup n s.dbs)) [
    | inr (d, e) ↦ rw (open_db, database, e) (refl, refl)
    | inl e ↦ elim (Option-cases (open_dir n)) [
      | inl o ↦ rw (open_db, database, e, o) (refl, refl)
      | inr (d, o) ↦ rw (open_db, e, o) (ground (arith, e, o), opened_elsewhere d e o)
    ]
  ]
    where
      opened_elsewhere :
          (d : Db)
          → lookup n s.dbs ≡ none
          → open_dir n ≡ some d
          → database open_dir m (record { dbs = insert n d s.dbs; opened = true })
            ≡ database open_dir m s
      opened_elsewhere d e o = ground (arith, lookup-insert n m d s.dbs, str_eq_iff n m, e, o)

  pub write-database :
      (n m : Str) (dur : Durability) (ws : List Write) (d e : Db) (s : PebbleStore Db)
      → pebble.commit dur ws d ≡ some e
      → database open_dir m (write pebble open_dir dur n ws d s).0
        ≡ (if str_eq n m then some e else database open_dir m s)
  unfolding write database
  write-database n m dur ws d e s h = ground (arith, h, lookup-insert n m e s.dbs)

  -- An operation that writes to a namespace: what every key of every namespace holds after it.
  abbrev pub Wrote : Str → List Write → PebbleStore Db → PebbleStore Db × Outcome → Type 0
  Wrote n ws s result =
      (m key : Str)
      → contents m key result.0 ≡ elim result.1 [
        | failed ↦ contents m key s
        | done ↦ if str_eq n m then written ws key (contents m key s) else contents m key s
      ]

module _ {Db : Type 0} (pebble : Pebble Db) (laws : PebbleLaws pebble)
    (open_dir : Str → Option Db) where
  pub write-contents :
      (n : Str) (dur : Durability) (ws : List Write) (d : Db) (s : PebbleStore Db)
      → database open_dir n s ≡ some d
      → Wrote pebble open_dir n ws s (write pebble open_dir dur n ws d s)
  unfolding contents write
  write-contents n dur ws d s h m key = elim (Option-cases (pebble.commit dur ws d)) [
    | inl e ↦ rw (write, e) refl
    | inr (new, e) ↦ ground (
      arith,
      e,
      h,
      write-database pebble open_dir n m dur ws d new s e,
      str_eq_iff n m,
      laws.commit_lem dur ws d new e key,
    )
  ]

  opened-contents :
      (n m key : Str) (s : PebbleStore Db)
      → contents pebble open_dir m key (open_db pebble open_dir n s).0
        ≡ contents pebble open_dir m key s
  unfolding contents
  opened-contents n m key s = rw (contents, (open_db-database pebble open_dir n m s).1) refl

  -- What SetBatch and the writes of one key do: a write that is done gives every key of the
  -- namespace its new value and leaves the other namespaces alone, and one that fails, in
  -- opening the namespace or in the commit, changes no value.
  pub open_and_write-contents :
      (n : Str) (dur : Durability) (ws : List Write) (s : PebbleStore Db)
      → Wrote pebble open_dir n ws s (open_and_write pebble open_dir dur n ws s)
  unfolding open_and_write
  open_and_write-contents n dur ws s m key = elim (Option-cases (database open_dir n s)) [
    | inl e ↦ ground (arith, open_db-database pebble open_dir n n s, e, opened-contents n m key s)
    | inr (d, e) ↦ ground (
      arith,
      open_db-database pebble open_dir n n s,
      e,
      opened-contents n m key s,
      write-contents n dur ws d (open_db pebble open_dir n s).0
          ((open_db-database pebble open_dir n n s).1 ∙ e) m key,
    )
  ]

  -- SetBatch is atomic: done, every key of the namespace has the value of its last entry in the
  -- batch, or its old one, and the other namespaces are as they were; failed, no value changed.
  pub set_batch-contents :
      (n : Str) (entries : List Entry) (s : PebbleStore Db)
      → (m key : Str)
      → contents pebble open_dir m key (set_batch pebble open_dir n entries s).0
        ≡ elim (set_batch pebble open_dir n entries s).1 [
          | failed ↦ contents pebble open_dir m key s
          | done ↦
              if str_eq n m
              then written (map (λ e. put e.0 e.1) entries) key (contents pebble open_dir m key s)
              else contents pebble open_dir m key s
        ]
  unfolding set_batch write_batch written
  set_batch-contents n [] s m key = ground arith
  set_batch-contents n (e ∷ es) s m key =
      open_and_write-contents n sync (map (λ e. put e.0 e.1) (e ∷ es)) s m key

  pub open-database :
      (n : Str) (d : Db) (s : PebbleStore Db)
      → get_db pebble open_dir n s ≡ some d
      → database open_dir n s ≡ some d
  unfolding get_db database
  open-database n d s h = ground (arith, h)

  pub delete-contents :
      (n key : Str) (s : PebbleStore Db)
      → (get_db pebble open_dir n s ≡ none → delete pebble open_dir n key s ≡ (s, done))
        × (get_db pebble open_dir n s ≢ none
            → Wrote pebble open_dir n (remove key ∷ []) s (delete pebble open_dir n key s))
  unfolding delete delete_as
  delete-contents n key s = elim (Option-cases (get_db pebble open_dir n s)) [
    | inl e ↦ (λ _. rw (delete, delete_as, e) refl, λ h. absurd (h e))
    | inr (d, e) ↦ (
      λ h. cc,
      λ _.
          rw (delete, delete_as, e)
            (write-contents n sync (remove key ∷ []) d s (open-database n d s e)),
    )
  ]

  -- A read changes no value, and gives the value of the key unless it fails.
  pub get-unchanged :
      (n key m k : Str) (s : PebbleStore Db)
      → contents pebble open_dir m k (get pebble open_dir n key s).0
        ≡ contents pebble open_dir m k s
  unfolding get
  get-unchanged n key m k s = elim (Option-cases (open_db pebble open_dir n s).1) [
    | inl e ↦ ground (arith, e, opened-contents n m k s)
    | inr (d, e) ↦ ground (arith, e, opened-contents n m k s)
  ]

  pub get-value :
      (n key : Str) (s : PebbleStore Db)
      → ((get pebble open_dir n key s).1 ≡ unread)
        ⊎ ((get pebble open_dir n key s).1 ≡ as_fetch (contents pebble open_dir n key s))
  unfolding get contents
  get-value n key s = elim (Option-cases (database open_dir n s)) [
    | inl e ↦ inl (ground (arith, e, open_db-database pebble open_dir n n s))
    | inr (d, e) ↦ elim (laws.fetch_lem key d) [
      | inl f ↦ inl (ground (arith, e, f, open_db-database pebble open_dir n n s))
      | inr f ↦ inr (ground (arith, e, f, open_db-database pebble open_dir n n s))
    ]
  ]
