-- ===== src/Storage/Removal.antt =====
-- DeleteByPrefix (internal/storage/pebble.go): the keys that it removes.
use metaso_p2p.Prelude.{
  ◌≡◌, ◌⊎◌, refl, ◌∙◌, arith, ◌&&◌, ◌++◌, Bool, true, false, Option, none, some, List, [], ◌∷◌, map,
  All, inl, inr, if◌then◌else◌, Bool-cases,
}
use metaso_p2p.Prelude.Text.{Str, str_eq, str_eq_iff}
use metaso_p2p.Prelude.Assoc.{lookup}
use metaso_p2p.Storage.Keys.{
  IsBytes, at_least, below, has_prefix, prefix_upper_bound, prefix_upper_bound-range,
}
use metaso_p2p.Storage.Pebble.{Entry, remove, sync, Pebble, PebbleLaws, keep, keep-agree, written}
use metaso_p2p.Storage.Store.{done, failed, PebbleStore, get_db, write, delete_by_prefix}
use metaso_p2p.Storage.Contents.{contents, write-contents, open-database}

-- An entry of the list has the key.
unfoldable pub holds : Str → List Entry → Bool
holds key es = elim (lookup key es) [ none ↦ false | some _ ↦ true ]

gone : (o : Option Str) → none ≡ elim o as (λ _. Option Str) [ none ↦ none | some _ ↦ none ]
gone none = refl
gone (some _) = refl

-- Removing the keys of a list.
written-removed :
    (k : Str) (es : List Entry) (old : Option Str)
    → written (map (λ e. remove e.0) es) k old ≡ elim (lookup k es) [ none ↦ old | some _ ↦ none ]
unfolding written lookup
written-removed k [] old = refl
written-removed k ((j, v) ∷ es) old = elim (Bool-cases (str_eq j k)) [
  | inl e ↦ ground (arith, e, written-removed k es none)
  | inr e ↦ ground (arith, e, written-removed k es old)
]

module _ {Db : Type 0} (pebble : Pebble Db) (laws : PebbleLaws pebble)
    (open_dir : Str → Option Db) where
  prefix_writes :
      (n p : Str) (es : List Entry) (d : Db) (s : PebbleStore Db)
      → get_db pebble open_dir n s ≡ some d
      → pebble.iterate (some p) (prefix_upper_bound p) d ≡ some es
      → delete_by_prefix pebble open_dir n p s
        ≡ write pebble open_dir sync n (map (λ e. remove e.0) es) d s
  unfolding delete_by_prefix
  prefix_writes n p es d s e i = rw (delete_by_prefix, e, i) refl

  prefix_failed :
      (n p : Str) (d : Db) (s : PebbleStore Db)
      → get_db pebble open_dir n s ≡ some d
      → pebble.iterate (some p) (prefix_upper_bound p) d ≡ none
      → delete_by_prefix pebble open_dir n p s ≡ (s, failed)
  unfolding delete_by_prefix
  prefix_failed n p d s e i = rw (delete_by_prefix, e, i) refl

  remove-entries :
      (n m key : Str) (es : List Entry) (d : Db) (s : PebbleStore Db)
      → get_db pebble open_dir n s ≡ some d
      → contents pebble open_dir m key
          (write pebble open_dir sync n (map (λ e. remove e.0) es) d s).0
        ≡ elim (write pebble open_dir sync n (map (λ e. remove e.0) es) d s).1 [
          | failed ↦ contents pebble open_dir m key s
          | done ↦ if str_eq n m && holds key es then none else contents pebble open_dir m key s
        ]
  unfolding contents holds
  remove-entries n m key es d s o = ground (
    arith,
    write-contents pebble laws open_dir n sync (map (λ e. remove e.0) es) d s
        (open-database pebble laws open_dir n d s o) m key,
    written-removed key es (lookup key (pebble.entries d)),
    open-database pebble laws open_dir n d s o,
    str_eq_iff n m,
  )

  -- DeleteByPrefix of a prefix of bytes, in an open namespace whose keys are bytes, that is done
  -- removes the keys that its iterator came to, and keeps every other key and every other
  -- namespace; on an error it changes nothing. The iterator came to a beginning of the entries that
  -- start with the prefix, and to all of them unless it stopped at an error, of which
  -- DeleteByPrefix does not know.
  pub delete_by_prefix-contents :
      (n p : Str) (d : Db) (s : PebbleStore Db)
      → IsBytes p
      → get_db pebble open_dir n s ≡ some d
      → All (λ e. IsBytes e.0) (pebble.entries d)
      → (m key : Str)
      → (es rest : List Entry) × (es ++ rest ≡ keep (λ e. has_prefix p e.0) (pebble.entries d))
        × (((delete_by_prefix pebble open_dir n p s).1 ≡ failed)
            ⊎ ((pebble.iterate (some p) (prefix_upper_bound p) d ≡ some es)
                × ((pebble.stopped (some p) (prefix_upper_bound p) d ≡ true) ⊎ (rest ≡ []))))
        × (contents pebble open_dir m key (delete_by_prefix pebble open_dir n p s).0
            ≡ elim (delete_by_prefix pebble open_dir n p s).1 [
              | failed ↦ contents pebble open_dir m key s
              | done ↦ if str_eq n m && holds key es then none else contents pebble open_dir m key s
            ])
  delete_by_prefix-contents n p d s hp o hd m key =
      let range =
        keep-agree (λ e. at_least (some p) e.0 && below (prefix_upper_bound p) e.0)
          (λ e. has_prefix p e.0) (λ e he. prefix_upper_bound-range p e.0 hp he) (pebble.entries d)
          hd in
      elim (laws.iterate_lem (some p) (prefix_upper_bound p) d) [
        | inl i ↦ (
          [],
          keep (λ e. has_prefix p e.0) (pebble.entries d),
          refl,
          inl (rw (prefix_failed n p d s o i) refl),
          rw (prefix_failed n p d s o i) refl,
        )
        | inr (es, rest, i, is, whole) ↦ (
          es,
          rest,
          is ∙ range,
          inr (i, whole),
          rw (prefix_writes n p es d s o i) (remove-entries n m key es d s o),
        )
      ]
