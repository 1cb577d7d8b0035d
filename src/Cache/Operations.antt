-- ===== src/Cache/Operations.antt =====
-- The operations of a cache over L1 and L2 (internal/cache/cache.go).
use metaso_p2p.Prelude.{
  ℕ, ◌≡◌, ◌⊎◌, ◌≢◌, refl, ap, sym, ◌∙◌, arith, Option, none, some, [], ◌∷◌, Option-cases, inl, inr,
  if◌then◌else◌,
}
use metaso_p2p.Prelude.Text.{Str, str_eq, str_eq_iff, str_eq_refl}
use metaso_p2p.Storage.Pebble.{Pebble, PebbleLaws, unread, put, sync, written}
use metaso_p2p.Storage.Store.{done, failed, get_db}
use metaso_p2p.Storage.Store
use metaso_p2p.Storage.Contents.{contents, open_and_write-contents, delete-contents}
use metaso_p2p.Cache.{Cache, with_l1, decoded, get_l2, get, set, delete}
use metaso_p2p.Cache.Lru.{LruCache, LruLaws, Codec}
use metaso_p2p.Cache.Coherent.{persisted, Coherent, Unchanged, Keeps, get_l2-answer, get_l2-Keeps}

module _ {Db L T : Type 0} (pebble : Pebble Db) (laws : PebbleLaws pebble)
    (open_dir : Str → Option Db) (lru : LruCache L) (lru_laws : LruLaws lru) (codec : Codec T) where
  -- L1 after a read of it, which may evict.
  unfoldable touched : Str → Cache Db L → Cache Db L
  touched k c = with_l1 pebble open_dir lru codec (lru.get k c.ns.l1).0 c

  touched-Coherent :
      (k : Str) (c : Cache Db L)
      → Coherent pebble laws open_dir lru lru_laws codec c
      → Coherent pebble laws open_dir lru lru_laws codec (touched k c)
  unfolding touched with_l1
  touched-Coherent k c co j raw h = co j raw (lru_laws.held-get k j c.ns.l1 raw h)

  get-hit :
      (k raw : Str) (v : T) (c : Cache Db L)
      → (lru.get k c.ns.l1).1 ≡ some raw
      → codec.unmarshal raw ≡ some v
      → get pebble open_dir lru codec k c ≡ (touched k c, some v)
  unfolding get touched decoded
  get-hit k raw v c h u = rw (get, h, decoded, u) refl

  get-miss :
      (k : Str) (c : Cache Db L)
      → decoded pebble open_dir lru codec (lru.get k c.ns.l1).1 ≡ none
      → get pebble open_dir lru codec k c ≡ get_l2 pebble open_dir lru codec k (touched k c)
  unfolding get touched
  get-miss k c h = rw (get, h) refl

  decoded_lem : (raw : Str) → decoded pebble open_dir lru codec (some raw) ≡ codec.unmarshal raw
  unfolding decoded
  decoded_lem raw = refl

  unread_hit :
      (k : Str) (v : T) (l : L)
      → decoded pebble open_dir lru codec (lru.get k l).1 ≡ some v
      → (raw : Str) × ((lru.get k l).1 ≡ some raw) × (codec.unmarshal raw ≡ some v)
  unfolding decoded
  unread_hit k v l h = elim (Option-cases (lru.get k l).1) [
    | inl e ↦ cc
    | inr (raw, e) ↦ (raw, e, ground (arith, h, e))
  ]

  pub get-Coherent :
      (k : Str) (c : Cache Db L)
      → Coherent pebble laws open_dir lru lru_laws codec c
      → Coherent pebble laws open_dir lru lru_laws codec (get pebble open_dir lru codec k c).0
        × Unchanged pebble laws open_dir lru lru_laws codec c (get pebble open_dir lru codec k c).0
  unfolding touched with_l1 Keeps
  get-Coherent k c co =
      elim (Option-cases (decoded pebble open_dir lru codec (lru.get k c.ns.l1).1)) [
        | inl e ↦
            let kept = get_l2-Keeps pebble laws open_dir lru lru_laws codec k (touched k c) in
            rw (get-miss k c e) (kept.0 (touched-Coherent k c co), kept.1)
        | inr (v, e) ↦
            let (raw, h, u) = unread_hit k v c.ns.l1 e in
            rw (get-hit k raw v c h u) (touched-Coherent k c co, λ j. refl)
      ]

  -- In a cache whose L1 agrees with L2, where L2 can be read, a get answers what L2 holds for the
  -- key, decoded; L1 still agrees with L2 after it, and L2 is as it was.
  pub get-refines :
      (k : Str) (c : Cache Db L)
      → Coherent pebble laws open_dir lru lru_laws codec c
      → (Store.get pebble open_dir c.ns.l2_prefix k c.store).1 ≢ unread
      → ((get pebble open_dir lru codec k c).1
          ≡ decoded pebble open_dir lru codec
              (persisted pebble laws open_dir lru lru_laws codec k c))
        × Coherent pebble laws open_dir lru lru_laws codec (get pebble open_dir lru codec k c).0
        × Unchanged pebble laws open_dir lru lru_laws codec c (get pebble open_dir lru codec k c).0
  unfolding touched with_l1
  get-refines k c co ok =
      let (kept, same) = get-Coherent k c co in
      (answer (Option-cases (decoded pebble open_dir lru codec (lru.get k c.ns.l1).1)), kept, same)
    where
      answer :
          (decoded pebble open_dir lru codec (lru.get k c.ns.l1).1 ≡ none)
            ⊎ ((v : T) × (decoded pebble open_dir lru codec (lru.get k c.ns.l1).1 ≡ some v))
          → (get pebble open_dir lru codec k c).1
            ≡ decoded pebble open_dir lru codec
                (persisted pebble laws open_dir lru lru_laws codec k c)
      answer (inl e) =
          rw (get-miss k c e)
            (get_l2-answer pebble laws open_dir lru lru_laws codec k (touched k c) ok)
      answer (inr (v, e)) =
          let (raw, h, u) = unread_hit k v c.ns.l1 e in
          rw (get-hit k raw v c h u) (
            sym u
            ∙ sym (decoded_lem raw)
            ∙ ap (decoded pebble open_dir lru codec)
                (sym (co k raw (lru_laws.get-held k c.ns.l1 raw h))))

  -- A cache with another L1 and another store.
  unfoldable after : L → Store.PebbleStore Db → Cache Db L → Cache Db L
  after l1 store c = record { ns = record { l1 = l1; l2_prefix = c.ns.l2_prefix }; store = store }

  set_lem :
      (k raw : Str) (v : T) (ttl : ℕ) (c : Cache Db L)
      → codec.marshal v ≡ some raw
      → set pebble open_dir lru codec k v ttl c ≡ (
        after (lru.add k raw c.ns.l1) (Store.set pebble open_dir c.ns.l2_prefix k raw c.store).0 c,
        (Store.set pebble open_dir c.ns.l2_prefix k raw c.store).1,
      )
  unfolding set with_l1 after
  set_lem k raw v ttl c m = rw (set, m) refl

  set-stored :
      (k raw j : Str) (c : Cache Db L)
      → let r = Store.set pebble open_dir c.ns.l2_prefix k raw c.store in
        contents pebble open_dir c.ns.l2_prefix j r.0 ≡ elim r.1 as (λ _. Option Str) [
          | failed ↦ contents pebble open_dir c.ns.l2_prefix j c.store
          | done ↦
              if str_eq k j then some raw else contents pebble open_dir c.ns.l2_prefix j c.store
        ]
  unfolding Store.set written
  set-stored k raw j c = ground (
    arith,
    open_and_write-contents pebble laws open_dir c.ns.l2_prefix sync (put k raw ∷ []) c.store
        c.ns.l2_prefix j,
    str_eq_refl c.ns.l2_prefix,
  )

  set_error :
      (k : Str) (v : T) (ttl : ℕ) (c : Cache Db L)
      → codec.marshal v ≡ none
      → set pebble open_dir lru codec k v ttl c ≡ (c, failed)
  unfolding set
  set_error k v ttl c m = rw (set, m) refl

  pub set-Coherent :
      (k : Str) (v : T) (ttl : ℕ) (c : Cache Db L)
      → Coherent pebble laws open_dir lru lru_laws codec c
      → (set pebble open_dir lru codec k v ttl c).1 ≡ done
      → Coherent pebble laws open_dir lru lru_laws codec (set pebble open_dir lru codec k v ttl c).0
  unfolding after
  set-Coherent k v ttl c co d j w h = elim (Option-cases (codec.marshal v)) [
    | inl m ↦ ground (arith, set_error k v ttl c m, d)
    | inr (raw, m) ↦ ground (
      arith,
      set_lem k raw v ttl c m,
      set-stored k raw j c,
      d,
      h,
      co j w,
      lru_laws.held-add k j raw w c.ns.l1,
      str_eq_iff k j,
    )
  ]

  -- A set that is done keeps L1 in agreement with L2, writes the bytes of the value to L2 under
  -- the key, and leaves the other keys alone.
  pub set-refines :
      (k raw : Str) (v : T) (ttl : ℕ) (c : Cache Db L)
      → Coherent pebble laws open_dir lru lru_laws codec c
      → codec.marshal v ≡ some raw
      → (set pebble open_dir lru codec k v ttl c).1 ≡ done
      → Coherent pebble laws open_dir lru lru_laws codec (set pebble open_dir lru codec k v ttl c).0
        × ((j : Str)
            → persisted pebble laws open_dir lru lru_laws codec j
                (set pebble open_dir lru codec k v ttl c).0
              ≡ (if str_eq k j
                  then some raw
                  else persisted pebble laws open_dir lru lru_laws codec j c))
  unfolding after
  set-refines k raw v ttl c co m d = (
    set-Coherent k v ttl c co d,
    λ j. ground (arith, set_lem k raw v ttl c m, set-stored k raw j c, d),
  )

  -- A set whose write to L2 fails, of a value that its bytes decode to, returns the error and
  -- changes nothing in L2, but L1 has the value: where the LRU still holds it, the next get of
  -- the key answers it.
  pub set-failed :
      (k raw : Str) (v : T) (ttl : ℕ) (c : Cache Db L)
      → codec.marshal v ≡ some raw
      → codec.unmarshal raw ≡ some v
      → (set pebble open_dir lru codec k v ttl c).1 ≡ failed
      → (lru.get k (lru.add k raw c.ns.l1)).1 ≡ some raw
      → Unchanged pebble laws open_dir lru lru_laws codec c
          (set pebble open_dir lru codec k v ttl c).0
        × ((get pebble open_dir lru codec k (set pebble open_dir lru codec k v ttl c).0).1 ≡ some v)
  unfolding after
  set-failed k raw v ttl c m u d g = (
    λ j. ground (arith, set_lem k raw v ttl c m, set-stored k raw j c, d),
    rw (set_lem k raw v ttl c m) (
        ap (λ r. r.1)
          (get-hit k raw v
            (after (lru.add k raw c.ns.l1)
              (Store.set pebble open_dir c.ns.l2_prefix k raw c.store).0 c)
            g u)),
  )

  delete_lem :
      (k : Str) (c : Cache Db L)
      → delete pebble open_dir lru codec k c ≡ (
        after (lru.remove k c.ns.l1) (Store.delete pebble open_dir c.ns.l2_prefix k c.store).0 c,
        (Store.delete pebble open_dir c.ns.l2_prefix k c.store).1,
      )
  unfolding delete with_l1 after
  delete_lem k c = refl

  delete-stored :
      (k j : Str) (c : Cache Db L)
      → let r = Store.delete pebble open_dir c.ns.l2_prefix k c.store in
        contents pebble open_dir c.ns.l2_prefix j r.0 ≡ elim r.1 as (λ _. Option Str) [
          | failed ↦ contents pebble open_dir c.ns.l2_prefix j c.store
          | done ↦ elim (get_db pebble open_dir c.ns.l2_prefix c.store) as (λ _. Option Str) [
            | none ↦ contents pebble open_dir c.ns.l2_prefix j c.store
            | some _ ↦
                if str_eq k j then none else contents pebble open_dir c.ns.l2_prefix j c.store
          ]
        ]
  unfolding written
  delete-stored k j c = elim (Option-cases (get_db pebble open_dir c.ns.l2_prefix c.store)) [
    | inl e ↦ ground (arith, e, (delete-contents pebble laws open_dir c.ns.l2_prefix k c.store).0 e)
    | inr (d, e) ↦ ground (
      arith,
      e,
      (delete-contents pebble laws open_dir c.ns.l2_prefix k c.store).1 (λ h. cc) c.ns.l2_prefix j,
      str_eq_refl c.ns.l2_prefix,
    )
  ]

  -- A delete in a cache whose L1 agrees with L2 keeps them in agreement, whatever its outcome.
  -- It removes the key from L2, and no other, where it reports no error and the namespace is
  -- open; where the namespace is not open it reports no error either, and L2 is as it was.
  pub delete-refines :
      (k : Str) (c : Cache Db L)
      → Coherent pebble laws open_dir lru lru_laws codec c
      → Coherent pebble laws open_dir lru lru_laws codec (delete pebble open_dir lru codec k c).0
        × ((j : Str)
            → persisted pebble laws open_dir lru lru_laws codec j
                (delete pebble open_dir lru codec k c).0
              ≡ elim (delete pebble open_dir lru codec k c).1 [
                | failed ↦ persisted pebble laws open_dir lru lru_laws codec j c
                | done ↦ elim (get_db pebble open_dir c.ns.l2_prefix c.store) [
                  | none ↦ persisted pebble laws open_dir lru lru_laws codec j c
                  | some _ ↦
                      if str_eq k j
                      then none
                      else persisted pebble laws open_dir lru lru_laws codec j c
                ]
              ])
  unfolding after delete with_l1
  delete-refines k c co = (
    λ j w h.
        ground (
          arith,
          delete-stored k j c,
          co j w,
          lru_laws.held-remove k j c.ns.l1 w h,
          str_eq_iff k j,
        ),
    λ j. delete-stored k j c,
  )
