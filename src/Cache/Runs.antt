-- ===== src/Cache/Runs.antt =====
-- Sequences of operations on a cache (internal/cache/cache.go).
use metaso_p2p.Prelude.{ℕ, ◌≡◌, ◌≢◌, arith, Option, none, List}
use metaso_p2p.Prelude.Text.{Str}
use metaso_p2p.Storage.Pebble.{Pebble, PebbleLaws, unread}
use metaso_p2p.Storage.Store.{done}
use metaso_p2p.Storage.Store
use metaso_p2p.Cache.{Cache, with_l1, decoded, get, set, delete, invalidate_by_prefix, warmup}
use metaso_p2p.Cache.Lru.{LruCache, LruLaws, Codec}
use metaso_p2p.Cache.Coherent.{persisted, Coherent, Keeps, warmup-Keeps}
use metaso_p2p.Cache.Operations.{get-Coherent, get-refines, set-Coherent, delete-refines}

module _ {Db L T : Type 0} (pebble : Pebble Db) (laws : PebbleLaws pebble)
    (open_dir : Str → Option Db) (lru : LruCache L) (lru_laws : LruLaws lru) (codec : Codec T) where
  -- One operation; a set only where it reports no error.
  pub data Step : Cache Db L → Cache Db L → Type 0 where
    got : (k : Str) (c : Cache Db L) → Step c (get pebble open_dir lru codec k c).0
    stored :
        (k : Str) (v : T) (ttl : ℕ) (c : Cache Db L)
        → (set pebble open_dir lru codec k v ttl c).1 ≡ done
        → Step c (set pebble open_dir lru codec k v ttl c).0
    deleted : (k : Str) (c : Cache Db L) → Step c (delete pebble open_dir lru codec k c).0
    invalidated :
        (p : Str) (c : Cache Db L) → Step c (invalidate_by_prefix pebble open_dir lru codec p c).0
    warmed : (ks : List Str) (c : Cache Db L) → Step c (warmup pebble open_dir lru codec ks c)

  pub data Run : Cache Db L → Cache Db L → Type 0 where
    start : (c : Cache Db L) → Run c c
    then : (c d e : Cache Db L) → Run c d → Step d e → Run c e

  invalidate-Coherent :
      (p : Str) (c : Cache Db L)
      → Coherent pebble laws open_dir lru lru_laws codec
          (invalidate_by_prefix pebble open_dir lru codec p c).0
  unfolding invalidate_by_prefix with_l1
  invalidate-Coherent p c j raw h = ground (arith, h, lru_laws.held-purge j c.ns.l1)

  Step-Coherent :
      (c d : Cache Db L)
      → Step c d
      → Coherent pebble laws open_dir lru lru_laws codec c
      → Coherent pebble laws open_dir lru lru_laws codec d
  unfolding Keeps
  Step-Coherent _ _ (Step.got k c) co =
      (get-Coherent pebble laws open_dir lru lru_laws codec k c co).0
  Step-Coherent _ _ (Step.stored k v ttl c e) co =
      set-Coherent pebble laws open_dir lru lru_laws codec k v ttl c co e
  Step-Coherent _ _ (Step.deleted k c) co =
      (delete-refines pebble laws open_dir lru lru_laws codec k c co).0
  Step-Coherent _ _ (Step.invalidated p c) co = invalidate-Coherent p c
  Step-Coherent _ _ (Step.warmed ks c) co =
      (warmup-Keeps pebble laws open_dir lru lru_laws codec ks c).0 co

  Run-Coherent :
      (c d : Cache Db L)
      → Run c d
      → Coherent pebble laws open_dir lru lru_laws codec c
      → Coherent pebble laws open_dir lru lru_laws codec d
  Run-Coherent _ _ (Run.start c) co = co
  Run-Coherent _ _ (Run.then c e d r s) co = Step-Coherent e d s (Run-Coherent c e r co)

  -- After any operations on a cache that started with nothing in L1, each set of them without an
  -- error, a get answers what L2 holds at that time for the key, decoded, where L2 can be read.
  pub run-serves :
      (c d : Cache Db L)
      → ((j : Str) → lru.held j c.ns.l1 ≡ none)
      → Run c d
      → (k : Str) → (Store.get pebble open_dir d.ns.l2_prefix k d.store).1 ≢ unread
      → (get pebble open_dir lru codec k d).1
        ≡ decoded pebble open_dir lru codec (persisted pebble laws open_dir lru lru_laws codec k d)
  run-serves c d empty r k ok =
      (get-refines pebble laws open_dir lru lru_laws codec k d
        (Run-Coherent c d r (λ j raw h. ground (arith, h, empty j))) ok).0
