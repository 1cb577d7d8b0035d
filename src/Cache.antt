-- ===== src/Cache.antt =====
-- Two-level caches (internal/cache/cache.go): an LRU in memory over a namespace of the store. The LRU
-- of hashicorp/golang-lru and the JSON of the values are parameters.
pub mod Examples
pub mod Lru
pub mod Operations
pub mod Runs
pub mod Coherent
use metaso_p2p.Prelude.{Option, none, some, List, [], ◌∷◌, ◌++◌, ℕ}
use metaso_p2p.Prelude.Text.{Str, codes}
use metaso_p2p.Prelude.Assoc.{Assoc, lookup, insert}
use metaso_p2p.Storage.Pebble.{Pebble, Fetch, found, missing, unread}
use metaso_p2p.Storage.Store.{Outcome, done, failed, PebbleStore}
use metaso_p2p.Storage.Store
use metaso_p2p.Cache.Lru.{LruCache, Codec}

pub record NamespaceCache (L : Type 0) : Type 0 where
  pub l1 : L
  pub l2_prefix : Str

pub record CacheProvider (Db L : Type 0) : Type 0 where
  pub store : PebbleStore Db
  pub namespaces : Assoc (NamespaceCache L)

-- What the handle of a namespace reaches: its own L1 and the store of the provider.
pub record Cache (Db L : Type 0) : Type 0 where
  pub ns : NamespaceCache L
  pub store : PebbleStore Db

-- `Namespace`; `fresh` is `lru.NewLRU` with the given size and time to live.
fresh_namespace : {L : Type 0} → L → Str → NamespaceCache L
fresh_namespace l1 name = record { l1 = l1; l2_prefix = codes "cache_" ++ name }

unfoldable pub namespace :
    {Db L : Type 0}
    → (ℕ → ℕ → L)
    → Str
    → ℕ
    → ℕ
    → CacheProvider Db L
    → CacheProvider Db L × Cache Db L
unfolding fresh_namespace
namespace fresh name max_entries ttl p = elim (lookup name p.namespaces) [
  | some ns ↦ (p, record { ns = ns; store = p.store })
  | none ↦
      let ns = fresh_namespace (fresh max_entries ttl) name in
      (record p { namespaces = insert name ns p.namespaces }, record { ns = ns; store = p.store })
]

module _ {Db L T : Type 0} (pebble : Pebble Db) (open_dir : Str → Option Db) (lru : LruCache L)
    (codec : Codec T) where
  unfoldable pub with_l1 : L → Cache Db L → Cache Db L
  with_l1 l1 c = record c { ns = record { l1 = l1; l2_prefix = c.ns.l2_prefix } }

  -- A value that L1 does not give: L2, and its bytes added to L1. A read that finds a key gives
  -- bytes that are not nil.
  unfoldable pub get_l2 : Str → Cache Db L → Cache Db L × Option T
  unfolding with_l1
  get_l2 key c =
      let (store, fetched) = Store.get pebble open_dir c.ns.l2_prefix key c.store in
      let d = record c { store = store } in
      elim fetched [
        | missing ↦ (d, none)
        | unread ↦ (d, none)
        | found raw ↦ elim (codec.unmarshal raw) [
          | none ↦ (d, none)
          | some v ↦ (with_l1 (lru.add key raw d.ns.l1) d, some v)
        ]
      ]

  unfoldable pub decoded : Option Str → Option T
  decoded none = none
  decoded (some raw) = codec.unmarshal raw

  -- `Get`
  unfoldable pub get : Str → Cache Db L → Cache Db L × Option T
  unfolding get_l2 with_l1 decoded
  get key c =
      let (l1, hit) = lru.get key c.ns.l1 in
      let d = with_l1 l1 c in
      let below = get_l2 key d in elim (decoded hit) [ some v ↦ (d, some v) | none ↦ below ]

  -- `Set`; its `ttl` is not used.
  unfoldable pub set : Str → T → ℕ → Cache Db L → Cache Db L × Outcome
  unfolding with_l1
  set key value ttl c = elim (codec.marshal value) [
    | none ↦ (c, failed)
    | some raw ↦
        let d = with_l1 (lru.add key raw c.ns.l1) c in
        let (store, o) = Store.set pebble open_dir c.ns.l2_prefix key raw d.store in
        (record d { store = store }, o)
  ]

  -- `Delete`
  unfoldable pub delete : Str → Cache Db L → Cache Db L × Outcome
  unfolding with_l1
  delete key c =
      let d = with_l1 (lru.remove key c.ns.l1) c in
      let (store, o) = Store.delete pebble open_dir c.ns.l2_prefix key d.store in
      (record d { store = store }, o)

  -- `InvalidateByPrefix`
  unfoldable pub invalidate_by_prefix : Str → Cache Db L → Cache Db L × Outcome
  unfolding with_l1
  invalidate_by_prefix prefix c =
      let d = with_l1 (lru.purge c.ns.l1) c in
      let (store, o) = Store.delete_by_prefix pebble open_dir c.ns.l2_prefix prefix d.store in
      (record d { store = store }, o)

  -- `Warmup`
  unfoldable pub warm : Str → Cache Db L → Cache Db L
  unfolding with_l1
  warm key c =
      let (store, fetched) = Store.get pebble open_dir c.ns.l2_prefix key c.store in
      let d = record c { store = store } in
      elim fetched [ missing ↦ d | unread ↦ d | found raw ↦ with_l1 (lru.add key raw d.ns.l1) d ]

  unfoldable pub warmup : List Str → Cache Db L → Cache Db L
  unfolding warm
  warmup [] c = c
  warmup (key ∷ keys) c = warmup keys (warm key c)
