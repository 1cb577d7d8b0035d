-- ===== src/Cache/Coherent.antt =====
-- A cache shows what the store holds (internal/cache/cache.go).
use metaso_p2p.Prelude.{
  ◌≡◌, ◌≢◌, refl, ap, ◌∙◌, arith, Option, none, some, List, [], ◌∷◌, Option-cases, inl, inr,
}
use metaso_p2p.Prelude.Text.{Str, str_eq_iff}
use metaso_p2p.Storage.Pebble.{Pebble, PebbleLaws, found, missing, unread, as_fetch}
use metaso_p2p.Storage.Store.{Outcome, done, failed, PebbleStore}
use metaso_p2p.Storage.Contents.{contents, get-unchanged, get-value}
use metaso_p2p.Storage.Store
use metaso_p2p.Cache.{Cache, with_l1, get_l2, decoded, warm, warmup}
use metaso_p2p.Cache.Lru.{LruCache, LruLaws, Codec}

module _ {Db L T : Type 0} (pebble : Pebble Db) (laws : PebbleLaws pebble)
    (open_dir : Str → Option Db) (lru : LruCache L) (lru_laws : LruLaws lru) (codec : Codec T) where
  -- What a client can rely on: the value of a key in L2.
  abbrev pub persisted : Str → Cache Db L → Option Str
  persisted key c = contents pebble open_dir c.ns.l2_prefix key c.store

  -- Whatever L1 may still give for a key is what L2 has for it.
  abbrev pub Coherent : Cache Db L → Type 0
  Coherent c = (key raw : Str) → lru.held key c.ns.l1 ≡ some raw → persisted key c ≡ some raw

  -- L2 is as it was.
  abbrev pub Unchanged : Cache Db L → Cache Db L → Type 0
  Unchanged c d = (key : Str) → persisted key d ≡ persisted key c

  -- A read of L2 on the way, and a value of L2 added to L1.
  unfoldable reread : Str → Cache Db L → Cache Db L
  reread k c = record c { store = (Store.get pebble open_dir c.ns.l2_prefix k c.store).0 }

  refill : Str → Str → Cache Db L → Cache Db L
  refill k raw c = with_l1 pebble open_dir lru codec (lru.add k raw c.ns.l1) c

  reread-Unchanged : (k : Str) (c : Cache Db L) → Unchanged c (reread k c)
  unfolding reread
  reread-Unchanged k c j =
      get-unchanged pebble laws open_dir c.ns.l2_prefix k c.ns.l2_prefix j c.store

  reread-Coherent : (k : Str) (c : Cache Db L) → Coherent c → Coherent (reread k c)
  unfolding reread
  reread-Coherent k c co j raw h = reread-Unchanged k c j ∙ co j raw h

  refill-Coherent :
      (k raw : Str) (c : Cache Db L)
      → persisted k c ≡ some raw
      → Coherent c
      → Coherent (refill k raw c)
  unfolding refill with_l1
  refill-Coherent k raw c p co j w h =
      ground (arith, lru_laws.held-add k j raw w c.ns.l1 h, co j w, p, str_eq_iff k j)

  -- What a read of L2 gives.
  data L2Read (k : Str) (c : Cache Db L) : Type 0 where
    read_error : (Store.get pebble open_dir c.ns.l2_prefix k c.store).1 ≡ unread → L2Read k c
    absent :
        (Store.get pebble open_dir c.ns.l2_prefix k c.store).1 ≡ missing
        → persisted k c ≡ none
        → L2Read k c
    present :
        (raw : Str)
        → (Store.get pebble open_dir c.ns.l2_prefix k c.store).1 ≡ found raw
        → persisted k c ≡ some raw
        → L2Read k c

  l2_read : (k : Str) (c : Cache Db L) → L2Read k c
  unfolding as_fetch
  l2_read k c = elim (get-value pebble laws open_dir c.ns.l2_prefix k c.store) [
    | inl e ↦ L2Read.read_error e
    | inr e ↦ elim (Option-cases (persisted k c)) [
      | inl p ↦ L2Read.absent (e ∙ ap as_fetch p) p
      | inr (raw, p) ↦ L2Read.present raw (e ∙ ap as_fetch p) p
    ]
  ]

  warm-refill :
      (k raw : Str) (c : Cache Db L)
      → (Store.get pebble open_dir c.ns.l2_prefix k c.store).1 ≡ found raw
      → warm pebble open_dir lru codec k c ≡ refill k raw (reread k c)
  unfolding reread refill warm
  warm-refill k raw c e = rw (warm, e) refl

  unfoldable pub Keeps : Cache Db L → Cache Db L → Type 0
  Keeps c d = (Coherent c → Coherent d) × Unchanged c d

  reread-Keeps : (k : Str) (c : Cache Db L) → Keeps c (reread k c)
  unfolding Keeps
  reread-Keeps k c = (reread-Coherent k c, reread-Unchanged k c)

  refill-Keeps :
      (k raw : Str) (c : Cache Db L)
      → persisted k c ≡ some raw
      → Keeps c (refill k raw (reread k c))
  unfolding Keeps refill with_l1 reread
  refill-Keeps k raw c p = (
    λ co. refill-Coherent k raw (reread k c) (reread-Unchanged k c k ∙ p) (reread-Coherent k c co),
    λ key. reread-Unchanged k c key,
  )

  get_l2-refill :
      (k raw : Str) (v : T) (c : Cache Db L)
      → (Store.get pebble open_dir c.ns.l2_prefix k c.store).1 ≡ found raw
      → codec.unmarshal raw ≡ some v
      → get_l2 pebble open_dir lru codec k c ≡ (refill k raw (reread k c), some v)
  unfolding reread refill get_l2
  get_l2-refill k raw v c e u = rw (get_l2, e, u) refl

  pub warm-Keeps : (k : Str) (c : Cache Db L) → Keeps c (warm pebble open_dir lru codec k c)
  unfolding warm Keeps reread
  warm-Keeps k c = elim (l2_read k c) [
    | L2Read.read_error e ↦ rw (warm, e) (reread-Keeps k c)
    | L2Read.absent e p ↦ rw (warm, e) (reread-Keeps k c)
    | L2Read.present raw e p ↦ rw (warm-refill k raw c e) (refill-Keeps k raw c p)
  ]

  pub warmup-Keeps :
      (ks : List Str) (c : Cache Db L) → Keeps c (warmup pebble open_dir lru codec ks c)
  unfolding warmup Keeps
  warmup-Keeps [] c = (λ h. h, λ k. refl)
  warmup-Keeps (k ∷ ks) c =
      let d = warm pebble open_dir lru codec k c in
      (
        λ h. (warmup-Keeps ks d).0 ((warm-Keeps k c).0 h),
        λ j. (warmup-Keeps ks d).1 j ∙ (warm-Keeps k c).1 j,
      )

  -- The answer of a get that has to read L2.
  pub get_l2-answer :
      (k : Str) (c : Cache Db L)
      → (Store.get pebble open_dir c.ns.l2_prefix k c.store).1 ≢ unread
      → (get_l2 pebble open_dir lru codec k c).1 ≡ decoded pebble open_dir lru codec (persisted k c)
  unfolding get_l2 decoded
  get_l2-answer k c ok = elim (l2_read k c) [
    | L2Read.read_error e ↦ absurd (ok e)
    | L2Read.absent e p ↦ ground (arith, e, p)
    | L2Read.present raw e p ↦ ground (arith, e, p, Option-cases (codec.unmarshal raw))
  ]

  pub get_l2-Keeps : (k : Str) (c : Cache Db L) → Keeps c (get_l2 pebble open_dir lru codec k c).0
  unfolding get_l2 Keeps reread
  get_l2-Keeps k c = elim (l2_read k c) [
    | L2Read.read_error e ↦ rw (get_l2, e) (reread-Keeps k c)
    | L2Read.absent e p ↦ rw (get_l2, e) (reread-Keeps k c)
    | L2Read.present raw e p ↦ elim (Option-cases (codec.unmarshal raw)) [
      | inl u ↦ rw (get_l2, e, u) (reread-Keeps k c)
      | inr (v, u) ↦ rw (get_l2-refill k raw v c e u) (refill-Keeps k raw c p)
    ]
  ]
