-- ===== src/Indexer/Dedupe.antt =====
-- A transaction that was seen is not fetched again while its time to live lasts
-- (internal/indexer/engine.go).
use mathlib.Core.List.{Memᴰ}
use metaso_p2p.Prelude.{
  ◌≡◌, ◌≢◌, refl, sym, subst, arith, Bool, true, false, some, List, [], ◌∷◌, All, All-map,
  Bool-cases, inl, inr,
}
use metaso_p2p.Prelude.Int.{ℤ, ◌-ℤ◌, ltb_ℤ, leb_ℤ}
use metaso_p2p.Prelude.Text.{Str, str_eq_refl, is_empty}
use metaso_p2p.Prelude.Assoc.{Assoc, lookup, insert, lookup-insert}
use metaso_p2p.Indexer.Mempool.{
  Mempool, past_ttl, seen_key, drop_expired, seen_recently, is_added, pending_of, filter_unseen,
  mark_all, mark_seen,
}

in_time : (ttl d : ℤ) → leb_ℤ d ttl ≡ true → ltb_ℤ ttl d ≡ false
in_time ttl d h = ground (arith, h)

not_past : (ttl now at : ℤ) → leb_ℤ (now -ℤ at) ttl ≡ true → past_ttl ttl now at ≡ false
unfolding past_ttl
not_past ttl now at h = rw (in_time ttl (now -ℤ at) h) (ground arith)

lookup-drop_expired :
    (ttl now at : ℤ) (k : Str) (m : Assoc ℤ)
    → lookup k m ≡ some at
    → past_ttl ttl now at ≡ false
    → lookup k (drop_expired ttl now m) ≡ some at
unfolding lookup drop_expired
lookup-drop_expired ttl now at k [] h f = cc
lookup-drop_expired ttl now at k ((j, t) ∷ m) h f = elim (Bool-cases (past_ttl ttl now t)) [
  | inl p ↦ ground (arith, p, h, f, lookup-drop_expired ttl now at k m)
  | inr p ↦ ground (arith, p, h, f, lookup-drop_expired ttl now at k m)
]

still_seen :
    (ttl now at : ℤ) (k : Str) (m : Assoc ℤ)
    → lookup k m ≡ some at
    → leb_ℤ (now -ℤ at) ttl ≡ true
    → seen_recently ttl now k m ≡ false
    → ⊥
unfolding seen_recently
still_seen ttl now at k m h f u = ground (arith, h, f, u)

module _ (trim : Str → Str) (chain_name : Str) where
  mark_all_keeps :
      (ids : List Str) (t : ℤ) (k : Str) (m : Assoc ℤ)
      → lookup k m ≡ some t
      → lookup k (mark_all trim chain_name ids t m) ≡ some t
  unfolding mark_all
  mark_all_keeps [] t k m h = h
  mark_all_keeps (i ∷ ids) t k m h = elim (Bool-cases (is_empty (trim i))) [
    | inl e ↦ rw e (mark_all_keeps ids t k m h)
    | inr e ↦ rw e (
        mark_all_keeps ids t k (insert (seen_key chain_name (trim i)) t m)
          (ground (arith, lookup-insert (seen_key chain_name (trim i)) k t m, h)))
  ]

  marked_first :
      (j : Str) (ids : List Str) (t : ℤ) (m : Assoc ℤ)
      → is_empty (trim j) ≡ false
      → lookup (seen_key chain_name (trim j)) (mark_all trim chain_name (j ∷ ids) t m) ≡ some t
  unfolding mark_all
  marked_first j ids t m e = rw e (
      mark_all_keeps ids t (seen_key chain_name (trim j))
        (insert (seen_key chain_name (trim j)) t m)
        (rw
          (
            lookup-insert (seen_key chain_name (trim j)) (seen_key chain_name (trim j)) t m,
            str_eq_refl (seen_key chain_name (trim j)),
          )
          refl))

  lookup-mark_all :
      (ids : List Str) (t : ℤ) (i : Str) (m : Assoc ℤ)
      → Memᴰ i ids
      → is_empty (trim i) ≡ false
      → lookup (seen_key chain_name (trim i)) (mark_all trim chain_name ids t m) ≡ some t
  unfolding mark_all
  lookup-mark_all [] t i m mem e = elim mem [ ]
  lookup-mark_all (j ∷ ids) t i m (Memᴰ.head q) e =
      subst
        (λ x.
          is_empty (trim x) ≡ false
          → lookup (seen_key chain_name (trim x)) (mark_all trim chain_name (j ∷ ids) t m) ≡ some t)
        (sym q) (marked_first j ids t m) e
  lookup-mark_all (j ∷ ids) t i m (Memᴰ.tail mem) e = elim (Bool-cases (is_empty (trim j))) [
    | inl b ↦ rw b (lookup-mark_all ids t i m mem e)
    | inr b ↦ rw b (lookup-mark_all ids t i (insert (seen_key chain_name (trim j)) t m) mem e)
  ]

  pending_unseen :
      (ttl now : ℤ) (m : Assoc ℤ) (added : Assoc Bool) (ids : List Str)
      → All
          (λ x. seen_recently ttl now (seen_key chain_name x) m ≡ false)
          (pending_of trim chain_name ttl now m added ids)
  unfolding pending_of
  pending_unseen ttl now m added [] = tt
  pending_unseen ttl now m added (i ∷ ids) = elim (Bool-cases (is_empty (trim i))) [
    | inl e ↦ rw e (pending_unseen ttl now m added ids)
    | inr e ↦ elim (Bool-cases (is_added (seen_key chain_name (trim i)) added)) [
      | inl a ↦ rw (e, a) (pending_unseen ttl now m added ids)
      | inr a ↦ elim (Bool-cases (seen_recently ttl now (seen_key chain_name (trim i)) m)) [
        | inl s ↦ rw (e, a, s) (pending_unseen ttl now m added ids)
        | inr s ↦
            rw (e, a, s)
              (s, pending_unseen ttl now m (insert (seen_key chain_name (trim i)) true added) ids)
      ]
    ]
  ]

  -- A transaction that was marked as seen, with an id that is not blank, is not pending again
  -- while its time to live lasts, whatever the mempool lists then.
  pub filter_unseen-mark_seen :
      (ids tx_ids : List Str) (t now : ℤ) (s : Mempool) (i : Str)
      → Memᴰ i ids
      → is_empty (trim i) ≡ false
      → leb_ℤ (now -ℤ t) s.dedupe_ttl ≡ true
      → All
          (λ x. x ≢ trim i)
          (filter_unseen trim chain_name tx_ids now (mark_seen trim chain_name ids t s)).1
  unfolding filter_unseen mark_seen seen_recently
  filter_unseen-mark_seen ids tx_ids t now s i mem e f =
      let m = drop_expired s.dedupe_ttl now (mark_all trim chain_name ids t s.tx_seen) in
      All-map (λ x. seen_recently s.dedupe_ttl now (seen_key chain_name x) m ≡ false)
        (λ x. x ≢ trim i)
        (λ x u q.
          still_seen s.dedupe_ttl now t (seen_key chain_name (trim i)) m
            (lookup-drop_expired s.dedupe_ttl now t (seen_key chain_name (trim i))
              (mark_all trim chain_name ids t s.tx_seen) (lookup-mark_all ids t i s.tx_seen mem e)
              (not_past s.dedupe_ttl now t f))
            f (subst (λ y. seen_recently s.dedupe_ttl now (seen_key chain_name y) m ≡ false) q u))
        (pending_of trim chain_name s.dedupe_ttl now m [] tx_ids)
        (pending_unseen s.dedupe_ttl now m [] tx_ids)
