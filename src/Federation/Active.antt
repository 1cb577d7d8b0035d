-- ===== src/Federation/Active.antt =====
-- Which snapshots count (internal/federation/store.go: activeSnapshots), over the operations of the
-- store.
use metaso_p2p.Prelude.{
  ◌≡◌, ◌≢◌, refl, sym, subst, arith, true, false, [], ◌∷◌, All, All-map, Bool-cases, inl, inr,
}
use mathlib.Core.List.Permᴰ
use metaso_p2p.Prelude.Int.{ℤ}
use metaso_p2p.Prelude.Text.{Str, str_eq, str_eq_iff, is_empty}
use metaso_p2p.Prelude.Assoc.{Assoc, without, All-insert, lookup-without}
use metaso_p2p.Prelude.Sort.Laws.{All-perm, sort_stable-perm}
use metaso_p2p.Federation.Store.{
  RegistryNode, Snapshot, PresenceStore, new_store, upsert_peer, remove_peer, upsert_snapshot,
  known, snapshot_expired, live_snapshots, active_snapshots, snapshot_less,
}

-- One operation on the store, and any number of them from a new store.
pub data Step : PresenceStore → PresenceStore → Type 0 where
  peer_upserted : (peer : RegistryNode) (s : PresenceStore) → Step s (upsert_peer peer s)
  peer_removed : (node_id : Str) (s : PresenceStore) → Step s (remove_peer node_id s)
  snapshot_upserted :
      (snapshot : Snapshot) (s : PresenceStore) → Step s (upsert_snapshot snapshot s)

pub data Reachable : PresenceStore → Type 0 where
  created : (local_node_id : Str) → Reachable (new_store local_node_id)
  stepped : (s t : PresenceStore) → Reachable s → Step s t → Reachable t

-- Every snapshot is kept under the id of its node.
abbrev pub Keyed : Assoc Snapshot → Type 0
Keyed = All (λ e. e.1.node_id ≡ e.0)

All-without :
    (P : Str × Snapshot → Type 0) (k : Str) (m : Assoc Snapshot) → All P m → All P (without k m)
unfolding without
All-without P k [] h = tt
All-without P k ((j, w) ∷ m) h = elim (Bool-cases (str_eq j k)) [
  | inl e ↦ rw e (All-without P k m h.1)
  | inr e ↦ rw e (h.0, All-without P k m h.1)
]

Step-Keyed : (s t : PresenceStore) → Step s t → Keyed s.snapshots → Keyed t.snapshots
unfolding upsert_peer remove_peer upsert_snapshot
Step-Keyed _ _ (Step.peer_upserted peer s) h = elim (Bool-cases (is_empty peer.node_id)) [
  | inl e ↦ rw e h
  | inr e ↦ rw e h
]
Step-Keyed _ _ (Step.peer_removed n s) h = elim (Bool-cases (is_empty n)) [
  | inl e ↦ rw e h
  | inr e ↦ rw e (All-without (λ e. e.1.node_id ≡ e.0) n s.snapshots h)
]
Step-Keyed _ _ (Step.snapshot_upserted x s) h = elim (Bool-cases (is_empty x.node_id)) [
  | inl e ↦ rw e h
  | inr e ↦ rw e (All-insert (λ e. e.1.node_id ≡ e.0) x.node_id x s.snapshots refl h)
]

Reachable-Keyed : (s : PresenceStore) → Reachable s → Keyed s.snapshots
unfolding new_store
Reachable-Keyed _ (Reachable.created n) = tt
Reachable-Keyed _ (Reachable.stepped s t r st) = Step-Keyed s t st (Reachable-Keyed s r)

-- A snapshot of a peer other than the node itself, before its end.
pub record Counts (now : ℤ) (s : PresenceStore) (x : Snapshot) : Type 0 where
  pub remote : x.node_id ≢ s.local_node_id
  pub of_peer : known x.node_id s ≡ true
  pub fresh : snapshot_expired x now ≡ false

live_snapshots-Counts :
    (now : ℤ) (s : PresenceStore) (m : Assoc Snapshot)
    → Keyed m
    → All (Counts now s) (live_snapshots now s m)
unfolding live_snapshots
live_snapshots-Counts now s [] h = tt
live_snapshots-Counts now s ((k, x) ∷ m) h = elim (Bool-cases (str_eq k s.local_node_id)) [
  | inl l ↦ rw l (live_snapshots-Counts now s m h.1)
  | inr l ↦ elim (Bool-cases (known k s)) [
    | inr p ↦ rw (l, p) (live_snapshots-Counts now s m h.1)
    | inl p ↦ elim (Bool-cases (snapshot_expired x now)) [
      | inl e ↦ rw (l, p, e) (live_snapshots-Counts now s m h.1)
      | inr e ↦ rw (l, p, e) (counts l p e, live_snapshots-Counts now s m h.1)
    ]
  ]
]
  where
    counts :
        str_eq k s.local_node_id ≡ false
        → known k s ≡ true
        → snapshot_expired x now ≡ false
        → Counts now s x
    counts l p e = record {
      remote = λ q. ground (arith, str_eq_iff k s.local_node_id, l, q, h.0);
      of_peer = subst (λ i. known i s ≡ true) (sym h.0) p;
      fresh = e;
    }

-- In every store that its operations reach, the active snapshots are of peers, none of the node
-- itself, and none of them has expired.
pub active_snapshots-Counts :
    (now : ℤ) (s : PresenceStore) → Reachable s → All (Counts now s) (active_snapshots now s)
unfolding active_snapshots
active_snapshots-Counts now s r =
    All-perm (Counts now s)
      (Permᴰ.symm (sort_stable-perm snapshot_less (live_snapshots now s s.snapshots)))
      (live_snapshots-Counts now s s.snapshots (Reachable-Keyed s r))

unknown_after :
    (n : Str) (s : PresenceStore) → is_empty n ≡ false → known n (remove_peer n s) ≡ true → ⊥
unfolding known remove_peer
unknown_after n s e h = ground (arith, lookup-without n n s.peers, str_eq_iff n n, e, h)

-- Removing a peer of a reachable store hides what it reported: no active snapshot is of that node.
pub remove_peer-hides :
    (now : ℤ) (n : Str) (s : PresenceStore)
    → Reachable s
    → is_empty n ≡ false
    → All (λ x. x.node_id ≢ n) (active_snapshots now (remove_peer n s))
remove_peer-hides now n s r e =
    All-map (Counts now (remove_peer n s)) (λ x. x.node_id ≢ n)
      (λ x c q. gone (subst (λ i. known i (remove_peer n s) ≡ true) q c.of_peer))
      (active_snapshots now (remove_peer n s))
      (active_snapshots-Counts now (remove_peer n s)
        (Reachable.stepped s (remove_peer n s) r (Step.peer_removed n s)))
  where
    gone : known n (remove_peer n s) ≡ true → ⊥
    gone h = unknown_after n s e h
