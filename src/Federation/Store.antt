-- ===== src/Federation/Store.antt =====
-- The peers and their last snapshots (internal/federation/store.go). A map is iterated in the order
-- of its entries; times are milliseconds.
use metaso_p2p.Prelude.{
  ℕ, Bool, true, false, not, ◌&&◌, Option, none, some, List, [], ◌∷◌, if◌then◌else◌,
}
use metaso_p2p.Prelude.Int.{ℤ, pos, ◌+ℤ◌, ◌*ℤ◌, ltb_ℤ, wrap64}
use metaso_p2p.Prelude.Text.{Str, codes, str_eq, str_ltb, is_empty}
use metaso_p2p.Prelude.Assoc.{Assoc, lookup, insert, without}
use metaso_p2p.Prelude.Sort.{sort_stable}

-- `presence.OnlineEntry`; `kind` is its Type.
pub record OnlineEntry : Type 0 where
  pub meta_id : Str
  pub kind : Str
  pub connected_at : ℤ
  pub last_seen_at : ℤ
  pub source_node_ids : List Str
  pub sources : ℕ

-- `presence.Snapshot`
pub record Snapshot : Type 0 where
  pub protocol : Str
  pub version : Str
  pub node_id : Str
  pub generated_at : ℤ
  pub ttl_seconds : ℤ
  pub sequence : ℕ
  pub items : List OnlineEntry
  pub signature : Str

pub record RegistryNode : Type 0 where
  pub protocol : Str
  pub version : Str
  pub node_id : Str
  pub network : Str
  pub public_base_url : Str
  pub socket_url : Str
  pub presence_url : Str
  pub public_key : Str
  pub capabilities : List Str
  pub published_at : ℤ
  pub valid_until : ℤ

pub record PresenceStore : Type 0 where
  pub local_node_id : Str
  pub enabled : Bool
  pub default_scope : Str
  pub peers : Assoc RegistryNode
  pub snapshots : Assoc Snapshot

abbrev pub default_local_node_id : Str
default_local_node_id = codes "local"

-- `NewStore`, without options
unfoldable pub new_store : Str → PresenceStore
new_store local_node_id = record {
  local_node_id = if is_empty local_node_id then default_local_node_id else local_node_id;
  enabled = true;
  default_scope = codes "global";
  peers = [];
  snapshots = [];
}

-- `DefaultScope`
unfoldable pub default_scope_of : PresenceStore → Str
default_scope_of s =
    if str_eq s.default_scope (codes "global") then codes "global" else codes "local"

-- `UpsertPeer`
unfoldable pub upsert_peer : RegistryNode → PresenceStore → PresenceStore
upsert_peer peer s =
    if is_empty peer.node_id then s else record s { peers = insert peer.node_id peer s.peers }

-- `RemovePeer`
unfoldable pub remove_peer : Str → PresenceStore → PresenceStore
remove_peer node_id s =
    if is_empty node_id
    then s
    else record s { peers = without node_id s.peers; snapshots = without node_id s.snapshots }

-- `Peer` and `Snapshot`; none is a result of false.
unfoldable pub peer_of : Str → PresenceStore → Option RegistryNode
peer_of node_id s = if is_empty node_id then none else lookup node_id s.peers

unfoldable pub snapshot_of : Str → PresenceStore → Option Snapshot
snapshot_of node_id s = if is_empty node_id then none else lookup node_id s.snapshots

values {ℓ} : {V : Type ℓ} → Assoc V → List V
values [] = []
values ((k, v) ∷ m) = v ∷ values m

peer_less : RegistryNode → RegistryNode → Bool
peer_less a b = str_ltb a.node_id b.node_id

-- `ActivePeers`; its `now` is not used.
unfoldable pub active_peers : ℤ → PresenceStore → List RegistryNode
unfolding values peer_less
active_peers now s = sort_stable peer_less (values s.peers)

-- `UpsertSnapshot`
unfoldable pub upsert_snapshot : Snapshot → PresenceStore → PresenceStore
upsert_snapshot snapshot s =
    if is_empty snapshot.node_id
    then s
    else record s { snapshots = insert snapshot.node_id snapshot s.snapshots }

-- `snapshotExpired` and `peerExpired`
unfoldable pub snapshot_expired : Snapshot → ℤ → Bool
snapshot_expired snapshot now =
    ltb_ℤ (wrap64 (snapshot.generated_at +ℤ wrap64 (snapshot.ttl_seconds *ℤ pos 1000))) now

unfoldable pub peer_expired : RegistryNode → ℤ → Bool
peer_expired peer now = ltb_ℤ (pos 0) peer.valid_until && ltb_ℤ peer.valid_until now

unfoldable pub known : Str → PresenceStore → Bool
known node_id s = elim (lookup node_id s.peers) [ none ↦ false | some _ ↦ true ]

-- The snapshots of other nodes that are peers, if they have not expired.
unfoldable pub live_snapshots : ℤ → PresenceStore → Assoc Snapshot → List Snapshot
unfolding known snapshot_expired
live_snapshots now s [] = []
live_snapshots now s ((node_id, snapshot) ∷ m) =
    let rest = live_snapshots now s m in
    if str_eq node_id s.local_node_id
    then rest
    else if not (known node_id s)
    then rest
    else if snapshot_expired snapshot now
    then rest
    else snapshot ∷ rest

pub snapshot_less : Snapshot → Snapshot → Bool
snapshot_less a b = str_ltb a.node_id b.node_id

-- `activeSnapshots`
unfoldable pub active_snapshots : ℤ → PresenceStore → List Snapshot
unfolding live_snapshots snapshot_less
active_snapshots now s = sort_stable snapshot_less (live_snapshots now s s.snapshots)
