-- ===== src/Federation/Merge.antt =====
-- aggregatePresence (internal/federation/store.go): the entries of all nodes, one for each identity
-- and type.
use metaso_p2p.Prelude.{
  ℕ, ◌+◌, Bool, not, ◌&&◌, ◌||◌, none, some, List, [], ◌∷◌, ◌++◌, if◌then◌else◌, length,
}
use metaso_p2p.Prelude.Int.{ℤ, pos, ltb_ℤ, eqb_ℤ}
use metaso_p2p.Prelude.Text.{Str, str_eq, str_ltb, is_empty}
use metaso_p2p.Prelude.Assoc.{Assoc, lookup, insert, keys}
use metaso_p2p.Prelude.Sort.{sort_stable}
use metaso_p2p.Federation.Store.{
  OnlineEntry, Snapshot, PresenceStore, default_local_node_id, active_snapshots,
}

-- A map[string]struct{}.
abbrev pub Names : Type 0
Names = Assoc {0} Unit

pub record AggregateEntry : Type 0 where
  pub entry : OnlineEntry
  pub source_seen : Names
  pub source_count : ℕ

pub record AggregateResult : Type 0 where
  pub items : List OnlineEntry
  pub total_connections : ℕ
  pub unique_meta_ids : ℕ

pub record GlobalStats : Type 0 where
  pub total_connections : ℕ
  pub unique_meta_ids : ℕ
  pub nodes : ℕ

unfoldable pub entry_key : OnlineEntry → Str
entry_key item = item.meta_id ++ 0 ∷ item.kind

unfoldable pub named_node : Str → Str
named_node node_id = if is_empty node_id then default_local_node_id else node_id

-- The entry of a first observation, and what a further one changes.
unfoldable pub first_seen : OnlineEntry → Str → AggregateEntry
first_seen item node_id = record {
  entry = record {
    meta_id = item.meta_id;
    kind = item.kind;
    connected_at = item.connected_at;
    last_seen_at = item.last_seen_at;
    source_node_ids = [];
    sources = 0;
  };
  source_seen = (node_id, tt) ∷ [];
  source_count = 1;
}

unfoldable pub earlier : ℤ → ℤ → ℤ
earlier new old =
    if not (eqb_ℤ new (pos 0)) && (eqb_ℤ old (pos 0) || ltb_ℤ new old) then new else old

unfoldable pub later : ℤ → ℤ → ℤ
later new old = if ltb_ℤ old new then new else old

unfoldable pub seen_again : OnlineEntry → Str → AggregateEntry → AggregateEntry
unfolding earlier later
seen_again item node_id a = record {
  entry = record a.entry {
    connected_at = earlier item.connected_at a.entry.connected_at;
    last_seen_at = later item.last_seen_at a.entry.last_seen_at;
  };
  source_seen = insert node_id tt a.source_seen;
  source_count = a.source_count + 1;
}

-- `addAggregateObservation`
unfoldable pub add_observation : OnlineEntry → Str → Assoc AggregateEntry → Assoc AggregateEntry
unfolding entry_key first_seen seen_again named_node
add_observation item node_id entries =
    let key = entry_key item in
    elim (lookup key entries) [
      | none ↦ insert key (first_seen item (named_node node_id)) entries
      | some a ↦ insert key (seen_again item (named_node node_id) a) entries
    ]

-- The state of the two loops: the entries by key, the identities and the count.
pub record Merging : Type 0 where
  pub entries : Assoc AggregateEntry
  pub meta_ids : Names
  pub count : ℕ

unfoldable pub observe : Str → List OnlineEntry → Merging → Merging
unfolding add_observation
observe node_id [] g = g
observe node_id (item ∷ items) g = observe node_id items (record {
  entries = add_observation item node_id g.entries;
  meta_ids = insert item.meta_id tt g.meta_ids;
  count = g.count + 1;
})

unfoldable pub observe_snapshots : List Snapshot → Merging → Merging
unfolding observe
observe_snapshots [] g = g
observe_snapshots (snapshot ∷ snapshots) g =
    observe_snapshots snapshots (observe snapshot.node_id snapshot.items g)

-- `sortedSourceNodeIDs`
unfoldable pub sorted_source_node_ids : Names → List Str
sorted_source_node_ids seen = sort_stable str_ltb (keys seen)

unfoldable pub item_of : AggregateEntry → OnlineEntry
unfolding sorted_source_node_ids
item_of a = record a.entry {
  source_node_ids = sorted_source_node_ids a.source_seen;
  sources = a.source_count;
}

unfoldable pub items_of : Assoc AggregateEntry → List OnlineEntry
unfolding item_of
items_of [] = []
items_of ((key, a) ∷ m) = item_of a ∷ items_of m

-- The order of the list: last seen first.
unfoldable pub item_less : OnlineEntry → OnlineEntry → Bool
item_less a b =
    if not (eqb_ℤ a.last_seen_at b.last_seen_at)
    then ltb_ℤ b.last_seen_at a.last_seen_at
    else if not (str_eq a.meta_id b.meta_id)
    then str_ltb a.meta_id b.meta_id
    else str_ltb a.kind b.kind

unfoldable pub merge : List OnlineEntry → List Snapshot → Str → Merging
unfolding observe observe_snapshots named_node
merge locals snapshots local_node_id =
    observe_snapshots snapshots (
      observe (named_node local_node_id) locals (record { entries = []; meta_ids = []; count = 0 }))

-- `aggregatePresence`
unfoldable pub aggregate_presence : List OnlineEntry → List Snapshot → Str → AggregateResult
unfolding merge items_of item_less
aggregate_presence locals snapshots local_node_id =
    let g = merge locals snapshots local_node_id in
    record {
      items = sort_stable item_less (items_of g.entries);
      total_connections = g.count;
      unique_meta_ids = length g.meta_ids;
    }

-- `GlobalOnline` and `StatsAt`
unfoldable pub global_online : List OnlineEntry → ℤ → PresenceStore → List OnlineEntry
unfolding aggregate_presence
global_online locals now s =
    (aggregate_presence locals (active_snapshots now s) s.local_node_id).items

unfoldable pub stats_at : List OnlineEntry → ℤ → PresenceStore → GlobalStats
unfolding aggregate_presence
stats_at locals now s =
    let snapshots = active_snapshots now s in
    let result = aggregate_presence locals snapshots s.local_node_id in
    record {
      total_connections = result.total_connections;
      unique_meta_ids = result.unique_meta_ids;
      nodes = 1 + length snapshots;
    }
