-- ===== src/Federation/Examples.antt =====
-- Runs of the presence store (internal/federation/store.go).
use metaso_p2p.Prelude.{ℕ, ◌+◌, ◌*◌, ◌≡◌, refl, arith, none, some, List, [], ◌∷◌, ◌++◌, All, take}
use metaso_p2p.Prelude.Int.{pos, wrap64, ◌+ℤ◌, ◌-ℤ◌, ◌*ℤ◌}
use metaso_p2p.Prelude.Text.{Str, codes}
use metaso_p2p.Prelude.Assoc.{lookup}
use metaso_p2p.Federation.Store.{
  OnlineEntry, Snapshot, RegistryNode, PresenceStore, new_store, upsert_peer, upsert_snapshot,
  active_snapshots,
}
use metaso_p2p.Federation.Merge.{merge, entry_key}
use metaso_p2p.Federation.Pages.{
  paginate_presence, cut, slice, or_default, page_start, paginate_presence-follows,
  paginate_presence-panics,
}
use metaso_p2p.Federation.Active.{Step, Reachable, Counts, active_snapshots-Counts}
use metaso_p2p.Federation.Summaries.{SumsUp, matching, reported, merge-SumsUp}

abbrev seen_at : Str → ℕ → OnlineEntry
seen_at id time = record {
  meta_id = id;
  kind = codes "pc";
  connected_at = pos time;
  last_seen_at = pos time;
  source_node_ids = [];
  sources = 0;
}

abbrev remote : Snapshot
remote = record {
  protocol = [];
  version = [];
  node_id = codes "b";
  generated_at = pos 1000;
  ttl_seconds = pos 60;
  sequence = 1;
  items = seen_at (codes "u") 9 ∷ seen_at (codes "v") 4 ∷ [];
  signature = [];
}

abbrev peer : RegistryNode
peer = record {
  protocol = [];
  version = [];
  node_id = codes "b";
  network = [];
  public_base_url = [];
  socket_url = [];
  presence_url = [];
  public_key = [];
  capabilities = [];
  published_at = pos 0;
  valid_until = pos 0;
}

abbrev locals : List OnlineEntry
locals = seen_at (codes "u") 7 ∷ []

abbrev two_nodes : PresenceStore
two_nodes = upsert_snapshot remote (upsert_peer peer (new_store (codes "a")))

two_nodes_reached : Reachable two_nodes
two_nodes_reached =
    Reachable.stepped (upsert_peer peer (new_store (codes "a"))) two_nodes
      (Reachable.stepped (new_store (codes "a")) (upsert_peer peer (new_store (codes "a")))
        (Reachable.created (codes "a")) (Step.peer_upserted peer (new_store (codes "a"))))
      (Step.snapshot_upserted remote (upsert_peer peer (new_store (codes "a"))))

active_snapshots-Counts_example :
    All (Counts (pos 2000) two_nodes) (active_snapshots (pos 2000) two_nodes)
active_snapshots-Counts_example = active_snapshots-Counts (pos 2000) two_nodes two_nodes_reached

merge-SumsUp_example :
    SumsUp
      (matching (entry_key (seen_at (codes "u") 7)) (locals ++ reported (remote ∷ [])))
      (lookup (entry_key (seen_at (codes "u") 7)) (merge locals (remote ∷ []) (codes "a")).entries)
merge-SumsUp_example =
    merge-SumsUp (entry_key (seen_at (codes "u") 7)) locals (remote ∷ []) (codes "a")

second_page : paginate_presence {A = ℕ} (1 ∷ 2 ∷ 3 ∷ 4 ∷ 5 ∷ []) (pos 2) (pos 2) ≡ some (3 ∷ 4 ∷ [])
unfolding paginate_presence cut slice or_default page_start wrap64 ◌+ℤ◌ ◌-ℤ◌ ◌*ℤ◌
second_page = refl

paginate_presence-follows_example :
    (page : List ℕ) × (paginate_presence {A = ℕ} (1 ∷ 2 ∷ 3 ∷ []) (pos (1 + 1)) (pos 2) ≡ some page)
    × (take (1 * 2) (1 ∷ 2 ∷ 3 ∷ []) ++ page ≡ take (1 * 2 + 2) (1 ∷ 2 ∷ 3 ∷ []))
paginate_presence-follows_example =
    paginate_presence-follows (1 ∷ 2 ∷ 3 ∷ []) 1 2 (omega arith) (omega arith) (omega arith)

-- GET ?page=92233720368547760&size=100
paginate_presence-panics_example :
    paginate_presence {A = ℕ} (1 ∷ 2 ∷ 3 ∷ []) (pos (92233720368547759 + 1)) (pos 100) ≡ none
paginate_presence-panics_example =
    paginate_presence-panics {A = ℕ} (1 ∷ 2 ∷ 3 ∷ []) 92233720368547759 100 (omega arith)
      (omega arith) (omega arith) (omega arith)
