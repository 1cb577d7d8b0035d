-- ===== src/Federation/Totals.antt =====
-- What the merged presence counts and shows (internal/federation/store.go: aggregatePresence).
use mathlib.Core.List.{Permᴰ}
use metaso_p2p.Prelude.{
  ℕ, ◌+◌, ◌≡◌, refl, ap, ◌∙◌, arith, none, some, List, [], ◌∷◌, Option-cases, inl, inr,
}
use metaso_p2p.Prelude.Text.{Str}
use metaso_p2p.Prelude.Assoc.{Assoc, lookup, insert}
use metaso_p2p.Prelude.Sort.Laws.{sort_stable-perm}
use metaso_p2p.Federation.Store.{OnlineEntry, Snapshot}
use metaso_p2p.Federation.Merge.{
  AggregateEntry, Merging, entry_key, named_node, first_seen, seen_again, add_observation, observe,
  observe_snapshots, item_of, items_of, item_less, merge, aggregate_presence,
}

-- The sum of `Sources` over a list.
unfoldable pub sum_sources : List OnlineEntry → ℕ
sum_sources [] = 0
sum_sources (x ∷ xs) = x.sources + sum_sources xs

sum_sources-perm : {xs ys : List OnlineEntry} → Permᴰ xs ys → sum_sources xs ≡ sum_sources ys
unfolding sum_sources
sum_sources-perm Permᴰ.nil = refl
sum_sources-perm (Permᴰ.cons e p) = omega (arith, ap (λ x. x.sources) e, sum_sources-perm p)
sum_sources-perm (Permᴰ.swap e f) = omega (arith, ap (λ x. x.sources) e, ap (λ x. x.sources) f)
sum_sources-perm (Permᴰ.trans p q) = sum_sources-perm p ∙ sum_sources-perm q

counted : Assoc AggregateEntry → ℕ
unfolding sum_sources
counted m = sum_sources (items_of m)

counted-fresh :
    (k : Str) (a : AggregateEntry) (m : Assoc AggregateEntry)
    → lookup k m ≡ none
    → counted (insert k a m) ≡ counted m + a.source_count
unfolding counted items_of item_of insert lookup sum_sources
counted-fresh k a [] h = omega arith
counted-fresh k a ((j, b) ∷ m) h = ground (arith, h, counted-fresh k a m)

counted-replaced :
    (k : Str) (a b : AggregateEntry) (m : Assoc AggregateEntry)
    → lookup k m ≡ some a
    → b.source_count ≡ a.source_count + 1
    → counted (insert k b m) ≡ counted m + 1
unfolding counted items_of item_of insert lookup sum_sources
counted-replaced k a b [] h e = cc
counted-replaced k a b ((j, c) ∷ m) h e = ground (arith, h, e, counted-replaced k a b m)

counted-add :
    (item : OnlineEntry) (n : Str) (m : Assoc AggregateEntry)
    → counted (add_observation item n m) ≡ counted m + 1
unfolding add_observation first_seen seen_again
counted-add item n m = elim (Option-cases (lookup (entry_key item) m)) [
  | inl e ↦
      rw (add_observation, e) (counted-fresh (entry_key item) (first_seen item (named_node n)) m e)
  | inr (a, e) ↦
      rw (add_observation, e)
        (counted-replaced (entry_key item) a (seen_again item (named_node n) a) m e refl)
]

observe-counted :
    (n : Str) (items : List OnlineEntry) (g : Merging)
    → counted g.entries ≡ g.count
    → counted (observe n items g).entries ≡ (observe n items g).count
unfolding observe
observe-counted n [] g h = h
observe-counted n (item ∷ items) g h =
    observe-counted n items
      (record {
        entries = add_observation item n g.entries;
        meta_ids = insert item.meta_id tt g.meta_ids;
        count = g.count + 1;
      })
      (counted-add item n g.entries ∙ ap (λ c. c + 1) h)

observe_snapshots-counted :
    (xs : List Snapshot) (g : Merging)
    → counted g.entries ≡ g.count
    → counted (observe_snapshots xs g).entries ≡ (observe_snapshots xs g).count
unfolding observe_snapshots
observe_snapshots-counted [] g h = h
observe_snapshots-counted (x ∷ xs) g h =
    observe_snapshots-counted xs (observe x.node_id x.items g)
      (observe-counted x.node_id x.items g h)

merge-counted :
    (locals : List OnlineEntry) (xs : List Snapshot) (n : Str)
    → counted (merge locals xs n).entries ≡ (merge locals xs n).count
unfolding merge counted items_of sum_sources
merge-counted locals xs n =
    observe_snapshots-counted xs _ (
      observe-counted (named_node n) locals (record { entries = []; meta_ids = []; count = 0 })
        refl)

-- The connections that the statistics report are those that the list shows: over the items of
-- the merged list, the numbers of sources sum up to the total of connections.
pub aggregate_presence-total :
    (locals : List OnlineEntry) (xs : List Snapshot) (n : Str)
    → sum_sources (aggregate_presence locals xs n).items
      ≡ (aggregate_presence locals xs n).total_connections
unfolding aggregate_presence counted
aggregate_presence-total locals xs n =
    sum_sources-perm (sort_stable-perm item_less (items_of (merge locals xs n).entries))
    ∙ merge-counted locals xs n
