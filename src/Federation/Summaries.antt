-- ===== src/Federation/Summaries.antt =====
-- An entry of the merged presence and the observations that it sums up (internal/federation/store.go:
-- addAggregateObservation).
use mathlib.Core.List.{Memᴰ}
use metaso_p2p.Prelude.{
  ◌+◌, ◌≡◌, refl, sym, subst, ◌∙◌, ◌⊎◌, arith, true, false, Option, none, some, List, [], ◌∷◌, ◌++◌,
  append-nil, append_assoc, All, All-append, All-map, length, length-append, if◌then◌else◌,
  Bool-cases, Option-cases, inl, inr, Memᴰ-append_left, Memᴰ-append_last,
}
use metaso_p2p.Prelude.Int.{ℤ, ◌≤ℤ◌, ltb_ℤ}
use metaso_p2p.Prelude.Text.{Str, str_eq, str_eq_iff, str_eq_refl}
use metaso_p2p.Prelude.Assoc.{Assoc, lookup, lookup-insert}
use metaso_p2p.Federation.Store.{OnlineEntry, Snapshot}
use metaso_p2p.Federation.Merge.{
  AggregateEntry, Merging, entry_key, named_node, first_seen, seen_again, later, add_observation,
  observe, observe_snapshots, merge,
}

-- The observations with a key, and those of all snapshots.
unfoldable pub matching : Str → List OnlineEntry → List OnlineEntry
matching k [] = []
matching k (o ∷ os) = let rest = matching k os in if str_eq (entry_key o) k then o ∷ rest else rest

unfoldable pub reported : List Snapshot → List OnlineEntry
reported [] = []
reported (x ∷ xs) = x.items ++ reported xs

-- No entry for no observation; else as many sources as observations, and the latest of the times
-- at which they were last seen.
pub data SumsUp (os : List OnlineEntry) : Option AggregateEntry → Type 0 where
  unseen : os ≡ [] → SumsUp os none
  seen :
      (a : AggregateEntry) (o : OnlineEntry)
      → a.source_count ≡ length os
      → All (λ x. x.last_seen_at ≤ℤ a.entry.last_seen_at) os
      → Memᴰ o os
      → o.last_seen_at ≡ a.entry.last_seen_at
      → SumsUp os (some a)

matching-append :
    (k : Str) (os ps : List OnlineEntry) → matching k (os ++ ps) ≡ matching k os ++ matching k ps
unfolding matching
matching-append k [] ps = refl
matching-append k (o ∷ os) ps = elim (Bool-cases (str_eq (entry_key o) k)) [
  | inl e ↦ rw (e, matching-append k os ps) refl
  | inr e ↦ rw (e, matching-append k os ps) refl
]

le_new : (a b : ℤ) → a ≤ℤ later a b
unfolding later
le_new a b = ground arith

le_old : (a b : ℤ) → b ≤ℤ later a b
unfolding later
le_old a b = ground arith

later-cases : (a b : ℤ) → (later a b ≡ a) ⊎ (later a b ≡ b)
unfolding later
later-cases a b = elim (Bool-cases (ltb_ℤ b a)) [
  | inl e ↦ rw e (inl refl)
  | inr e ↦ rw e (inr refl)
]

le_trans : (a b c : ℤ) → a ≤ℤ b → b ≤ℤ c → a ≤ℤ c
le_trans a b c h k = ground (arith, h, k)

sums-again :
    (item : OnlineEntry) (n : Str) (os : List OnlineEntry) (a : AggregateEntry)
    → SumsUp os (some a)
    → SumsUp (os ++ item ∷ []) (some (seen_again item n a))
unfolding seen_again
sums-again item n os _ (SumsUp.seen a o c h m e) =
    elim (later-cases item.last_seen_at a.entry.last_seen_at) [
      | inl l ↦
          SumsUp.seen (seen_again item n a) item count latest (Memᴰ-append_last item os) (sym l)
      | inr l ↦
          SumsUp.seen (seen_again item n a) o count latest (Memᴰ-append_left o os (item ∷ []) m)
            (e ∙ sym l)
    ]
  where
    count : a.source_count + 1 ≡ length (os ++ item ∷ [])
    count = omega (arith, c, length-append os (item ∷ []))

    latest :
        All (λ x. x.last_seen_at ≤ℤ later item.last_seen_at a.entry.last_seen_at) (os ++ item ∷ [])
    latest =
        All-append (λ x. x.last_seen_at ≤ℤ later item.last_seen_at a.entry.last_seen_at) os
          (item ∷ [])
          (All-map (λ x. x.last_seen_at ≤ℤ a.entry.last_seen_at)
            (λ x. x.last_seen_at ≤ℤ later item.last_seen_at a.entry.last_seen_at)
            (λ x le.
              le_trans x.last_seen_at a.entry.last_seen_at
                (later item.last_seen_at a.entry.last_seen_at) le
                (le_old item.last_seen_at a.entry.last_seen_at))
            os h)
          (le_new item.last_seen_at a.entry.last_seen_at, tt)

sums-first :
    (item : OnlineEntry) (n : Str) (os : List OnlineEntry)
    → SumsUp os none
    → SumsUp (os ++ item ∷ []) (some (first_seen item n))
unfolding first_seen
sums-first item n os (SumsUp.unseen e) =
    rw e (SumsUp.seen (first_seen item n) item refl (omega arith, tt) (Memᴰ.head refl) refl)

unfoldable observed : OnlineEntry → Str → Option AggregateEntry → AggregateEntry
observed item n none = first_seen item n
observed item n (some a) = seen_again item n a

sums-observed :
    (item : OnlineEntry) (n : Str) (os : List OnlineEntry) (o : Option AggregateEntry)
    → SumsUp os o
    → SumsUp (os ++ item ∷ []) (some (observed item n o))
unfolding observed
sums-observed item n os none h = sums-first item n os h
sums-observed item n os (some a) h = sums-again item n os a h

lookup_self :
    (item : OnlineEntry) (n : Str) (m : Assoc AggregateEntry)
    → lookup (entry_key item) (add_observation item n m)
      ≡ some (observed item (named_node n) (lookup (entry_key item) m))
unfolding observed add_observation
lookup_self item n m = elim (Option-cases (lookup (entry_key item) m)) [
  | inl l ↦
      rw
        (
          add_observation,
          l,
          lookup-insert (entry_key item) (entry_key item) (first_seen item (named_node n)) m,
          str_eq_refl (entry_key item),
        )
        refl
  | inr (a, l) ↦
      rw
        (
          add_observation,
          l,
          lookup-insert (entry_key item) (entry_key item) (seen_again item (named_node n) a) m,
          str_eq_refl (entry_key item),
        )
        refl
]

lookup_own :
    (k : Str) (item : OnlineEntry) (n : Str) (m : Assoc AggregateEntry)
    → str_eq (entry_key item) k ≡ true
    → lookup k (add_observation item n m) ≡ some (observed item (named_node n) (lookup k m))
lookup_own k item n m e =
    subst
      (λ j. lookup j (add_observation item n m) ≡ some (observed item (named_node n) (lookup j m)))
      ((str_eq_iff (entry_key item) k).0 e) (lookup_self item n m)

lookup_other :
    (k : Str) (item : OnlineEntry) (n : Str) (m : Assoc AggregateEntry)
    → str_eq (entry_key item) k ≡ false
    → lookup k (add_observation item n m) ≡ lookup k m
unfolding add_observation
lookup_other k item n m e = elim (Option-cases (lookup (entry_key item) m)) [
  | inl l ↦
      rw
        (add_observation, l, lookup-insert (entry_key item) k (first_seen item (named_node n)) m, e)
        refl
  | inr (a, l) ↦
      rw
        (
          add_observation,
          l,
          lookup-insert (entry_key item) k (seen_again item (named_node n) a) m,
          e,
        )
        refl
]

sums-add :
    (k : Str) (item : OnlineEntry) (n : Str) (os : List OnlineEntry) (m : Assoc AggregateEntry)
    → SumsUp (matching k os) (lookup k m)
    → SumsUp (matching k (os ++ item ∷ [])) (lookup k (add_observation item n m))
unfolding matching
sums-add k item n os m h = elim (Bool-cases (str_eq (entry_key item) k)) [
  | inl e ↦
      rw (matching-append k os (item ∷ []), e)
        (rw (lookup_own k item n m e)
          (sums-observed item (named_node n) (matching k os) (lookup k m) h))
  | inr e ↦
      rw (matching-append k os (item ∷ []), e)
        (rw (lookup_other k item n m e, append-nil (matching k os)) h)
]

sums-observe :
    (k n : Str) (items os : List OnlineEntry) (g : Merging)
    → SumsUp (matching k os) (lookup k g.entries)
    → SumsUp (matching k (os ++ items)) (lookup k (observe n items g).entries)
unfolding observe
sums-observe k n [] os g h = rw (append-nil os) h
sums-observe k n (item ∷ items) os g h =
    subst (λ l. SumsUp (matching k l) (lookup k (observe n (item ∷ items) g).entries))
      (append_assoc os (item ∷ []) items)
      (sums-observe k n items (os ++ item ∷ []) _ (sums-add k item n os g.entries h))

sums-snapshots :
    (k : Str) (xs : List Snapshot) (os : List OnlineEntry) (g : Merging)
    → SumsUp (matching k os) (lookup k g.entries)
    → SumsUp (matching k (os ++ reported xs)) (lookup k (observe_snapshots xs g).entries)
unfolding observe_snapshots reported
sums-snapshots k [] os g h = rw (append-nil os) h
sums-snapshots k (x ∷ xs) os g h =
    subst (λ l. SumsUp (matching k l) (lookup k (observe_snapshots (x ∷ xs) g).entries))
      (append_assoc os x.items (reported xs))
      (sums-snapshots k xs (os ++ x.items) (observe x.node_id x.items g)
        (sums-observe k x.node_id x.items os g h))

-- For every key, made of an identity and a type, the merged presence has an entry exactly if
-- some node reports it, and the entry sums up all reports of it, those of the node itself and
-- those of all snapshots: it has as many sources as reports, and was last seen at the latest of
-- their times.
pub merge-SumsUp :
    (k : Str) (locals : List OnlineEntry) (xs : List Snapshot) (n : Str)
    → SumsUp (matching k (locals ++ reported xs)) (lookup k (merge locals xs n).entries)
unfolding merge matching lookup
merge-SumsUp k locals xs n = sums-snapshots k xs locals _ (
    sums-observe k (named_node n) locals [] (record { entries = []; meta_ids = []; count = 0 })
      (SumsUp.unseen refl))
