-- ===== src/Agentpedia/Reviews.antt =====
-- `entryKeyOfRev`, `applyReview` and `applyChallenge` (internal/agentpedia/replay.go).
use metaso_p2p.Prelude.{
  ℕ, Bool, true, false, ◌&&◌, ◌||◌, not, none, some, List, [], ◌∷◌, ◌++◌, if◌then◌else◌,
}
use metaso_p2p.Prelude.Text.{Str, codes, str_eq, str_ltb, is_empty}
use metaso_p2p.Prelude.Assoc.{Assoc, lookup, insert, keys}
use metaso_p2p.Agentpedia.Value.{str}
use metaso_p2p.Agentpedia.State.{
  Event, unregistered, review_target_unresolvable, self_review, challenge_target_unresolvable,
  self_challenge, Review, State,
}
use metaso_p2p.Agentpedia.Store.{
  grave, record_at, change_record, entry_at, version_at, has_version, ranged,
}
use metaso_p2p.Agentpedia.Access.{Context, is_active}

abbrev holds : Str → State → ℕ → Bool
holds rev s i = has_version rev (record_at i s)

-- The entryKey that the first visited entry with the version recorded for it.
unfoldable pub recorded_key : Str → State → List (Str × ℕ) → Str
recorded_key rev s [] = []
recorded_key rev s ((key, i) ∷ ens) =
    if holds rev s i then (version_at rev (record_at i s)).entry_key else recorded_key rev s ens

-- The smallest key of an entry that has the version.
unfoldable pub smallest_key : Str → State → Str → List (Str × ℕ) → Str
smallest_key rev s best [] = best
smallest_key rev s best ((key, i) ∷ ens) =
    smallest_key rev s (if holds rev s i && (is_empty best || str_ltb key best) then key else best)
      ens

-- The recorded key is one under which the version is found.
unfoldable pub resolves : Str → Str → State → Bool
resolves rev recorded s =
    not (is_empty recorded)
    && elim (lookup recorded s.entries) [ none ↦ false | some i ↦ holds rev s i ]

-- `entryKeyOfRev`, with the order in which the `range` visits the entries.
unfoldable pub entry_key_of_rev : (List Str → List Str) → Str → State → Str
unfolding recorded_key smallest_key resolves
entry_key_of_rev order rev s =
    let visited = ranged (order (keys s.entries)) s.entries in
    let recorded = recorded_key rev s visited in
    if is_empty rev
    then []
    else if resolves rev recorded s
    then recorded
    else smallest_key rev s [] visited

-- s.entries[key].versions[rev].Author
abbrev pub author_of : Str → Str → State → Str
author_of key rev s = elim (entry_at key s) [ none ↦ [] | some en ↦ (version_at rev en).author ]

abbrev reviews_of : Str → Assoc (List Review) → List Review
reviews_of rev m = elim (lookup rev m) [ none ↦ [] | some rs ↦ rs ]

-- `applyReview`
unfoldable pub apply_review : (List Str → List Str) → Event → State → State
unfolding entry_key_of_rev
apply_review order ev s =
    let rev = str ev.payload (codes "targetRev") in
    let key = entry_key_of_rev order rev s in
    let review : Review = record { pin = ev.pin; reviewer = ev.sender } in
    if is_empty key
    then grave ev.pin review_target_unresolvable s
    else if str_eq (author_of key rev s) ev.sender
    then grave ev.pin self_review s
    else record s {
      reviews_by_target =
          insert rev (reviews_of rev s.reviews_by_target ++ review ∷ []) s.reviews_by_target;
      all_reviews = s.all_reviews ++ review ∷ [];
    }

-- disputed[rev] = true, at the record of a key.
unfoldable pub dispute : Str → Str → State → State
unfolding change_record
dispute key rev s = elim (lookup key s.entries) [
  | none ↦ s
  | some i ↦ change_record i (λ en. record en { disputed = insert rev true en.disputed }) s
]

-- `applyChallenge`
unfoldable pub apply_challenge : Context → (List Str → List Str) → Event → State → State
unfolding entry_key_of_rev is_active dispute
apply_challenge ctx order ev s =
    let rev = str ev.payload (codes "targetRev") in
    let key = entry_key_of_rev order rev s in
    let disputed = dispute key rev s in
    if is_empty key
    then grave ev.pin challenge_target_unresolvable s
    else if not (is_active ctx s ev.sender ev.height)
    then grave ev.pin unregistered s
    else if str_eq (author_of key rev s) ev.sender
    then grave ev.pin self_challenge s
    else record disputed {
      challenges =
          insert ev.pin (record { target_rev = rev; challenger = ev.sender; entry_key = key })
            s.challenges;
    }
