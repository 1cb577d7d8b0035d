-- ===== src/Indexer/Mempool.antt =====
-- What the mempool poll has seen (internal/indexer/engine.go). strings.TrimSpace is a parameter; a time
-- is an integer, as is the time to live of what was seen.
use metaso_p2p.Prelude.{
  ℕ, suc, ◌+◌, Bool, true, false, not, ◌&&◌, ◌||◌, Option, none, some, List, [], ◌∷◌, ◌++◌,
  if◌then◌else◌, length, take, drop, leb, ◌==◌,
}
use metaso_p2p.Prelude.Int.{ℤ, pos, ◌-ℤ◌, ltb_ℤ, leb_ℤ}
use metaso_p2p.Prelude.Text.{Str, codes, str_eq, is_empty}
use metaso_p2p.Prelude.Assoc.{Assoc, lookup, insert}
use metaso_p2p.Storage.Keys.{has_prefix}
use metaso_p2p.Indexer.Blocks.{PinInscription}

pub record Mempool : Type 0 where
  pub dedupe_ttl : ℤ
  pub seen : Assoc ℤ
  pub tx_seen : Assoc ℤ

-- chainName + ":" + id
unfoldable pub seen_key : Str → Str → Str
seen_key chain_name id = chain_name ++ codes ":" ++ id

unfoldable pub past_ttl : ℤ → ℤ → ℤ → Bool
past_ttl ttl now at = ltb_ℤ (pos 0) ttl && ltb_ℤ ttl (now -ℤ at)

-- The entries that have not passed their time to live.
unfoldable pub drop_expired : ℤ → ℤ → Assoc ℤ → Assoc ℤ
unfolding past_ttl
drop_expired ttl now [] = []
drop_expired ttl now ((key, at) ∷ m) =
    let rest = drop_expired ttl now m in if past_ttl ttl now at then rest else (key, at) ∷ rest

-- A key that was seen within its time to live; a time to live of 0 or less has no end.
unfoldable pub seen_recently : ℤ → ℤ → Str → Assoc ℤ → Bool
seen_recently ttl now key m = elim (lookup key m) [
  | none ↦ false
  | some at ↦ leb_ℤ ttl (pos 0) || leb_ℤ (now -ℤ at) ttl
]

unfoldable pub is_added {ℓ} : {V : Type ℓ} → Str → Assoc V → Bool
is_added key m = elim (lookup key m) [ none ↦ false | some _ ↦ true ]

module _ (trim : Str → Str) (chain_name : Str) where
  unfoldable pub pending_of : ℤ → ℤ → Assoc ℤ → Assoc Bool → List Str → List Str
  unfolding seen_key seen_recently is_added
  pending_of ttl now m added [] = []
  pending_of ttl now m added (tx_id ∷ tx_ids) =
      let id = trim tx_id in
      let key = seen_key chain_name id in
      let skipped = pending_of ttl now m added tx_ids in
      let rest = pending_of ttl now m (insert key true added) tx_ids in
      if is_empty id
      then skipped
      else if is_added key added
      then skipped
      else if seen_recently ttl now key m
      then skipped
      else id ∷ rest

  -- `filterUnseenMempoolTxIDs`
  unfoldable pub filter_unseen : List Str → ℤ → Mempool → Mempool × List Str
  unfolding drop_expired pending_of
  filter_unseen tx_ids now s =
      let m = drop_expired s.dedupe_ttl now s.tx_seen in
      (record s { tx_seen = m }, pending_of s.dedupe_ttl now m [] tx_ids)

  unfoldable pub mark_all : List Str → ℤ → Assoc ℤ → Assoc ℤ
  unfolding seen_key
  mark_all [] now m = m
  mark_all (tx_id ∷ tx_ids) now m =
      if is_empty (trim tx_id)
      then mark_all tx_ids now m
      else mark_all tx_ids now (insert (seen_key chain_name (trim tx_id)) now m)

  -- `markMempoolTxIDsSeen`
  unfoldable pub mark_seen : List Str → ℤ → Mempool → Mempool
  unfolding mark_all
  mark_seen tx_ids now s = record s { tx_seen = mark_all tx_ids now s.tx_seen }

-- `strings.Index` and `strings.LastIndex` of one byte.
unfoldable pub index_of : ℕ → Str → Option ℕ
index_of b [] = none
index_of b (c ∷ s) =
    let rest = index_of b s in
    if c == b then some 0 else elim rest [ none ↦ none | some i ↦ some (suc i) ]

unfoldable pub last_index_of : ℕ → Str → Option ℕ
last_index_of b [] = none
last_index_of b (c ∷ s) =
    let rest = last_index_of b s in
    elim rest [ some i ↦ some (suc i) | none ↦ if c == b then some 0 else none ]

unfoldable pub all_digits : Str → Bool
all_digits [] = true
all_digits (c ∷ s) = let rest = all_digits s in leb 48 c && leb c 57 && rest

module _ (trim : Str → Str) where
  -- The part of a pin id of the form <transaction>i<number>.
  unfoldable pub tx_of_suffix : Str → Str
  unfolding last_index_of all_digits
  tx_of_suffix pin_id = elim (last_index_of 105 pin_id) [
    | none ↦ []
    | some i ↦
        if i == 0 || i + 1 == length pin_id
        then []
        else if all_digits (drop (i + 1) pin_id)
        then trim (take i pin_id)
        else []
  ]

  -- `mempoolTxIDFromPinID`
  unfoldable pub tx_id_from_pin_id : Str → Str
  unfolding index_of tx_of_suffix
  tx_id_from_pin_id pin_id =
      let by_suffix = tx_of_suffix pin_id in
      elim (index_of 58 pin_id) [
        | none ↦ by_suffix
        | some i ↦ if i == 0 then by_suffix else trim (take i pin_id)
      ]

  unfoldable pub tx_of_list : Str → List Str → Str
  unfolding has_prefix
  tx_of_list pin_id [] = pin_id
  tx_of_list pin_id (tx_id ∷ tx_ids) =
      let id = trim tx_id in
      let rest = tx_of_list pin_id tx_ids in
      if not (is_empty id)
        && (str_eq pin_id id
            || has_prefix (id ++ codes "i") pin_id
            || has_prefix (id ++ codes ":") pin_id)
      then id
      else rest

  -- `mempoolStableIDForPin`
  unfoldable pub stable_id : PinInscription → List Str → Str
  unfolding tx_id_from_pin_id tx_of_list
  stable_id pin tx_ids =
      let genesis = trim pin.genesis_transaction in
      let pin_id = trim pin.id in
      let tx_id = tx_id_from_pin_id pin_id in
      if not (is_empty genesis)
      then genesis
      else if not (is_empty tx_id)
      then tx_id
      else tx_of_list pin_id tx_ids

  -- The pins that pass and the keys that are new, from the first pin on.
  unfoldable pub new_pins :
      Str
      → ℤ
      → ℤ
      → Assoc ℤ
      → List Str
      → Assoc ℤ
      → List PinInscription
      → List PinInscription × Assoc ℤ
  unfolding seen_key seen_recently is_added stable_id
  new_pins chain_name ttl now m tx_ids new_keys [] = ([], new_keys)
  new_pins chain_name ttl now m tx_ids new_keys (pin ∷ pins) =
      let id = stable_id pin tx_ids in
      let key = seen_key chain_name id in
      let skipped = new_pins chain_name ttl now m tx_ids new_keys pins in
      let rest = new_pins chain_name ttl now m tx_ids (insert key now new_keys) pins in
      if is_empty id
      then (pin ∷ skipped.0, skipped.1)
      else if seen_recently ttl now key m
      then skipped
      else if is_added key new_keys
      then skipped
      else (pin ∷ rest.0, rest.1)

  unfoldable pub insert_all : Assoc ℤ → Assoc ℤ → Assoc ℤ
  insert_all [] m = m
  insert_all ((key, at) ∷ new_keys) m = insert_all new_keys (insert key at m)

  -- `filterSeenMempoolPins`
  unfoldable pub filter_seen_pins :
      Str → List PinInscription → List Str → ℤ → Mempool → Mempool × List PinInscription
  unfolding drop_expired new_pins insert_all
  filter_seen_pins chain_name pins tx_ids now s =
      let m = drop_expired s.dedupe_ttl now s.seen in
      let (filtered, new_keys) = new_pins chain_name s.dedupe_ttl now m tx_ids [] pins in
      (record s { seen = insert_all new_keys m }, filtered)
