-- ===== src/Metatask/Pools.antt =====
-- The v1.2.0 settlement of a task (internal/metatask/settle.go): pools of pins in replay order, the
-- main view, and the guard view of one node. A pin carries what `resolvePayload` gives for its
-- bytes; a rejected payload reads as an object without fields.
pub mod Guard
pub mod Agree
pub mod Report
use metaso_p2p.Prelude.{
  ℕ, Bool, true, false, not, ◌&&◌, ◌||◌, ◌+◌, Option, none, some, List, [], ◌∷◌, ◌++◌,
  if◌then◌else◌,
}
use metaso_p2p.Prelude.Int.{ℤ, pos, ltb_ℤ, eqb_ℤ, max_int64}
use metaso_p2p.Prelude.Text.{Str, codes, str_eq, is_empty}
use metaso_p2p.Prelude.Assoc.{Assoc, lookup, insert, without}
use metaso_p2p.Prelude.Sort.{sort_stable}
use metaso_p2p.Metatask.Json.{
  Float, Json, array, object, Fields, get, to_list, payload_string, payload_present, payload_number,
}
use metaso_p2p.Metatask.Event.{EventPath, claim, OrdKey, ord_less}
use metaso_p2p.Metatask.Votes.{Reason, missing_semantic_check, missing_failreason}

pub record Pin : Type 0 where
  pub id : Str
  pub path : EventPath
  pub global_meta_id : Str
  pub genesis_height : ℤ
  pub tx_index : ℤ
  pub timestamp : ℤ
  pub seen_time : ℤ
  pub accepted : Bool
  pub payload : Fields

-- `OrderKey`
unfoldable pub order_key : Pin → OrdKey
order_key p = record {
  h = if ltb_ℤ p.genesis_height (pos 0) then pos max_int64 else p.genesis_height;
  tx = if ltb_ℤ p.tx_index (pos 0) then pos 0 else p.tx_index;
  ts = if eqb_ℤ p.seen_time (pos 0) then p.timestamp else p.seen_time;
  pin = p.id;
}

unfoldable pub order_less : Pin → Pin → Bool
unfolding order_key ord_less
order_less a b = ord_less (order_key a) (order_key b)

unfoldable pub pin_timestamp : Pin → ℤ
pin_timestamp p = if eqb_ℤ p.timestamp (pos 0) then p.seen_time else p.timestamp

abbrev pub read : Pin → Str → Str
read p key = payload_string (get p.payload key)

-- `voteInvalid`; `none` is the empty string.
unfoldable pub vote_invalid : Fields → Option Reason
vote_invalid b =
    if not (payload_present (get b (codes "semantic_check")))
    then some missing_semantic_check
    else if str_eq (payload_string (get b (codes "verdict"))) (codes "fail")
        && not (payload_present (get b (codes "failreason")))
    then some missing_failreason
    else none

pub record HolderRecord : Type 0 where
  pub pin : Str
  pub claimant : Str
  pub t0 : ℤ
  pub inflight : Bool

pub record SubmissionRecord : Type 0 where
  pub pin : Str
  pub author : Str
  pub claim_id : Str
  pub t : ℤ
  pub body : Fields

unfoldable pub keep_pins : (Pin → Bool) → List Pin → List Pin
keep_pins keep [] = []
keep_pins keep (p ∷ pins) = let rest = keep_pins keep pins in if keep p then p ∷ rest else rest

-- `sortedPins`
unfoldable pub sorted_pins : List Pin → List Pin
unfolding keep_pins order_less sort_stable
sorted_pins pins = sort_stable order_less (keep_pins (λ p. p.accepted) pins)

-- `findPin`
unfoldable pub find_pin : Str → List Pin → Option Pin
find_pin id [] = none
find_pin id (p ∷ pins) = if str_eq p.id id then some p else find_pin id pins

int_of : (ℤ → ℤ) → ℤ → Option Float → ℤ
int_of to_int absent none = absent
int_of to_int absent (some f) = to_int f.trunc

-- `policyInt`. `to_int` is the conversion `int(f)`, which Go leaves to the implementation out of range.
unfoldable pub policy_int : (ℤ → ℤ) → Fields → Str → ℤ → ℤ
unfolding int_of
policy_int to_int policy key absent = int_of to_int absent (payload_number (get policy key))

unfoldable pub one_of : List Str → Str → Bool
one_of [] k = false
one_of (s ∷ seen) k = if str_eq s k then true else one_of seen k

-- The ids of objects, once each.
unfoldable pub node_ids_from : List Str → List Json → List Str
unfolding one_of
node_ids_from seen [] = []
node_ids_from seen (object n ∷ ns) =
    let id = payload_string (get n (codes "id")) in
    let others = node_ids_from seen ns in
    let after = node_ids_from (id ∷ seen) ns in
    if is_empty id || one_of seen id then others else id ∷ after
node_ids_from seen (_ ∷ ns) = node_ids_from seen ns

nodes_field : Option Json → List Json
nodes_field (some (array ns)) = to_list ns
nodes_field _ = []

-- `treeNodeIDs`
unfoldable pub tree_node_ids : Fields → List Str
unfolding node_ids_from nodes_field
tree_node_ids payload = node_ids_from [] (nodes_field (get payload (codes "nodes")))

-- The pools of a task, and the maps of the main view.
pub record Pools : Type 0 where
  pub root : Str
  pub root_author : Str
  pub quorum : ℤ
  pub tree_nodes : List Str
  pub claims : List Pin
  pub releases : List Pin
  pub subs_pins : List Pin
  pub verifies : List Pin

unfoldable pub in_task : Str → Pin → Bool
in_task root p = str_eq (read p (codes "taskid")) root

-- The claims and the releases of the task in one order.
unfoldable pub claims_timeline : Pools → List Pin
unfolding keep_pins in_task order_less sort_stable
claims_timeline s =
    sort_stable order_less
      (keep_pins (in_task s.root) s.claims ++ keep_pins (in_task s.root) s.releases)

abbrev pub is_claim : EventPath → Bool
is_claim claim = true
is_claim _ = false

-- One round of `walkClaims`.
unfoldable pub walk_claim : Assoc HolderRecord → Pin → Assoc HolderRecord
walk_claim holders p =
    let node = read p (codes "node") in
    if is_empty node
    then holders
    else if is_claim p.path
    then elim (lookup node holders) [
      | some _ ↦ holders
      | none ↦
          insert node
            (record {
              pin = p.id;
              claimant = p.global_meta_id;
              t0 = pin_timestamp p;
              inflight = false;
            })
            holders
    ]
    else elim (lookup node holders) [
      | none ↦ holders
      | some h ↦ if str_eq h.pin (read p (codes "claimid")) then without node holders else holders
    ]

unfoldable pub walk_claims_from : Assoc HolderRecord → List Pin → Assoc HolderRecord
unfolding walk_claim
walk_claims_from holders [] = holders
walk_claims_from holders (p ∷ timeline) = walk_claims_from (walk_claim holders p) timeline

-- `walkClaims`
unfoldable pub walk_claims : Pools → Assoc HolderRecord
unfolding claims_timeline walk_claims_from
walk_claims s = walk_claims_from [] (claims_timeline s)

unfoldable pub record_of : Pin → SubmissionRecord
record_of p = record {
  pin = p.id;
  author = p.global_meta_id;
  claim_id = read p (codes "claimid");
  t = pin_timestamp p;
  body = p.payload;
}

-- One round of `walkSubmissions`.
unfoldable pub walk_submission :
    Str → Assoc HolderRecord → Assoc SubmissionRecord → Pin → Assoc SubmissionRecord
unfolding in_task record_of
walk_submission root holders subs p =
    let node = read p (codes "node") in
    if not (in_task root p) then subs else elim (lookup node holders) [
      | none ↦ subs
      | some h ↦
          if not (str_eq h.pin (read p (codes "claimid")))
          then subs
          else elim (lookup node subs) [ some _ ↦ subs | none ↦ insert node (record_of p) subs ]
    ]

-- `walkSubmissions`
unfoldable pub walk_submissions :
    Str → Assoc HolderRecord → Assoc SubmissionRecord → List Pin → Assoc SubmissionRecord
unfolding walk_submission
walk_submissions root holders subs [] = subs
walk_submissions root holders subs (p ∷ pins) =
    walk_submissions root holders (walk_submission root holders subs p) pins
