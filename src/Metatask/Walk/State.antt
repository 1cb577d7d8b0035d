-- ===== src/Metatask/Walk/State.antt =====
-- The state of the walk: cycles, holders, and what `walkState` of internal/metatask/v121.go keeps.
use metaso_p2p.Prelude.{ℕ, Bool, false, not, Option, none, some, List, [], ◌∷◌, ◌++◌}
use metaso_p2p.Prelude.Int.{ℤ}
use metaso_p2p.Prelude.Text.{Str, codes}
use metaso_p2p.Prelude.Assoc.{Assoc, lookup, insert, without, flag}
use metaso_p2p.Metatask.Json.{Fields, field_str}
use metaso_p2p.Metatask.Event.{ChainEvent, OrdKey}
use metaso_p2p.Metatask.Votes.{Reason, IgnoredEvent}

pub record CycleSubmission : Type 0 where
  pub pin_id : Str
  pub author : Str
  pub at_ms : ℤ
  pub height : ℤ
  pub supersede_id : Str
  pub body : Fields

-- The outcomes that the walk gives to a cycle.
pub data CycleOutcome : Type 0 where
  open_cycle verified_cycle fail_rejected : CycleOutcome

pub record Cycle : Type 0 where
  pub node : Str
  pub claim_id : Str
  pub claimant : Str
  pub submissions : List CycleSubmission
  pub effective : Option CycleSubmission
  pub superseded : Assoc Bool
  pub outcome : CycleOutcome
  pub quorum_at_ms : ℤ

pub record Holder : Type 0 where
  pub pin_id : Str
  pub claimant : Str
  pub since_ms : ℤ
  pub height : ℤ

pub data NodeOutcome : Type 0 where
  no_outcome released rejected expired_claim expired_review_window : NodeOutcome

pub record WalkState : Type 0 where
  pub holders : Assoc Holder
  pub first_claim_order : Assoc OrdKey
  pub effective_claim_counts : Assoc ℕ
  pub cycles : List Cycle
  pub cycle_by_node_claim : Assoc ℕ
  pub verified_submission_pins : Assoc Bool
  pub pass_voters_by_node : Assoc (Assoc Str)
  pub node_of_live_target : Assoc Str
  pub claim_events_by_node : Assoc (List ChainEvent)
  pub release_events_by_node : Assoc (List ChainEvent)
  pub claim_counted : Assoc Bool
  pub release_counted : Assoc Bool
  pub submission_cycle : Assoc ℕ
  pub node_outcome : Assoc NodeOutcome
  pub reached_vote : Assoc Bool
  pub ignored_events : List IgnoredEvent

abbrev pub new_walk : WalkState
new_walk = record {
  holders = [];
  first_claim_order = [];
  effective_claim_counts = [];
  cycles = [];
  cycle_by_node_claim = [];
  verified_submission_pins = [];
  pass_voters_by_node = [];
  node_of_live_target = [];
  claim_events_by_node = [];
  release_events_by_node = [];
  claim_counted = [];
  release_counted = [];
  submission_cycle = [];
  node_outcome = [];
  reached_vote = [];
  ignored_events = [];
}

-- What the closures of `runWalk` capture, and its argument `inTree`.
pub record WalkContext : Type 0 where
  pub root_author : Str
  pub quorum : ℕ
  pub h_act2 : ℤ
  pub sub_author_by_pin : Assoc Str
  pub last_vote_by_pin : Assoc ChainEvent
  pub in_tree : Option (Assoc Bool)

unfoldable pub ghost : WalkContext → Str → Bool
ghost ctx node = elim ctx.in_tree [ none ↦ false | some tree_ids ↦ not (flag node tree_ids) ]

abbrev pub node_field : ChainEvent → Str
node_field pin = field_str pin.body (codes "node")

abbrev pub claim_field : ChainEvent → Str
claim_field pin = field_str pin.body (codes "claimid")

abbrev pub count_at : Str → Assoc ℕ → ℕ
count_at k m = elim (lookup k m) [ none ↦ 0 | some n ↦ n ]

abbrev pub voters_at : Str → Assoc (Assoc Str) → Assoc Str
voters_at k m = elim (lookup k m) [ none ↦ [] | some vs ↦ vs ]

unfoldable pub ignore_event : WalkState → Str → Reason → WalkState
ignore_event w pin reason = record w {
  ignored_events = w.ignored_events ++ record { pin_id = pin; reason = reason } ∷ [];
}

-- `delete(w.holders, node)` with the voters of the cycle, and the node's last outcome.
unfoldable pub free_node : WalkState → Str → NodeOutcome → WalkState
free_node w node outcome = record w {
  holders = without node w.holders;
  pass_voters_by_node = without node w.pass_voters_by_node;
  node_outcome = insert node outcome w.node_outcome;
}

-- `activeCycles`: the latest cycle of each node.
unfoldable pub active_cycles : Assoc Cycle → List Cycle → Assoc Cycle
active_cycles m [] = m
active_cycles m (c ∷ cycles) = active_cycles (insert c.node c m) cycles
