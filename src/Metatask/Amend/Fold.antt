-- ===== src/Metatask/Amend/Fold.antt =====
-- The loops of `foldAmends`: the operations of an amendment, and the amendments of a task.
use metaso_p2p.Prelude.{
  ℕ, Bool, true, false, not, ◌&&◌, Option, none, some, List, [], ◌∷◌, ◌++◌, if◌then◌else◌, ◌==◌,
}
use metaso_p2p.Prelude.Int.{ltb_ℤ}
use metaso_p2p.Prelude.Text.{Str, codes, str_eq}
use metaso_p2p.Prelude.Assoc.{Assoc, insert, flag}
use metaso_p2p.Metatask.Json.{Json, array, object, get, to_list, field_str}
use metaso_p2p.Metatask.Event.{ChainEvent, OrdKey, ord_key_of}
use metaso_p2p.Metatask.Votes.{
  Reason, IgnoredEvent, below_h_act2, amend_not_publisher, amend_task_finalized, amend_stale,
  amend_conflict, amend_invariant_violation,
}
use metaso_p2p.Metatask.Shares.{TreeNode}
use metaso_p2p.Metatask.Amend.{
  sum_weights, is_acyclic, AmendRules, OpsResult, failed, hangs, edited, apply_op,
}

-- The operations in turn; an entry that is no object fails.
unfoldable pub apply_ops :
    AmendRules → OrdKey → ℕ → Assoc TreeNode → List Json → Assoc TreeNode → List Str → OpsResult
apply_ops r key fuel nodes [] scratch order = edited scratch order
apply_ops r key fuel nodes (object op ∷ ops) scratch order =
    elim (apply_op r key fuel nodes op scratch order) [
      | failed ↦ failed
      | hangs ↦ hangs
      | edited scratch' order' ↦ apply_ops r key fuel nodes ops scratch' order'
    ]
apply_ops r key fuel nodes (_ ∷ ops) scratch order = failed

unfoldable pub ops_of : Option Json → List Json
ops_of (some (array ops)) = to_list ops
ops_of _ = []

pub record AmendState : Type 0 where
  pub nodes : Assoc TreeNode
  pub node_order : List Str
  pub ignored : List IgnoredEvent
  pub taken_bases : Assoc Bool
  pub head : Str

-- The reason for which an amendment is ignored before its operations are looked at.
unfoldable pub amend_guard : AmendRules → AmendState → ChainEvent → Option Reason
amend_guard r s amend =
    let bases = field_str amend.body (codes "bases") in
    if ltb_ℤ amend.height r.h_act2
    then some below_h_act2
    else if not (str_eq amend.author r.root_author)
    then some amend_not_publisher
    else if r.root_verified
    then some amend_task_finalized
    else if not (str_eq bases s.head)
    then some (if flag bases s.taken_bases then amend_conflict else amend_stale)
    else none

unfoldable pub ignore_amend : AmendState → ChainEvent → Reason → AmendState
ignore_amend s amend reason = record s {
  ignored = s.ignored ++ record { pin_id = amend.pin_id; reason = reason } ∷ [];
}

unfoldable pub is_total : Option ℕ → Bool
is_total none = false
is_total (some total) = total == 10000

-- The invariants of the fold.
unfoldable pub tree_valid : Assoc TreeNode → Bool
unfolding is_total
tree_valid nodes = is_total (sum_weights nodes) && is_acyclic nodes

-- `none`: the loop over descendants has used up its fuel.
unfoldable pub commit_amend : AmendState → ChainEvent → OpsResult → Option AmendState
unfolding ignore_amend tree_valid
commit_amend s amend failed = some (ignore_amend s amend amend_invariant_violation)
commit_amend s amend hangs = none
commit_amend s amend (edited scratch order) =
    if tree_valid scratch
    then some (record s { nodes = scratch; node_order = order; head = amend.pin_id })
    else some (ignore_amend s amend amend_invariant_violation)

unfoldable pub amend_step : AmendRules → ℕ → AmendState → ChainEvent → Option AmendState
unfolding amend_guard ignore_amend commit_amend apply_ops ops_of
amend_step r fuel s amend = elim (amend_guard r s amend) [
  | some reason ↦ some (ignore_amend s amend reason)
  | none ↦
      let taken = record s {
        taken_bases = insert (field_str amend.body (codes "bases")) true s.taken_bases;
      } in
      commit_amend taken amend (
        apply_ops r (ord_key_of amend) fuel s.nodes (ops_of (get amend.body (codes "ops"))) s.nodes
          s.node_order)
]

unfoldable pub fold_from : AmendRules → ℕ → AmendState → List ChainEvent → Option AmendState
unfolding amend_step
fold_from r fuel s [] = some s
fold_from r fuel s (amend ∷ amends) = elim (amend_step r fuel s amend) [
  | none ↦ none
  | some s' ↦ fold_from r fuel s' amends
]

unfoldable pub fold_amends :
    AmendRules → ℕ → Str → Assoc TreeNode → List Str → List ChainEvent → Option AmendState
unfolding fold_from
fold_amends r fuel tree_pin initial order amends =
    fold_from r fuel
      (record {
        nodes = initial;
        node_order = order;
        ignored = [];
        taken_bases = [];
        head = tree_pin;
      })
      amends
