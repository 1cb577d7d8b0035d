-- ===== src/Metatask/Amend.antt =====
-- `foldAmends` (internal/metatask/v121.go): the amendments of a task fold into its tree. The loop of
-- remove_node over descendants has fuel; `hangs` is a loop that has used it up.
pub mod Fold
pub mod Acyclic
pub mod Trees
pub mod Kept
pub mod Frozen
pub mod Hangs
pub mod Endless
use metaso_p2p.Prelude.{
  ℕ, zero, suc, Bool, true, false, not, ◌&&◌, ◌||◌, Option, none, some, List, [], ◌∷◌, ◌++◌,
  if◌then◌else◌, length, ◌+◌, ◌==◌,
}
use metaso_p2p.Prelude.Int.{ltb_ℤ}
use metaso_p2p.Prelude.Text.{Str, codes, str_eq, is_empty}
use metaso_p2p.Prelude.Assoc.{Assoc, lookup, insert, without, flag}
use metaso_p2p.Prelude.Int.{ℤ}
use metaso_p2p.Metatask.Json.{
  Json, text, array, object, Fields, end, get, to_list, str_any, field_str, truthy_str_any, num_any,
}
use metaso_p2p.Metatask.Event.{ChainEvent, OrdKey, ord_key_of, ord_less}
use metaso_p2p.Metatask.Votes.{
  Reason, IgnoredEvent, below_h_act2, amend_not_publisher, amend_task_finalized, amend_stale,
  amend_conflict, amend_invariant_violation,
}
use metaso_p2p.Metatask.Shares.{TreeNode, weight_of, tree_node_weight}

-- `v121SumWeights`; -1 is `none`.
unfoldable pub sum_weights : Assoc TreeNode → Option ℕ
sum_weights [] = some 0
sum_weights ((_, n) ∷ nodes) = elim (tree_node_weight n) [
  | none ↦ none
  | some w ↦ elim (sum_weights nodes) [ none ↦ none | some total ↦ some (w + total) ]
]

unfoldable pub seen_before : List Str → Str → Bool
seen_before [] k = false
seen_before (s ∷ seen) k = if str_eq s k then true else seen_before seen k

-- Up the parents from `cursor`: whether the way ends, `none` if the fuel does first.
unfoldable pub climb : Assoc TreeNode → ℕ → List Str → Str → Option Bool
unfolding seen_before
climb nodes zero seen cursor = none
climb nodes (suc fuel) seen cursor =
    if is_empty cursor
    then some true
    else if seen_before seen cursor
    then some false
    else elim (lookup cursor nodes) [
      | none ↦ some true
      | some n ↦ elim n.parent [
        | none ↦ some true
        | some parent ↦ climb nodes fuel (cursor ∷ seen) parent
      ]
    ]

unfoldable pub ends : Option Bool → Bool
ends none = false
ends (some b) = b

unfoldable pub all_end : Assoc TreeNode → Assoc TreeNode → Bool
unfolding climb ends
all_end nodes [] = true
all_end nodes ((start, _) ∷ starts) =
    ends (climb nodes (length nodes + 2) [] start) && all_end nodes starts

-- `v121IsAcyclic`
unfoldable pub is_acyclic : Assoc TreeNode → Bool
unfolding all_end
is_acyclic nodes = all_end nodes nodes

-- What the fold reads beside the amendments.
pub record AmendRules : Type 0 where
  pub root_author : Str
  pub first_claim_order : Assoc OrdKey
  pub verified_node_ids : Assoc Bool
  pub active_cycle_nodes : Assoc Bool
  pub root_verified : Bool
  pub h_act2 : ℤ

unfoldable pub frozen_at : AmendRules → Str → OrdKey → Bool
frozen_at r node key = elim (lookup node r.first_claim_order) [
  | none ↦ false
  | some first ↦ ord_less first key
]

pub data OpsResult : Type 0 where
  failed hangs : OpsResult
  edited : Assoc TreeNode → List Str → OpsResult

as_object : Option Json → Option Fields
as_object (some (object fs)) = some fs
as_object _ = none

-- `raw`: the new node, under either name.
unfoldable pub new_node : Fields → Option Fields
unfolding as_object
new_node op = elim (as_object (get op (codes "newNode"))) [
  | none ↦ as_object (get op (codes "node"))
  | some raw ↦ some raw
]

texts : List Json → List Str
texts [] = []
texts (text s ∷ vs) = s ∷ texts vs
texts (_ ∷ vs) = texts vs

texts_of : Option Json → List Str
unfolding texts
texts_of (some (array vs)) = texts (to_list vs)
texts_of _ = []

params_of : Option Json → Fields
params_of (some (object fs)) = fs
params_of _ = end

spec_of : Option Json → Option Str
spec_of (some (text s)) = some s
spec_of _ = none

unfoldable pub node_of : Fields → TreeNode
unfolding texts_of params_of spec_of
node_of raw = record {
  id = field_str raw (codes "id");
  parent = some (field_str raw (codes "parent"));
  title = field_str raw (codes "title");
  kind = let kind = field_str raw (codes "kind") in if is_empty kind then codes "proof" else kind;
  spec_id = spec_of (get raw (codes "specid"));
  params = params_of (get raw (codes "params"));
  deps = texts_of (get raw (codes "deps"));
  weight = get raw (codes "weight");
}

abbrev pub has_node : Str → Assoc TreeNode → Bool
has_node k m = elim (lookup k m) [ none ↦ false | some _ ↦ true ]

unfoldable pub add_node :
    AmendRules → Assoc TreeNode → Assoc TreeNode → List Str → Fields → OpsResult
unfolding new_node node_of
add_node r nodes scratch order op = elim (new_node op) [
  | none ↦ failed
  | some raw ↦
      let n = node_of raw in
      let parent = field_str raw (codes "parent") in
      if is_empty n.id || has_node n.id nodes || has_node n.id scratch
      then failed
      else if not (has_node parent scratch || has_node parent nodes)
          || flag parent r.verified_node_ids
          || flag parent r.active_cycle_nodes
      then failed
      else edited (insert n.id n scratch) (order ++ n.id ∷ [])
]

is_parent : Str → Option Str → Bool
is_parent cur none = false
is_parent cur (some p) = str_eq p cur

unfoldable pub children_of : Str → Assoc TreeNode → List Str
unfolding is_parent
children_of cur [] = []
children_of cur ((id, n) ∷ m) =
    let rest = children_of cur m in if is_parent cur n.parent then id ∷ rest else rest

-- Whether no descendant on the stack is frozen; `none` if the fuel has not been enough.
unfoldable pub descend : AmendRules → OrdKey → Assoc TreeNode → ℕ → List Str → Option Bool
unfolding children_of frozen_at
descend r key scratch fuel [] = some true
descend r key scratch zero (cur ∷ stack) = none
descend r key scratch (suc fuel) (cur ∷ stack) =
    let rest = descend r key scratch fuel (children_of cur scratch ++ stack) in
    if frozen_at r cur key then some false else rest

-- Without the first occurrence.
unfoldable pub drop_first : Str → List Str → List Str
drop_first k [] = []
drop_first k (id ∷ order) =
    let rest = drop_first k order in if str_eq id k then order else id ∷ rest

unfoldable pub remove_node : AmendRules → OrdKey → ℕ → Str → Assoc TreeNode → List Str → OpsResult
unfolding descend drop_first
remove_node r key fuel k scratch order = elim (lookup k scratch) [
  | none ↦ failed
  | some target ↦ elim target.parent [
    | none ↦ failed
    | some _ ↦ elim (descend r key scratch fuel (k ∷ [])) [
      | none ↦ hangs
      | some false ↦ failed
      | some true ↦ edited (without k scratch) (drop_first k order)
    ]
  ]
]

-- An edit of a node that is there and not frozen.
unfoldable pub edit_node :
    AmendRules → OrdKey → Str → Bool → (TreeNode → TreeNode) → Assoc TreeNode → List Str → OpsResult
unfolding frozen_at
edit_node r key k valid f scratch order = elim (lookup k scratch) [
  | none ↦ failed
  | some target ↦
      if frozen_at r k key || not valid then failed else edited (insert k (f target) scratch) order
]

is_weight : Option Json → Bool
is_weight v = elim (weight_of (num_any v)) [ none ↦ false | some _ ↦ true ]

unfoldable pub apply_op :
    AmendRules → OrdKey → ℕ → Assoc TreeNode → Fields → Assoc TreeNode → List Str → OpsResult
unfolding add_node remove_node edit_node is_weight
apply_op r key fuel nodes op scratch order =
    let kind = field_str op (codes "op") in
    let k = field_str op (codes "node") in
    if str_eq kind (codes "add_node")
    then add_node r nodes scratch order op
    else if str_eq kind (codes "remove_node")
    then remove_node r key fuel k scratch order
    else if str_eq kind (codes "reweight")
    then edit_node r key k (is_weight (get op (codes "weight")))
        (λ t. record t { weight = get op (codes "weight") }) scratch order
    else if str_eq kind (codes "retitle")
    then edit_node r key k (truthy_str_any (get op (codes "title")))
        (λ t. record t { title = field_str op (codes "title") }) scratch order
    else if str_eq kind (codes "respec")
    then edit_node r key k (truthy_str_any (get op (codes "specid")))
        (λ t. record t { spec_id = some (field_str op (codes "specid")) }) scratch order
    else failed
