-- ===== src/Metatask/Amend/Endless.antt =====
-- Two amendments: the second puts a node under its own dangling child, and then removes the child.
use metaso_p2p.Prelude.{ℕ, zero, suc, ◌≡◌, refl, true, false, Option, none, some, List, [], ◌∷◌}
use metaso_p2p.Prelude.Int.{pos}
use metaso_p2p.Prelude.Text.{Str, codes, str_eq}
use metaso_p2p.Prelude.Assoc.{Assoc, lookup, insert, without}
use metaso_p2p.Metatask.Json.{
  Json, text, number, array, object, nil, item, Fields, end, field, get, str_any, num_any, to_list,
}
use metaso_p2p.Metatask.Event.{ChainEvent, OrdKey, amend, ord_key_of}
use metaso_p2p.Metatask.Shares.{TreeNode, tree_node_weight, weight_of}
use metaso_p2p.Metatask.Amend.{
  AmendRules, frozen_at, new_node, node_of, add_node, children_of, descend, remove_node, edit_node,
  apply_op, drop_first, sum_weights, seen_before, climb, all_end, is_acyclic,
}
use metaso_p2p.Metatask.Amend.Fold.{
  apply_ops, ops_of, AmendState, amend_guard, tree_valid, commit_amend, amend_step, fold_from,
  fold_amends,
}

abbrev pub part : Str → Option Str → ℕ → TreeNode
part id parent w = record {
  id = id;
  parent = parent;
  title = id;
  kind = codes "proof";
  spec_id = none;
  params = end;
  deps = [];
  weight = some (number (codes "w") (some (record { trunc = pos w; integral = true })));
}

abbrev pub loop_rules : AmendRules
loop_rules = record {
  root_author = codes "root";
  first_claim_order = [];
  verified_node_ids = [];
  active_cycle_nodes = [];
  root_verified = false;
  h_act2 = pos 0;
}

abbrev pub tree_of_four : Assoc TreeNode
tree_of_four =
    (codes "r", part (codes "r") none 1000)
    ∷ (codes "x", part (codes "x") (some (codes "r")) 3000)
    ∷ (codes "c", part (codes "c") (some (codes "x")) 3000)
    ∷ (codes "d", part (codes "d") (some (codes "r")) 3000)
    ∷ []

unfoldable pub amend_pin : Str → Str → Json → Json → ChainEvent
amend_pin pin bases a b = record {
  pin_id = pin;
  path = amend;
  author = codes "root";
  height = pos 5;
  tx_index = pos 0;
  timestamp_ms = pos 0;
  body = field (codes "bases") (text bases) (field (codes "ops") (array (item a (item b nil))) end);
}

unfoldable pub op_on : Str → Str → Fields → Json
op_on kind node rest =
    object (field (codes "op") (text kind) (field (codes "node") (text node) rest))

unfoldable pub weight_field : ℕ → Fields
weight_field w =
    field (codes "weight") (number (codes "w") (some (record { trunc = pos w; integral = true })))
      end

-- The first removes x, so that c dangles, and gives its weight to d.
unfoldable pub first_amend : ChainEvent
unfolding amend_pin op_on weight_field
first_amend =
    amend_pin (codes "a1") (codes "t") (op_on (codes "remove_node") (codes "x") end)
      (op_on (codes "reweight") (codes "d") (weight_field 6000))

-- The second puts x under c, and removes c.
unfoldable pub second_amend : ChainEvent
unfolding amend_pin op_on weight_field
second_amend =
    amend_pin (codes "a2") (codes "a1")
      (object (
        field (codes "op") (text (codes "add_node")) (
          field (codes "newNode")
            (object (
              field (codes "id") (text (codes "x"))
                (field (codes "parent") (text (codes "c")) (weight_field 1))))
            end)))
      (op_on (codes "remove_node") (codes "c") end)

abbrev pub amends : List ChainEvent
amends = first_amend ∷ second_amend ∷ []

abbrev pub start : AmendState
start = record {
  nodes = tree_of_four;
  node_order = [];
  ignored = [];
  taken_bases = [];
  head = codes "t";
}

-- The tree without x, in which c still has x for its parent.
abbrev pub after_first : AmendState
after_first = record {
  nodes =
      (codes "r", part (codes "r") none 1000)
      ∷ (codes "c", part (codes "c") (some (codes "x")) 3000)
      ∷ (codes "d", part (codes "d") (some (codes "r")) 6000)
      ∷ [];
  node_order = [];
  ignored = [];
  taken_bases = (codes "t", true) ∷ [];
  head = codes "a1";
}

first_done :
    (fuel : ℕ) → amend_step loop_rules (suc (suc (suc fuel))) start first_amend ≡ some after_first
unfolding amend_step first_amend amend_pin op_on weight_field str_eq get str_any num_any to_list
    lookup insert without tree_node_weight weight_of frozen_at new_node node_of add_node children_of
    descend remove_node edit_node apply_op drop_first sum_weights seen_before climb all_end
    is_acyclic apply_ops ops_of amend_guard tree_valid commit_amend
first_done fuel = refl

-- The tree with x under c and c under x.
abbrev pub tree_with_loop : Assoc TreeNode
tree_with_loop =
    (codes "r", part (codes "r") none 1000)
    ∷ (codes "c", part (codes "c") (some (codes "x")) 3000)
    ∷ (codes "d", part (codes "d") (some (codes "r")) 6000)
    ∷ (codes "x", record (part (codes "x") (some (codes "c")) 1) { title = [] })
    ∷ []

descend-loops :
    (key : OrdKey) (fuel : ℕ)
    → (descend loop_rules key tree_with_loop fuel (codes "c" ∷ []) ≡ none)
      × (descend loop_rules key tree_with_loop fuel (codes "x" ∷ []) ≡ none)
unfolding descend children_of frozen_at lookup str_eq
descend-loops key zero = (refl, refl)
descend-loops key (suc fuel) = ((descend-loops key fuel).1, (descend-loops key fuel).0)

second_hangs : (fuel : ℕ) → amend_step loop_rules fuel after_first second_amend ≡ none
unfolding amend_step second_amend amend_pin op_on weight_field str_eq get str_any num_any to_list
    lookup insert without frozen_at new_node node_of add_node remove_node apply_op apply_ops ops_of
    amend_guard commit_amend
second_hangs fuel =
    let loops = (descend-loops (ord_key_of second_amend) fuel).0 in
    rw (amend_step, commit_amend, apply_ops, apply_op, remove_node, loops) refl

-- Two amendments by the author of the task, each of which passes every guard, after which no fuel is
-- enough for the loop over descendants: the replay of the task does not end.
pub fold_amends-endless :
    (fuel : ℕ)
    → fold_amends loop_rules (suc (suc (suc fuel))) (codes "t") tree_of_four [] amends ≡ none
unfolding fold_amends fold_from
fold_amends-endless fuel =
    rw (fold_from, first_done fuel) (rw (fold_from, second_hangs (suc (suc (suc fuel)))) refl)
