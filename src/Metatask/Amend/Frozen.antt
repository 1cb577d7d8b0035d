-- ===== src/Metatask/Amend/Frozen.antt =====
-- Amendments and the nodes that were claimed before them.
use metaso_p2p.Prelude.{
  ℕ, ◌≡◌, ◌≢◌, ◌⊎◌, refl, subst, zero, suc, arith, inl, inr, Bool, true, false, not, ◌||◌, some,
  List, [], ◌∷◌, Bool-cases, Option-cases, All,
}
use metaso_p2p.Prelude.Text.{Str, codes, str_eq, str_eq_iff, is_empty}
use metaso_p2p.Prelude.Assoc.{Assoc, lookup, insert, flag, lookup-insert, lookup-without}
use metaso_p2p.Metatask.Json.{Json, null, bool, text, number, array, object, Fields, get, field_str}
use metaso_p2p.Metatask.Event.{ChainEvent, OrdKey, ord_key_of}
use metaso_p2p.Metatask.Shares.{TreeNode}
use metaso_p2p.Metatask.Amend.{
  AmendRules, has_node, frozen_at, OpsResult, failed, hangs, edited, new_node, node_of, add_node,
  descend, remove_node, edit_node, apply_op,
}
use metaso_p2p.Metatask.Amend.Fold.{apply_ops, ops_of, tree_valid, fold_amends}
use metaso_p2p.Metatask.Amend.Kept.{Returned, Edited, amend_step-Returned, fold_from-Returned}

OpsResult-cases :
    (o : OpsResult)
    → (o ≡ failed)
      ⊎ ((o ≡ hangs) ⊎ ((m : Assoc TreeNode) × (order : List Str) × (o ≡ edited m order)))
OpsResult-cases failed = inl refl
OpsResult-cases hangs = inr (inl refl)
OpsResult-cases (edited m order) = inr (inr (m, order, refl))

module _ (r : AmendRules) (n : Str) (t : TreeNode) where
  abbrev Keeps : Assoc TreeNode → Type 0
  Keeps m = lookup n m ≡ some t

  edit_node-Keeps :
      (key : OrdKey) (k : Str) (valid : Bool) (f : TreeNode → TreeNode) (m : Assoc TreeNode)
      (order : List Str)
      → frozen_at r n key ≡ true
      → Keeps m
      → Edited Keeps (edit_node r key k valid f m order)
  unfolding edit_node
  edit_node-Keeps key k valid f m order fr h = elim (Option-cases (lookup k m)) [
    | inl e ↦ rw (edit_node, e) tt
    | inr (target, e) ↦ elim (Bool-cases (frozen_at r k key || not valid)) [
      | inl refused ↦ rw (edit_node, e, refused) tt
      | inr allowed ↦
          rw (edit_node, e, allowed)
            (ground (arith, lookup-insert k n (f target) m, str_eq_iff k n, h, fr, allowed))
    ]
  ]

  descend-frozen :
      (key : OrdKey) (m : Assoc TreeNode) (fuel : ℕ)
      → frozen_at r n key ≡ true
      → descend r key m fuel (n ∷ []) ≢ some true
  unfolding descend
  descend-frozen key m zero fr e = absurd (cc e)
  descend-frozen key m (suc fuel) fr e = absurd (cc (rw (descend, fr) at e))

  remove_node-Keeps :
      (key : OrdKey) (fuel : ℕ) (k : Str) (m : Assoc TreeNode) (order : List Str)
      → frozen_at r n key ≡ true
      → Keeps m
      → Edited Keeps (remove_node r key fuel k m order)
  unfolding remove_node
  remove_node-Keeps key fuel k m order fr h = elim (Option-cases (lookup k m)) [
    | inl e ↦ rw (remove_node, e) tt
    | inr (target, e) ↦ elim (Option-cases target.parent) [
      | inl e2 ↦ rw (remove_node, e, e2) tt
      | inr (p, e2) ↦ elim (Option-cases (descend r key m fuel (k ∷ []))) [
        | inl e3 ↦ rw (remove_node, e, e2, e3) tt
        | inr (false, e3) ↦ rw (remove_node, e, e2, e3) tt
        | inr (true, e3) ↦
            rw (remove_node, e, e2, e3)
              (elim (Bool-cases (str_eq k n)) [
                | inl same ↦ absurd (
                    descend-frozen key m fuel fr (
                      subst (λ j. descend r key m fuel (j ∷ []) ≡ some true)
                        ((str_eq_iff k n).0 same) e3))
                | inr other ↦ rw (lookup-without k n m, other) h
              ])
      ]
    ]
  ]

  added :
      (k : Str) (new : TreeNode) (nodes m : Assoc TreeNode)
      → Keeps m
      → (is_empty k || has_node k nodes || has_node k m) ≡ false
      → Keeps (insert k new m)
  added k new nodes m h fresh = ground (arith, lookup-insert k n new m, str_eq_iff k n, h, fresh)

  add_node-Keeps :
      (nodes m : Assoc TreeNode) (order : List Str) (op : Fields)
      → Keeps m
      → Edited Keeps (add_node r nodes m order op)
  unfolding add_node
  add_node-Keeps nodes m order op h = elim (Option-cases (new_node op)) [
    | inl e ↦ rw (add_node, e) tt
    | inr (raw, e) ↦
        elim (Bool-cases (
          is_empty (node_of raw).id
          || has_node (node_of raw).id nodes
          || has_node (node_of raw).id m)) [
            | inl taken ↦ rw (add_node, e, taken) tt
            | inr fresh ↦
                elim (Bool-cases (
                  not (
                    has_node (field_str raw (codes "parent")) m
                    || has_node (field_str raw (codes "parent")) nodes)
                  || flag (field_str raw (codes "parent")) r.verified_node_ids
                  || flag (field_str raw (codes "parent")) r.active_cycle_nodes)) [
                    | inl refused ↦ rw (add_node, e, fresh, refused) tt
                    | inr allowed ↦
                        rw (add_node, e, fresh, allowed)
                          (added (node_of raw).id (node_of raw) nodes m h fresh)
                  ]
          ]
  ]

  apply_op-Keeps :
      (key : OrdKey) (fuel : ℕ) (nodes : Assoc TreeNode) (op : Fields) (m : Assoc TreeNode)
      (order : List Str)
      → frozen_at r n key ≡ true
      → Keeps m
      → Edited Keeps (apply_op r key fuel nodes op m order)
  unfolding apply_op
  apply_op-Keeps key fuel nodes op m order fr h =
      let kind = field_str op (codes "op") in
      let k = field_str op (codes "node") in
      elim (Bool-cases (str_eq kind (codes "add_node"))) [
        | inl e ↦ rw (apply_op, e) (add_node-Keeps nodes m order op h)
        | inr e1 ↦ elim (Bool-cases (str_eq kind (codes "remove_node"))) [
          | inl e ↦ rw (apply_op, e1, e) (remove_node-Keeps key fuel k m order fr h)
          | inr e2 ↦ elim (Bool-cases (str_eq kind (codes "reweight"))) [
            | inl e ↦ rw (apply_op, e1, e2, e) (edit_node-Keeps key k _ _ m order fr h)
            | inr e3 ↦ elim (Bool-cases (str_eq kind (codes "retitle"))) [
              | inl e ↦ rw (apply_op, e1, e2, e3, e) (edit_node-Keeps key k _ _ m order fr h)
              | inr e4 ↦ elim (Bool-cases (str_eq kind (codes "respec"))) [
                | inl e ↦ rw (apply_op, e1, e2, e3, e4, e) (edit_node-Keeps key k _ _ m order fr h)
                | inr e ↦ rw (apply_op, e1, e2, e3, e4, e) tt
              ]
            ]
          ]
        ]
      ]

  apply_ops-Keeps :
      (key : OrdKey) (fuel : ℕ) (nodes : Assoc TreeNode) (ops : List Json) (m : Assoc TreeNode)
      (order : List Str)
      → frozen_at r n key ≡ true
      → Keeps m
      → Edited Keeps (apply_ops r key fuel nodes ops m order)
  unfolding apply_ops
  apply_ops-Keeps key fuel nodes [] m order fr h = h
  apply_ops-Keeps key fuel nodes (null ∷ ops) m order fr h = tt
  apply_ops-Keeps key fuel nodes (bool b ∷ ops) m order fr h = tt
  apply_ops-Keeps key fuel nodes (text s ∷ ops) m order fr h = tt
  apply_ops-Keeps key fuel nodes (number s v ∷ ops) m order fr h = tt
  apply_ops-Keeps key fuel nodes (array vs ∷ ops) m order fr h = tt
  apply_ops-Keeps key fuel nodes (object op ∷ ops) m order fr h =
      elim (OpsResult-cases (apply_op r key fuel nodes op m order)) [
        | inl e ↦ rw (apply_ops, e) tt
        | inr (inl e) ↦ rw (apply_ops, e) tt
        | inr (inr (m', order', e)) ↦
            rw (apply_ops, e)
              (apply_ops-Keeps key fuel nodes ops m' order' fr
                (rw e at (apply_op-Keeps key fuel nodes op m order fr h)))
      ]

weaken :
    (P Q : Assoc TreeNode → Type 0) (o : OpsResult)
    → ((m : Assoc TreeNode) → P m → Q m)
    → Edited P o
    → Edited Q o
weaken P Q failed f h = tt
weaken P Q hangs f h = tt
weaken P Q (edited m order) f h = f m h

-- A node that was claimed before every amendment of the list is in the tree that the fold comes to
-- as it was: no amendment edits it, removes it or puts another in its place.
pub fold_amends-keeps_frozen :
    (r : AmendRules) (fuel : ℕ) (tree_pin : Str) (initial : Assoc TreeNode) (order : List Str)
    (amends : List ChainEvent) (n : Str) (t : TreeNode)
    → lookup n initial ≡ some t
    → All (λ a. frozen_at r n (ord_key_of a) ≡ true) amends
    → Returned (λ s. lookup n s.nodes ≡ some t) (fold_amends r fuel tree_pin initial order amends)
unfolding fold_amends
fold_amends-keeps_frozen r fuel tree_pin initial order amends n t h frozen =
    fold_from-Returned (Keeps r n t) r fuel (λ a. frozen_at r n (ord_key_of a) ≡ true)
      (λ s amend fr k. amend_step-Returned (Keeps r n t) r fuel s amend k (
        weaken (Keeps r n t) (λ m. tree_valid m ≡ true → Keeps r n t m) _ (λ m q v. q)
          (apply_ops-Keeps r n t (ord_key_of amend) fuel s.nodes
            (ops_of (get amend.body (codes "ops"))) s.nodes s.node_order fr k)))
      _ amends frozen h
