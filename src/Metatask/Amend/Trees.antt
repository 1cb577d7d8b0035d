-- ===== src/Metatask/Amend/Trees.antt =====
-- What the test of `foldAmends` on an amended tree ensures (internal/metatask/v121.go).
use metaso_p2p.Prelude.{
  ℕ, zero, suc, ◌+◌, ◌≡◌, arith, inl, inr, true, none, some, List, [], ◌∷◌, length, All, Bool-cases,
  Option-cases,
}
use metaso_p2p.Prelude.Text.{Str, is_empty}
use metaso_p2p.Prelude.Assoc.{Assoc, lookup}
use metaso_p2p.Metatask.Shares.{TreeNode, tree_node_weight}
use metaso_p2p.Metatask.Amend.{sum_weights, seen_before, climb, ends, all_end, is_acyclic}
use metaso_p2p.Metatask.Amend.Fold.{is_total, tree_valid}

-- The way up from a node id ends: the id is empty, no node of the tree has it, its node has no
-- parent, or the way up from the parent ends.
pub data Ends (nodes : Assoc TreeNode) : Str → Type 0 where
  empty : (id : Str) → is_empty id ≡ true → Ends nodes id
  missing : (id : Str) → lookup id nodes ≡ none → Ends nodes id
  root : (id : Str) (n : TreeNode) → lookup id nodes ≡ some n → n.parent ≡ none → Ends nodes id
  up :
      (id parent : Str) (n : TreeNode)
      → lookup id nodes ≡ some n
      → n.parent ≡ some parent
      → Ends nodes parent
      → Ends nodes id

-- The nodes have these weights, in their order.
pub data Weigh : Assoc TreeNode → List ℕ → Type 0 where
  none_left : Weigh [] []
  next :
      {id : Str} {n : TreeNode} {w : ℕ} {nodes : Assoc TreeNode} {ws : List ℕ}
      → tree_node_weight n ≡ some w
      → Weigh nodes ws
      → Weigh ((id, n) ∷ nodes) (w ∷ ws)

abbrev pub sum : List ℕ → ℕ
sum [] = 0
sum (w ∷ ws) = w + sum ws

-- Each node has a weight, they sum up to 10000, and the way up from each node ends.
pub record IsTree (nodes : Assoc TreeNode) : Type 0 where
  pub weights : List ℕ
  pub weighed : Weigh nodes weights
  pub total : sum weights ≡ 10000
  pub acyclic : All (λ e. Ends nodes e.0) nodes

climb-Ends :
    (nodes : Assoc TreeNode) (fuel : ℕ) (seen : List Str) (cursor : Str)
    → climb nodes fuel seen cursor ≡ some true
    → Ends nodes cursor
unfolding climb
climb-Ends nodes zero seen cursor h = cc h
climb-Ends nodes (suc fuel) seen cursor h = elim (Bool-cases (is_empty cursor)) [
  | inl top ↦ empty cursor top
  | inr below ↦ elim (Bool-cases (seen_before seen cursor)) [
    | inl again ↦ cc (rw (climb, below, again) at h)
    | inr fresh ↦ elim (Option-cases (lookup cursor nodes)) [
      | inl gone ↦ missing cursor gone
      | inr (n, there) ↦ elim (Option-cases n.parent) [
        | inl none_up ↦ root cursor n there none_up
        | inr (parent, has) ↦ up cursor parent n there has (
            climb-Ends nodes fuel (cursor ∷ seen) parent
              (rw (climb, below, fresh, there, has) at h))
      ]
    ]
  ]
]

all_end-Ends :
    (nodes starts : Assoc TreeNode) → all_end nodes starts ≡ true → All (λ e. Ends nodes e.0) starts
unfolding all_end ends
all_end-Ends nodes [] h = tt
all_end-Ends nodes ((start, n) ∷ starts) h =
    elim (Option-cases (climb nodes (length nodes + 2) [] start)) [
      | inl e ↦ cc (rw e at h)
      | inr (b, e) ↦ elim (Bool-cases b) [
        | inl yes_ends ↦ (
          climb-Ends nodes (length nodes + 2) [] start (cc (e, yes_ends)),
          all_end-Ends nodes starts (rw (e, yes_ends) at h),
        )
        | inr no_end ↦ cc (rw (e, no_end) at h)
      ]
    ]

sum_weights-Weigh :
    (nodes : Assoc TreeNode) (total : ℕ)
    → sum_weights nodes ≡ some total
    → (ws : List ℕ) × Weigh nodes ws × (sum ws ≡ total)
unfolding sum_weights
sum_weights-Weigh [] total h = ([], none_left, cc h)
sum_weights-Weigh ((id, n) ∷ nodes) total h = elim (Option-cases (tree_node_weight n)) [
  | inl e ↦ cc (rw (sum_weights, e) at h)
  | inr (w, e) ↦ elim (Option-cases (sum_weights nodes)) [
    | inl f ↦ cc (rw (sum_weights, e, f) at h)
    | inr (rest, f) ↦
        let (ws, weighed, is) = sum_weights-Weigh nodes rest f in
        (w ∷ ws, next e weighed, ground (arith, is, rw (sum_weights, e, f) at h))
  ]
]

-- A tree that passes the test of the fold is one.
pub tree_valid-IsTree : (nodes : Assoc TreeNode) → tree_valid nodes ≡ true → IsTree nodes
unfolding tree_valid is_total is_acyclic
tree_valid-IsTree nodes v = elim (Option-cases (sum_weights nodes)) [
  | inl e ↦ cc (rw e at v)
  | inr (total, e) ↦
      let (ws, weighed, is) = sum_weights-Weigh nodes total e in
      let v' = rw e at v in
      record {
        weights = ws;
        weighed = weighed;
        total = ground (arith, is, v');
        acyclic = all_end-Ends nodes nodes (ground (arith, v'));
      }
]
