-- ===== src/Metatask/Shares/Bounds.antt =====
-- Bounds of the submitter share, of accuracies and of the weights of a settlement.

use native.Mathlib.Nat.{div-mul-le_self}
use metaso_p2p.Prelude.{
  ℕ, ◌+◌, ◌*◌, ◌≤◌, ◌≡◌, refl, arith, inl, inr, Option, none, some, List, [], ◌∷◌, ◌&&◌, length,
  ltb, ◌==◌, ==_iff, Distinct, Bool-cases, Option-cases,
}
use metaso_p2p.Prelude.Int.{ℤ}
use metaso_p2p.Prelude.Text.{Str, str_eq_refl}
use metaso_p2p.Prelude.Assoc.{Assoc, insert, lookup-insert}
use metaso_p2p.Metatask.Json.{Json}
use metaso_p2p.Metatask.Walk.State.{count_at}
use metaso_p2p.Metatask.Shares.{
  TreeNode, tree_node_weight, collect_weights, set_uniform, uniform_weight, all_uniform,
  checked_weights, settle_weights, submitter_share, Participant, accuracy_bp,
}
use metaso_p2p.Metatask.Shares.Sums.{
  weight_total, weight_sum, weight_total-insert, weight_sum-le-total,
}

-- Whatever the task's split says, the submitter's share is within its bounds.
pub submitter_share-bounds :
    (to_int64 : ℤ → ℤ) (v : Option Json)
    → (6000 ≤ submitter_share to_int64 v) × (submitter_share to_int64 v ≤ 9000)
unfolding submitter_share
submitter_share-bounds to_int64 v = (ground arith, ground arith)

-- Whatever the counts are, an accuracy is within its floor and all.
pub accuracy_bp-bounds : (p : Participant) → (2500 ≤ accuracy_bp p) × (accuracy_bp p ≤ 10000)
unfolding accuracy_bp
accuracy_bp-bounds p = (ground arith, ground arith)

collect_weights-total :
    (weights : Assoc ℕ) (total : ℕ) (tree : Assoc TreeNode) (t : ℕ)
    → weight_total weights ≤ total
    → (collect_weights weights total tree).1 ≡ some t
    → weight_total (collect_weights weights total tree).0 ≤ t
unfolding collect_weights
collect_weights-total weights total [] t h e = ground (arith, h, e)
collect_weights-total weights total ((k, n) ∷ tree) t h e =
    elim (Option-cases (tree_node_weight n)) [
      | inl bare ↦ absurd (cc (rw (collect_weights, bare) at e))
      | inr (w, has) ↦
          rw (collect_weights, has)
            (collect_weights-total (insert n.id w weights) (total + w) tree t
              (omega (arith, weight_total-insert n.id w weights)) (rw (collect_weights, has) at e))
    ]

set_uniform-other :
    (u : ℕ) (nodes : List Str) (m : Assoc ℕ) (k : Str)
    → count_at k m ≡ u
    → count_at k (set_uniform u nodes m) ≡ u
unfolding set_uniform
set_uniform-other u [] m k h = h
set_uniform-other u (j ∷ nodes) m k h =
    set_uniform-other u nodes (insert j u m) k (ground (arith, lookup-insert j k u m, h))

set_uniform-all :
    (u : ℕ) (nodes : List Str) (m : Assoc ℕ)
    → weight_sum (set_uniform u nodes m) nodes ≡ length nodes * u
unfolding set_uniform weight_sum
set_uniform-all u [] m = omega arith
set_uniform-all u (k ∷ nodes) m =
    let here =
      set_uniform-other u nodes (insert k u m) k
        (ground (arith, lookup-insert k k u m, str_eq_refl k)) in
    omega (arith, set_uniform-all u nodes (insert k u m), here)

uniform-le : (n : ℕ) → n * uniform_weight n ≤ 10000
unfolding uniform_weight
uniform-le n = elim (Bool-cases (ltb 0 n)) [
  | inl e ↦ rw e (omega (arith, div-mul-le_self 10000 n))
  | inr e ↦ rw e (omega arith)
]

all_uniform-le : (nodes : List Str) (m : Assoc ℕ) → weight_sum (all_uniform nodes m) nodes ≤ 10000
unfolding all_uniform
all_uniform-le nodes m =
    rw (set_uniform-all (uniform_weight (length nodes)) nodes m) (uniform-le (length nodes))

checked_weights-le :
    (nodes : List Str) (m : Assoc ℕ) (o : Option ℕ)
    → Distinct nodes
    → ((t : ℕ) → o ≡ some t → weight_total m ≤ t)
    → weight_sum (checked_weights nodes (m, o)) nodes ≤ 10000
unfolding checked_weights
checked_weights-le nodes m none d h = all_uniform-le nodes m
checked_weights-le nodes m (some t) d h = elim (Bool-cases (t == 10000)) [
  | inl e ↦ rw e (omega (arith, weight_sum-le-total m nodes d, h t refl, (==_iff t 10000).0 e))
  | inr e ↦ rw e (all_uniform-le nodes m)
]

-- The weights of distinct nodes sum up to at most 10000, from the tree's own weights as from the uniform
-- fallback.
pub settle_weights-le :
    (nodes : List Str) (tree : Assoc TreeNode)
    → Distinct nodes
    → weight_sum (settle_weights nodes tree) nodes ≤ 10000
unfolding settle_weights weight_total
settle_weights-le nodes tree d =
    elim (Bool-cases (ltb 0 (length nodes) && length tree == length nodes)) [
      | inl e ↦ rw e (
          checked_weights-le nodes _ _ d (λ t h. collect_weights-total [] 0 tree t (omega arith) h))
      | inr e ↦ rw e (all_uniform-le nodes [])
    ]
