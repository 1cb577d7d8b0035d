-- ===== src/Metatask/Amend/Kept.antt =====
-- What the fold of amendments keeps.
use metaso_p2p.Prelude.{
  ℕ, ◌≡◌, ◌⊎◌, refl, inl, inr, true, Option, none, some, List, [], ◌∷◌, Bool-cases, Option-cases,
  All,
}
use metaso_p2p.Prelude.Text.{Str, codes}
use metaso_p2p.Prelude.Assoc.{Assoc}
use metaso_p2p.Metatask.Json.{get}
use metaso_p2p.Metatask.Event.{ChainEvent, ord_key_of}
use metaso_p2p.Metatask.Shares.{TreeNode}
use metaso_p2p.Metatask.Amend.{AmendRules, OpsResult, failed, hangs, edited}
use metaso_p2p.Metatask.Amend.Trees.{IsTree, tree_valid-IsTree}
use metaso_p2p.Metatask.Amend.Fold.{
  apply_ops, ops_of, AmendState, amend_guard, ignore_amend, tree_valid, commit_amend, amend_step,
  fold_from, fold_amends,
}

-- `P` holds of the state, if the fold has come to one.
abbrev pub Returned : (AmendState → Type 0) → Option AmendState → Type 0
Returned P none = Unit
Returned P (some s) = P s

-- `P` holds of the tree that the operations made, if they made one.
abbrev pub Edited : (Assoc TreeNode → Type 0) → OpsResult → Type 0
Edited P failed = Unit
Edited P hangs = Unit
Edited P (edited scratch order) = P scratch

module _ (P : Assoc TreeNode → Type 0) where
  -- Changing the rest of a state keeps what holds of its tree.
  commit_amend-Returned :
      (s : AmendState) (amend : ChainEvent) (o : OpsResult)
      → P s.nodes
      → Edited (λ scratch. tree_valid scratch ≡ true → P scratch) o
      → Returned (λ s'. P s'.nodes) (commit_amend s amend o)
  unfolding commit_amend ignore_amend
  commit_amend-Returned s amend failed h k = h
  commit_amend-Returned s amend hangs h k = tt
  commit_amend-Returned s amend (edited scratch order) h k =
      elim (Bool-cases (tree_valid scratch)) [ inl good ↦ rw good (k good) | inr bad ↦ rw bad h ]

  pub amend_step-Returned :
      (r : AmendRules) (fuel : ℕ) (s : AmendState) (amend : ChainEvent)
      → P s.nodes
      → Edited
          (λ scratch. tree_valid scratch ≡ true → P scratch)
          (apply_ops r
            (ord_key_of amend)
            fuel
            s.nodes
            (ops_of (get amend.body (codes "ops")))
            s.nodes
            s.node_order)
      → Returned (λ s'. P s'.nodes) (amend_step r fuel s amend)
  unfolding amend_step ignore_amend
  amend_step-Returned r fuel s amend h k = elim (Option-cases (amend_guard r s amend)) [
    | inl e ↦ rw (amend_step, e) (commit_amend-Returned _ amend _ h k)
    | inr (why, e) ↦ rw (amend_step, e) h
  ]

  pub fold_from-Returned :
      (r : AmendRules) (fuel : ℕ) (Q : ChainEvent → Type 0)
      → ((s : AmendState) (amend : ChainEvent)
          → Q amend
          → P s.nodes
          → Returned (λ s'. P s'.nodes) (amend_step r fuel s amend))
      → (s : AmendState) (amends : List ChainEvent) → All Q amends
      → P s.nodes
      → Returned (λ s'. P s'.nodes) (fold_from r fuel s amends)
  unfolding fold_from
  fold_from-Returned r fuel Q step s [] q h = h
  fold_from-Returned r fuel Q step s (amend ∷ amends) q h =
      elim (Option-cases (amend_step r fuel s amend)) [
        | inl e ↦ rw (fold_from, e) tt
        | inr (s', e) ↦
            rw (fold_from, e)
              (fold_from-Returned r fuel Q step s' amends q.1 (rw e at (step s amend q.0 h)))
      ]

module _ (P : Assoc TreeNode → Type 0) (any : (m : Assoc TreeNode) → P m) where
  all_Edited : (o : OpsResult) → Edited P o
  all_Edited failed = tt
  all_Edited hangs = tt
  all_Edited (edited scratch order) = any scratch

abbrev Anything : ChainEvent → Type 0
Anything a = Unit

All-amends : (amends : List ChainEvent) → All Anything amends
All-amends [] = tt
All-amends (a ∷ rest) = (tt, All-amends rest)

-- The tree that a fold comes to is the initial tree or valid: each of its nodes has a weight, the
-- weights sum up to 10000, and the way up the parents from each node ends.
pub fold_amends-Valid :
    (r : AmendRules) (fuel : ℕ) (tree_pin : Str) (initial : Assoc TreeNode) (order : List Str)
    (amends : List ChainEvent)
    → Returned
        (λ s. (s.nodes ≡ initial) ⊎ IsTree s.nodes)
        (fold_amends r fuel tree_pin initial order amends)
unfolding fold_amends
fold_amends-Valid r fuel tree_pin initial order amends =
    fold_from-Returned (λ m. (m ≡ initial) ⊎ IsTree m) r fuel Anything
      (λ s amend _ h.
        amend_step-Returned (λ m. (m ≡ initial) ⊎ IsTree m) r fuel s amend h
          (all_Edited (λ m. tree_valid m ≡ true → (m ≡ initial) ⊎ IsTree m)
            (λ m v. inr (tree_valid-IsTree m v)) _))
      _ amends (All-amends amends) (inl refl)
