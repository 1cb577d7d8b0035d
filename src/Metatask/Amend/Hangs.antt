-- ===== src/Metatask/Amend/Hangs.antt =====
-- The loop of remove_node over descendants below a node that is its own grandparent.
use mathlib.Core.List.{Memᴰ}
use mathlib.Core.List.Memᴰ.{cases_cons, not-nil}
use metaso_p2p.Prelude.{
  ℕ, zero, suc, ◌≡◌, ◌⊎◌, refl, sym, ap, subst, ◌∙◌, inl, inr, false, none, some, List, [], ◌∷◌,
  ◌++◌, Bool-cases, Memᴰ-append_left,
}
use metaso_p2p.Prelude.Text.{Str, str_eq, str_eq_iff, str_eq_refl}
use metaso_p2p.Prelude.Assoc.{Assoc, lookup}
use metaso_p2p.Metatask.Event.{OrdKey}
use metaso_p2p.Metatask.Shares.{TreeNode}
use metaso_p2p.Metatask.Amend.{
  AmendRules, frozen_at, hangs, is_parent, children_of, descend, remove_node,
}

Memᴰ-append_right : (x : Str) (xs ys : List Str) → Memᴰ x ys → Memᴰ x (xs ++ ys)
Memᴰ-append_right x [] ys h = h
Memᴰ-append_right x (y ∷ xs) ys h = Memᴰ.tail (Memᴰ-append_right x xs ys h)

some_inj : {s t : TreeNode} → some s ≡ some t → s ≡ t
some_inj e = cc

deeper :
    (x c j : Str) (t : TreeNode) (m : Assoc TreeNode)
    → Memᴰ x (children_of c m)
    → Memᴰ x (children_of c ((j, t) ∷ m))
unfolding children_of
deeper x c j t m h = elim (Bool-cases (is_parent c t.parent)) [
  | inl e ↦ rw (children_of, e) (Memᴰ.tail h)
  | inr e ↦ rw (children_of, e) h
]

children_of-Memᴰ :
    (x c : Str) (n : TreeNode) (m : Assoc TreeNode)
    → lookup x m ≡ some n
    → n.parent ≡ some c
    → Memᴰ x (children_of c m)
unfolding lookup children_of
children_of-Memᴰ x c n [] e p = absurd (cc e)
children_of-Memᴰ x c n ((j, t) ∷ m) e p = elim (Bool-cases (str_eq j x)) [
  | inl same ↦
      let is : t ≡ n = some_inj (rw (lookup, same) at e) in
      let child : t.parent ≡ some c = ap (λ u. u.parent) is ∙ p in
      rw (children_of, child, str_eq_refl c) (Memᴰ.head (sym ((str_eq_iff j x).0 same)))
  | inr other ↦ deeper x c j t m (children_of-Memᴰ x c n m (rw (lookup, other) at e) p)
]

module _ (r : AmendRules) (key : OrdKey) (m : Assoc TreeNode) where
  -- Two nodes of the tree, each the parent of the other.
  pub record ParentLoop (c x : Str) : Type 0 where
    pub c_node : TreeNode
    pub x_node : TreeNode
    pub c_there : lookup c m ≡ some c_node
    pub x_there : lookup x m ≡ some x_node
    pub c_under_x : c_node.parent ≡ some x
    pub x_under_c : x_node.parent ≡ some c

  below_first :
      (c x cur : Str) (stack : List Str)
      → ParentLoop c x
      → (c ≡ cur) ⊎ Memᴰ c stack
      → (Memᴰ c (children_of cur m ++ stack)) ⊎ (Memᴰ x (children_of cur m ++ stack))
  below_first c x cur stack l (inl is) = inr (
      Memᴰ-append_left x (children_of cur m) stack (
        subst (λ k. Memᴰ x (children_of k m)) is
          (children_of-Memᴰ x c l.x_node m l.x_there l.x_under_c)))
  below_first c x cur stack l (inr later) =
      inl (Memᴰ-append_right c (children_of cur m) stack later)

  turned : (c x : Str) → ParentLoop c x → ParentLoop x c
  turned c x l = record {
    c_node = l.x_node;
    x_node = l.c_node;
    c_there = l.x_there;
    x_there = l.c_there;
    c_under_x = l.x_under_c;
    x_under_c = l.c_under_x;
  }

  other_way : {A B : Type 0} → A ⊎ B → B ⊎ A
  other_way (inl a) = inr a
  other_way (inr b) = inl b

  next :
      (c x : Str)
      → ParentLoop c x
      → (cur : Str) (stack : List Str) → (Memᴰ c (cur ∷ stack)) ⊎ (Memᴰ x (cur ∷ stack))
      → (Memᴰ c (children_of cur m ++ stack)) ⊎ (Memᴰ x (children_of cur m ++ stack))
  next c x l cur stack (inl h) = below_first c x cur stack l (cases_cons h)
  next c x l cur stack (inr h) = other_way (below_first x c cur stack (turned c x l) (cases_cons h))

  descend-hangs :
      (c x : Str)
      → ParentLoop c x
      → ((k : Str) → frozen_at r k key ≡ false)
      → (fuel : ℕ) (stack : List Str) → (Memᴰ c stack) ⊎ (Memᴰ x stack)
      → descend r key m fuel stack ≡ none
  unfolding descend
  descend-hangs c x l f fuel [] (inl here) = absurd (not-nil here)
  descend-hangs c x l f fuel [] (inr here) = absurd (not-nil here)
  descend-hangs c x l f zero (cur ∷ stack) here = refl
  descend-hangs c x l f (suc fuel) (cur ∷ stack) here =
      rw (f cur)
        (descend-hangs c x l f fuel (children_of cur m ++ stack) (next c x l cur stack here))

-- Where two nodes of the tree are each the parent of the other and nothing has been claimed before
-- the amendment, removing one of them never ends, whatever fuel its loop is given.
pub remove_node-hangs :
    (r : AmendRules) (key : OrdKey) (m : Assoc TreeNode) (c x : Str) (order : List Str)
    → ParentLoop r key m c x
    → ((k : Str) → frozen_at r k key ≡ false)
    → (fuel : ℕ) → remove_node r key fuel c m order ≡ hangs
unfolding remove_node
remove_node-hangs r key m c x order l f fuel =
    rw
      (
        remove_node,
        l.c_there,
        l.c_under_x,
        descend-hangs r key m c x l f fuel (c ∷ []) (inl (Memᴰ.head refl)),
      )
      refl
