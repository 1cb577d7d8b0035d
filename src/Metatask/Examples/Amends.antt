-- ===== src/Metatask/Examples/Amends.antt =====
-- The theorems on amendments at a tree of four nodes.
use metaso_p2p.Prelude.{◌≡◌, ◌⊎◌, ◌+◌, refl, Bool, true, false, some, [], ◌∷◌, All, length}
use metaso_p2p.Prelude.Int.{pos}
use metaso_p2p.Prelude.Text.{Str, codes, str_eq}
use metaso_p2p.Prelude.Assoc.{lookup}
use metaso_p2p.Metatask.Event.{ord_key_of, ord_less}
use metaso_p2p.Metatask.Amend.{AmendRules, frozen_at, climb, hangs, remove_node}
use metaso_p2p.Metatask.Amend.Fold.{fold_amends}
use metaso_p2p.Metatask.Amend.Acyclic.{climb-decides}
use metaso_p2p.Metatask.Amend.Trees.{IsTree}
use metaso_p2p.Metatask.Amend.Kept.{Returned, fold_amends-Valid}
use metaso_p2p.Metatask.Amend.Frozen.{fold_amends-keeps_frozen}
use metaso_p2p.Metatask.Amend.Hangs.{ParentLoop, remove_node-hangs}
use metaso_p2p.Metatask.Amend.Endless.{
  part, loop_rules, tree_of_four, first_amend, amend_pin, second_amend, tree_with_loop,
}

climb-decides_example :
    (b : Bool) × (climb tree_with_loop (length tree_with_loop + 2) [] (codes "c") ≡ some b)
climb-decides_example = climb-decides tree_with_loop (codes "c")

fold_amends-Valid_example :
    Returned
      (λ s. (s.nodes ≡ tree_of_four) ⊎ IsTree s.nodes)
      (fold_amends loop_rules 9 (codes "t") tree_of_four [] (first_amend ∷ []))
fold_amends-Valid_example =
    fold_amends-Valid loop_rules 9 (codes "t") tree_of_four [] (first_amend ∷ [])

-- The node d was claimed at height 4, before the amendment.
abbrev claimed_rules : AmendRules
claimed_rules = record loop_rules {
  first_claim_order =
      (codes "d", record { h = pos 4; tx = pos 0; ts = pos 0; pin = codes "c1" }) ∷ [];
}

d_claimed : All (λ a. frozen_at claimed_rules (codes "d") (ord_key_of a) ≡ true) (first_amend ∷ [])
unfolding frozen_at lookup str_eq ord_less ord_key_of first_amend amend_pin
d_claimed = (refl, tt)

d_there : lookup (codes "d") tree_of_four ≡ some (part (codes "d") (some (codes "r")) 3000)
unfolding lookup str_eq
d_there = refl

fold_amends-keeps_frozen_example :
    Returned
      (λ s. lookup (codes "d") s.nodes ≡ some (part (codes "d") (some (codes "r")) 3000))
      (fold_amends claimed_rules 9 (codes "t") tree_of_four [] (first_amend ∷ []))
fold_amends-keeps_frozen_example =
    fold_amends-keeps_frozen claimed_rules 9 (codes "t") tree_of_four [] (first_amend ∷ [])
      (codes "d") (part (codes "d") (some (codes "r")) 3000) d_there d_claimed

c_under_x : ParentLoop loop_rules (ord_key_of second_amend) tree_with_loop (codes "c") (codes "x")
unfolding lookup str_eq
c_under_x = record {
  c_node = part (codes "c") (some (codes "x")) 3000;
  x_node = record (part (codes "x") (some (codes "c")) 1) { title = [] };
  c_there = refl;
  x_there = refl;
  c_under_x = refl;
  x_under_c = refl;
}

none_frozen : (k : Str) → frozen_at loop_rules k (ord_key_of second_amend) ≡ false
unfolding frozen_at lookup
none_frozen k = refl

remove_node-hangs_example :
    remove_node loop_rules (ord_key_of second_amend) 1000 (codes "c") tree_with_loop [] ≡ hangs
remove_node-hangs_example =
    remove_node-hangs loop_rules (ord_key_of second_amend) tree_with_loop (codes "c") (codes "x") []
      c_under_x none_frozen 1000
