-- ===== src/Metatask/Examples/Payouts.antt =====
-- The theorems on the settlement at a task of one node with one reviewer.
use metaso_p2p.Prelude.{◌≡◌, ◌≤◌, refl, subst, true, some, none, List, [], ◌∷◌, All}
use metaso_p2p.Prelude.Int.{ℤ, pos}
use metaso_p2p.Prelude.Text.{codes, str_eq}
use metaso_p2p.Prelude.Assoc.{lookup, insert}
use metaso_p2p.Prelude.Sort.{sort_stable, place}
use metaso_p2p.Metatask.Json.{number, end, get, str_any, num_any}
use metaso_p2p.Metatask.Votes.{events_at}
use metaso_p2p.Metatask.Shares.{
  TreeNode, tree_node_weight, collect_weights, checked_weights, settle_weights, submitter_share,
  share_or_default, Participant, accuracy_bp, accuracy_of, divide, credit_reviewers, add_submitted,
  add_reviewed, cycle_votes, accuracy_sum, split_weight, final_submission, settle_node,
  settle_nodes, Share, share_rows, share_before, share_sum, settle_shares,
}
use metaso_p2p.Metatask.Shares.Sums.{weight_sum}
use metaso_p2p.Metatask.Shares.Bounds.{settle_weights-le}
use metaso_p2p.Metatask.Shares.Payout.{
  Settlement, share_context, Participating, settle_shares-within,
}
use metaso_p2p.Metatask.Examples.{pass_pin, verified_example, first_submission}
use metaso_p2p.Metatask.Walk.State.{CycleSubmission}

abbrev no_conversion : ℤ → ℤ
no_conversion z = z

abbrev root_node : TreeNode
root_node = record {
  id = codes "n1";
  parent = none;
  title = codes "root";
  kind = codes "goal";
  spec_id = none;
  params = end;
  deps = [];
  weight = some (number (codes "10000") (some (record { trunc = pos 10000; integral = true })));
}

abbrev reviewer : Participant
reviewer = record {
  meta_id = codes "bob";
  effective_claims = 0;
  submissions = 0;
  verified_contrib = 0;
  review_votes = 1;
  review_correct = 1;
  review_terminal = 1;
}

abbrev one_node : Settlement
one_node = record {
  root_author = codes "root";
  node_order = codes "n1" ∷ [];
  effective_tree = (codes "n1", root_node) ∷ [];
  active_cycle_by_node = (codes "n1", verified_example) ∷ [];
  final_verified_pins = (codes "s1", true) ∷ [];
  split_share = none;
  participants = (codes "bob", reviewer) ∷ [];
  votes_by_target = (codes "s1", pass_pin ∷ []) ∷ [];
}

abbrev BobReviews : CycleSubmission → Type 0
BobReviews s =
    All (λ v. (p : Participant) × (lookup v.author one_node.participants ≡ some p))
      (cycle_votes one_node.root_author s.author (events_at s.pin_id one_node.votes_by_target))

bob_reviews : BobReviews first_submission
unfolding lookup str_eq get str_any cycle_votes
bob_reviews = ((reviewer, refl), tt)

bob_takes_part : All (Participating no_conversion one_node) one_node.node_order
unfolding final_submission lookup str_eq
bob_takes_part = ((λ s e. subst BobReviews (some_inj e) bob_reviews), tt)
  where
    some_inj : {s t : CycleSubmission} → some s ≡ some t → s ≡ t
    some_inj e = cc

settle_shares-within_example :
    (shares : List Share) × (settle_shares
        (share_context no_conversion one_node)
        one_node.node_order
      ≡ some shares)
    × (share_sum shares ≤ 10000)
settle_shares-within_example = settle_shares-within no_conversion one_node (tt, tt) bob_takes_part

-- The submitter gets 8000 basis points, the one reviewer the other 2000.
one_node_shares :
    settle_shares (share_context no_conversion one_node) one_node.node_order
    ≡ some (
        record { meta_id = codes "alice"; share_bp = 8000; submitted_bp = 8000; reviewed_bp = 0 }
        ∷ record { meta_id = codes "bob"; share_bp = 2000; submitted_bp = 0; reviewed_bp = 2000 }
        ∷ [])
unfolding settle_shares settle_nodes settle_node final_submission lookup insert str_eq get str_any
    num_any cycle_votes split_weight add_submitted add_reviewed accuracy_sum accuracy_of accuracy_bp
    credit_reviewers divide submitter_share share_or_default settle_weights checked_weights
    collect_weights tree_node_weight share_rows share_before sort_stable place
one_node_shares = refl

settle_weights-le_example :
    weight_sum (settle_weights one_node.node_order one_node.effective_tree) one_node.node_order
    ≤ 10000
settle_weights-le_example = settle_weights-le one_node.node_order one_node.effective_tree (tt, tt)
