-- ===== src/Metatask/Shares.antt =====
-- The settlement of a complete task (internal/metatask/v121.go): weights, the submitter's share, the
-- accuracy of reviewers, and what every node credits. Weights are of 1..10000 and counts are small,
-- so the int64 of the code is a natural number here. A division by zero, which panics, is `none`.
pub mod Sums
pub mod Bounds
pub mod Payout
pub mod Stats
use metaso_p2p.Prelude.{
  ℕ, ◌+◌, ◌-◌, ◌*◌, ◌/◌, Bool, true, false, not, ◌&&◌, ◌||◌, Option, none, some, List, [], ◌∷◌,
  if◌then◌else◌, length, ltb, ◌==◌,
}
use metaso_p2p.Prelude.Int.{ℤ, pos, pos_part, ltb_ℤ}
use metaso_p2p.Prelude.Text.{Str, codes, str_eq, str_ltb}
use metaso_p2p.Prelude.Assoc.{Assoc, lookup, insert, flag}
use metaso_p2p.Prelude.Sort.{sort_stable}
use metaso_p2p.Metatask.Json.{Float, Json, Fields, num_any}
use metaso_p2p.Metatask.Event.{ChainEvent}
use metaso_p2p.Metatask.Votes.{events_at}
use metaso_p2p.Metatask.Walk.State.{Cycle, CycleSubmission, count_at}
use metaso_p2p.Metatask.Walk.Run.{verdict_of}

-- A parent is null or a string, a specification id too.
pub record TreeNode : Type 0 where
  pub id : Str
  pub parent : Option Str
  pub title : Str
  pub kind : Str
  pub spec_id : Option Str
  pub params : Fields
  pub deps : List Str
  pub weight : Option Json

unfoldable pub weight_of : Option Float → Option ℕ
weight_of none = none
weight_of (some f) =
    if not f.integral || (ltb_ℤ f.trunc (pos 1) || ltb_ℤ (pos 10000) f.trunc)
    then none
    else some (pos_part f.trunc)

unfoldable pub tree_node_weight : TreeNode → Option ℕ
unfolding weight_of
tree_node_weight n = weight_of (num_any n.weight)

-- The loop over the tree, up to the first node without a weight: the weights set, and their sum
-- where the loop has not been left.
unfoldable pub collect_weights : Assoc ℕ → ℕ → Assoc TreeNode → Assoc ℕ × Option ℕ
collect_weights weights total [] = (weights, some total)
collect_weights weights total ((_, n) ∷ tree) = elim (tree_node_weight n) [
  | none ↦ (weights, none)
  | some w ↦ collect_weights (insert n.id w weights) (total + w) tree
]

unfoldable pub set_uniform : ℕ → List Str → Assoc ℕ → Assoc ℕ
set_uniform u [] m = m
set_uniform u (node ∷ nodes) m = set_uniform u nodes (insert node u m)

unfoldable pub uniform_weight : ℕ → ℕ
uniform_weight n = if ltb 0 n then 10000 / n else 0

-- `nodeCount` is `progress.Total`, the number of rounds of the loop over `nodeOrder`.
unfoldable pub all_uniform : List Str → Assoc ℕ → Assoc ℕ
unfolding set_uniform uniform_weight
all_uniform node_order weights = set_uniform (uniform_weight (length node_order)) node_order weights

unfoldable pub checked_weights : List Str → Assoc ℕ × Option ℕ → Assoc ℕ
unfolding all_uniform
checked_weights node_order (weights, none) = all_uniform node_order weights
checked_weights node_order (weights, some total) =
    if total == 10000 then weights else all_uniform node_order weights

unfoldable pub settle_weights : List Str → Assoc TreeNode → Assoc ℕ
unfolding checked_weights all_uniform collect_weights
settle_weights node_order tree =
    if ltb 0 (length node_order) && length tree == length node_order
    then checked_weights node_order (collect_weights [] 0 tree)
    else all_uniform node_order []

-- The submitter's share in basis points. `to_int64` is the conversion `int64(f)`, which Go leaves to
-- the implementation out of range.
unfoldable pub share_or_default : (ℤ → ℤ) → Option Float → ℤ
share_or_default to_int64 none = pos 8000
share_or_default to_int64 (some f) = to_int64 f.trunc

unfoldable pub submitter_share : (ℤ → ℤ) → Option Json → ℕ
unfolding share_or_default
submitter_share to_int64 v =
    let sigma = share_or_default to_int64 (num_any v) in
    let capped = if ltb_ℤ (pos 9000) sigma then pos 9000 else sigma in
    pos_part (if ltb_ℤ capped (pos 6000) then pos 6000 else capped)

pub record Participant : Type 0 where
  pub meta_id : Str
  pub effective_claims : ℕ
  pub submissions : ℕ
  pub verified_contrib : ℕ
  pub review_votes : ℕ
  pub review_correct : ℕ
  pub review_terminal : ℕ

unfoldable pub accuracy_bp : Participant → ℕ
accuracy_bp stats =
    let smoothed = (10000 * (stats.review_correct + 1)) / (stats.review_terminal + 2) in
    let a = if ltb smoothed 2500 then 2500 else smoothed in if ltb 10000 a then 10000 else a

-- `accuracy`, by the key that the participant is kept under, which is its MetaID.
unfoldable pub accuracy_of : Assoc Participant → Assoc ℕ
accuracy_of [] = []
accuracy_of ((k, stats) ∷ ps) = (k, accuracy_bp stats) ∷ accuracy_of ps

pub record ShareParts : Type 0 where
  pub submitted_bp : ℕ
  pub reviewed_bp : ℕ

abbrev pub parts_at : Str → Assoc ShareParts → ShareParts
parts_at k m = elim (lookup k m) [
  | none ↦ record { submitted_bp = 0; reviewed_bp = 0 }
  | some p ↦ p
]

-- `ensure(metaID).submittedBP += n`
unfoldable pub add_submitted : Str → ℕ → Assoc ShareParts → Assoc ShareParts
add_submitted k n m =
    let p = parts_at k m in
    insert k (record { submitted_bp = p.submitted_bp + n; reviewed_bp = p.reviewed_bp }) m

unfoldable pub add_reviewed : Str → ℕ → Assoc ShareParts → Assoc ShareParts
add_reviewed k n m =
    let p = parts_at k m in
    insert k (record { submitted_bp = p.submitted_bp; reviewed_bp = p.reviewed_bp + n }) m

pub record ShareContext : Type 0 where
  pub root_author : Str
  pub active_cycle_by_node : Assoc Cycle
  pub final_verified_pins : Assoc Bool
  pub weights : Assoc ℕ
  pub sigma : ℕ
  pub accuracy : Assoc ℕ
  pub votes_by_target : Assoc (List ChainEvent)

-- `cycleVotes`: the passes of bots that wrote neither the submission nor the task.
unfoldable pub cycle_votes : Str → Str → List ChainEvent → List ChainEvent
cycle_votes root author [] = []
cycle_votes root author (v ∷ votes) =
    let rest = cycle_votes root author votes in
    if str_eq (verdict_of v) (codes "pass")
      && (not (str_eq v.author author) && not (str_eq v.author root))
    then v ∷ rest
    else rest

unfoldable pub accuracy_sum : Assoc ℕ → List ChainEvent → ℕ
accuracy_sum accuracy [] = 0
accuracy_sum accuracy (v ∷ votes) = count_at v.author accuracy + accuracy_sum accuracy votes

unfoldable pub divide : ℕ → ℕ → Option ℕ
divide a b = if b == 0 then none else some (a / b)

unfoldable pub credit_reviewers :
    Assoc ℕ → ℕ → ℕ → List ChainEvent → Assoc ShareParts → Option (Assoc ShareParts)
unfolding divide add_reviewed
credit_reviewers accuracy pool sum [] m = some m
credit_reviewers accuracy pool sum (v ∷ votes) m =
    elim (divide (pool * count_at v.author accuracy) sum) [
      | none ↦ none
      | some n ↦ credit_reviewers accuracy pool sum votes (add_reviewed v.author n m)
    ]

-- The weight `w` of a node whose final submission is `s`.
unfoldable pub split_weight :
    ShareContext → ℕ → CycleSubmission → Assoc ShareParts → Option (Assoc ShareParts)
unfolding credit_reviewers accuracy_sum cycle_votes add_submitted
split_weight ctx w s m =
    let sub_bp = (w * ctx.sigma) / 10000 in
    let pool = w - sub_bp in
    let submitted = add_submitted s.author sub_bp m in
    elim (cycle_votes ctx.root_author s.author (events_at s.pin_id ctx.votes_by_target)) [
      | [] ↦ some (add_submitted s.author pool submitted)
      | v ∷ votes ↦
          credit_reviewers ctx.accuracy pool (accuracy_sum ctx.accuracy (v ∷ votes)) (v ∷ votes)
            submitted
    ]

-- The final submission of a node: the effective one of its active cycle, if it is verified.
unfoldable pub final_submission : ShareContext → Str → Option CycleSubmission
final_submission ctx node = elim (lookup node ctx.active_cycle_by_node) [
  | none ↦ none
  | some c ↦ elim c.effective [
    | none ↦ none
    | some s ↦ if flag s.pin_id ctx.final_verified_pins then some s else none
  ]
]

unfoldable pub settle_node : ShareContext → Str → Assoc ShareParts → Option (Assoc ShareParts)
unfolding split_weight final_submission
settle_node ctx node m = elim (final_submission ctx node) [
  | none ↦ some m
  | some s ↦
      if count_at node ctx.weights == 0
      then some m
      else split_weight ctx (count_at node ctx.weights) s m
]

unfoldable pub settle_nodes : ShareContext → List Str → Assoc ShareParts → Option (Assoc ShareParts)
unfolding settle_node
settle_nodes ctx [] m = some m
settle_nodes ctx (node ∷ nodes) m = elim (settle_node ctx node m) [
  | none ↦ none
  | some m' ↦ settle_nodes ctx nodes m'
]

pub record Share : Type 0 where
  pub meta_id : Str
  pub share_bp : ℕ
  pub submitted_bp : ℕ
  pub reviewed_bp : ℕ

unfoldable pub share_rows : Assoc ShareParts → List Share
share_rows [] = []
share_rows ((k, p) ∷ m) =
    record {
      meta_id = k;
      share_bp = p.submitted_bp + p.reviewed_bp;
      submitted_bp = p.submitted_bp;
      reviewed_bp = p.reviewed_bp;
    }
    ∷ share_rows m

unfoldable pub share_before : Share → Share → Bool
share_before a b =
    if not (a.share_bp == b.share_bp)
    then ltb b.share_bp a.share_bp
    else str_ltb a.meta_id b.meta_id

unfoldable pub share_sum : List Share → ℕ
share_sum [] = 0
share_sum (s ∷ shares) = s.share_bp + share_sum shares

-- `shares`; their sum is `shareSum`.
unfoldable pub settle_shares : ShareContext → List Str → Option (List Share)
unfolding settle_nodes share_rows share_before sort_stable
settle_shares ctx node_order = elim (settle_nodes ctx node_order []) [
  | none ↦ none
  | some m ↦ some (sort_stable share_before (share_rows m))
]
