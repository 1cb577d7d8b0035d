-- ===== src/Metatask/Shares/Payout.antt =====
-- The payout of a settlement: the credits of its nodes against their weights.
use mathlib.Core.List.{Permᴰ}
use native.Mathlib.Nat.{div-le_of_le-mul, mul-le-mul_left, le_of_mul-le-mul_right}
use metaso_p2p.Prelude.{
  ℕ, ◌+◌, ◌-◌, ◌*◌, ◌/◌, ◌≤◌, ◌<◌, ◌≡◌, refl, ap, ◌∙◌, arith, inl, inr, Bool, Option, some, List,
  [], ◌∷◌, ◌==◌, All, All-map, Distinct, Bool-cases, Option-cases,
}
use metaso_p2p.Prelude.Int.{ℤ}
use metaso_p2p.Prelude.Text.{Str}
use metaso_p2p.Prelude.Assoc.{Assoc, lookup}
use metaso_p2p.Prelude.Sort.Laws.{sort_stable-perm}
use metaso_p2p.Prelude.Sort.{sort_stable}
use metaso_p2p.Metatask.Json.{Json}
use metaso_p2p.Metatask.Event.{ChainEvent}
use metaso_p2p.Metatask.Votes.{events_at}
use metaso_p2p.Metatask.Walk.State.{Cycle, CycleSubmission, count_at}
use metaso_p2p.Metatask.Shares.{
  TreeNode, settle_weights, submitter_share, Participant, accuracy_of, ShareParts, add_submitted,
  ShareContext, cycle_votes, accuracy_sum, split_weight, final_submission, settle_node,
  settle_nodes, Share, share_rows, share_before, share_sum, settle_shares,
}
use metaso_p2p.Metatask.Shares.Sums.{
  weight_sum, parts_total, parts_total-add_submitted, credit_reviewers-total,
}
use metaso_p2p.Metatask.Shares.Bounds.{
  accuracy_bp-bounds, submitter_share-bounds, settle_weights-le,
}

-- Each reviewer of a settled node has an accuracy above zero.
abbrev pub Reviewed : ShareContext → Str → Type 0
Reviewed ctx node =
    (s : CycleSubmission)
    → final_submission ctx node ≡ some s
    → All (λ v. 0 < count_at v.author ctx.accuracy)
        (cycle_votes ctx.root_author s.author (events_at s.pin_id ctx.votes_by_target))

sub-le : (w sigma : ℕ) → sigma ≤ 10000 → (w * sigma) / 10000 ≤ w
sub-le w sigma h = div-le_of_le-mul 10000 (omega (arith, mul-le-mul_left w h))

abbrev voters_of : ShareContext → CycleSubmission → List ChainEvent
voters_of ctx s = cycle_votes ctx.root_author s.author (events_at s.pin_id ctx.votes_by_target)

split_weight-cases :
    (ctx : ShareContext) (w : ℕ) (s : CycleSubmission) (m : Assoc ShareParts)
    (votes : List ChainEvent)
    → voters_of ctx s ≡ votes
    → ctx.sigma ≤ 10000
    → All (λ v. 0 < count_at v.author ctx.accuracy) votes
    → (m' : Assoc ShareParts) × (split_weight ctx w s m ≡ some m')
      × (parts_total m' ≤ parts_total m + w)
unfolding split_weight accuracy_sum
split_weight-cases ctx w s m [] e h alive =
    let sub = (w * ctx.sigma) / 10000 in
    let start = add_submitted s.author sub m in
    (
      add_submitted s.author (w - sub) start,
      rw (split_weight, e) refl,
      omega (
        arith,
        sub-le w ctx.sigma h,
        parts_total-add_submitted s.author sub m,
        parts_total-add_submitted s.author (w - sub) start,
      ),
    )
split_weight-cases ctx w s m (v ∷ votes) e h alive =
    let sub = (w * ctx.sigma) / 10000 in
    let start = add_submitted s.author sub m in
    let positive : 0 < accuracy_sum ctx.accuracy (v ∷ votes) = omega (arith, alive.0) in
    let (m', c, run, t, b) =
      credit_reviewers-total ctx.accuracy (w - sub) (accuracy_sum ctx.accuracy (v ∷ votes))
        (v ∷ votes) start positive in
    let within : c ≤ w - sub = le_of_mul-le-mul_right b positive in
    (
      m',
      rw (split_weight, e) run,
      omega (arith, t, within, sub-le w ctx.sigma h, parts_total-add_submitted s.author sub m),
    )

settle_node-total :
    (ctx : ShareContext) (node : Str) (m : Assoc ShareParts)
    → ctx.sigma ≤ 10000
    → Reviewed ctx node
    → (m' : Assoc ShareParts) × (settle_node ctx node m ≡ some m')
      × (parts_total m' ≤ parts_total m + count_at node ctx.weights)
unfolding settle_node
settle_node-total ctx node m h r = elim (Option-cases (final_submission ctx node)) [
  | inl e ↦ (m, rw (settle_node, e) refl, omega arith)
  | inr (s, e) ↦ elim (Bool-cases (count_at node ctx.weights == 0)) [
    | inl z ↦ (m, rw (settle_node, e, z) refl, omega arith)
    | inr nz ↦
        let (m', run, t) =
          split_weight-cases ctx (count_at node ctx.weights) s m (voters_of ctx s) refl h (r s e) in
        (m', rw (settle_node, e, nz) run, t)
  ]
]

settle_nodes-total :
    (ctx : ShareContext) (nodes : List Str) (m : Assoc ShareParts)
    → ctx.sigma ≤ 10000
    → All (Reviewed ctx) nodes
    → (m' : Assoc ShareParts) × (settle_nodes ctx nodes m ≡ some m')
      × (parts_total m' ≤ parts_total m + weight_sum ctx.weights nodes)
unfolding settle_nodes weight_sum
settle_nodes-total ctx [] m h r = (m, refl, omega arith)
settle_nodes-total ctx (node ∷ nodes) m h r =
    let (m1, run1, t1) = settle_node-total ctx node m h r.0 in
    let (m2, run2, t2) = settle_nodes-total ctx nodes m1 h r.1 in
    (m2, rw (settle_nodes, run1) run2, omega (arith, t1, t2))

share_sum-perm : {xs ys : List Share} → Permᴰ xs ys → share_sum xs ≡ share_sum ys
unfolding share_sum
share_sum-perm Permᴰ.nil = refl
share_sum-perm (Permᴰ.cons e p) = omega (arith, ap (λ s. s.share_bp) e, share_sum-perm p)
share_sum-perm (Permᴰ.swap e f) = omega (arith, ap (λ s. s.share_bp) e, ap (λ s. s.share_bp) f)
share_sum-perm (Permᴰ.trans p q) = share_sum-perm p ∙ share_sum-perm q

share_sum-rows : (m : Assoc ShareParts) → share_sum (share_rows m) ≡ parts_total m
unfolding share_sum share_rows parts_total
share_sum-rows [] = refl
share_sum-rows ((k, p) ∷ m) = omega (arith, share_sum-rows m)

settle_shares-total :
    (ctx : ShareContext) (nodes : List Str)
    → ctx.sigma ≤ 10000
    → All (Reviewed ctx) nodes
    → (shares : List Share) × (settle_shares ctx nodes ≡ some shares)
      × (share_sum shares ≤ weight_sum ctx.weights nodes)
unfolding settle_shares parts_total
settle_shares-total ctx nodes h r =
    let (m, run, t) = settle_nodes-total ctx nodes [] h r in
    let sorted = share_sum-perm (sort_stable-perm share_before (share_rows m)) in
    (
      sort_stable share_before (share_rows m),
      rw (settle_shares, run) refl,
      omega (arith, t, sorted, share_sum-rows m),
    )

-- What the settlement of a task reads.
pub record Settlement : Type 0 where
  pub root_author : Str
  pub node_order : List Str
  pub effective_tree : Assoc TreeNode
  pub active_cycle_by_node : Assoc Cycle
  pub final_verified_pins : Assoc Bool
  pub split_share : Option Json
  pub participants : Assoc Participant
  pub votes_by_target : Assoc (List ChainEvent)

abbrev pub share_context : (ℤ → ℤ) → Settlement → ShareContext
share_context to_int64 t = record {
  root_author = t.root_author;
  active_cycle_by_node = t.active_cycle_by_node;
  final_verified_pins = t.final_verified_pins;
  weights = settle_weights t.node_order t.effective_tree;
  sigma = submitter_share to_int64 t.split_share;
  accuracy = accuracy_of t.participants;
  votes_by_target = t.votes_by_target;
}

-- The reviewers of the node are participants.
abbrev pub Participating : (ℤ → ℤ) → Settlement → Str → Type 0
Participating to_int64 t node =
    (s : CycleSubmission)
    → final_submission (share_context to_int64 t) node ≡ some s
    → All (λ v. (p : Participant) × (lookup v.author t.participants ≡ some p))
        (cycle_votes t.root_author s.author (events_at s.pin_id t.votes_by_target))

accuracy_of-positive :
    (k : Str) (ps : Assoc Participant) (p : Participant)
    → lookup k ps ≡ some p
    → 0 < count_at k (accuracy_of ps)
unfolding lookup accuracy_of
accuracy_of-positive k [] p e = cc
accuracy_of-positive k ((j, q) ∷ ps) p e =
    ground (arith, e, accuracy_of-positive k ps p, (accuracy_bp-bounds q).0)

-- A settlement whose nodes are distinct and whose reviewers are participants never divides by zero:
-- it gives shares, which sum up to at most 10000 basis points.
pub settle_shares-within :
    (to_int64 : ℤ → ℤ) (t : Settlement)
    → Distinct t.node_order
    → All (Participating to_int64 t) t.node_order
    → (shares : List Share) × (settle_shares (share_context to_int64 t) t.node_order ≡ some shares)
      × (share_sum shares ≤ 10000)
settle_shares-within to_int64 t d r =
    let reviewed =
      All-map (Participating to_int64 t) (Reviewed (share_context to_int64 t))
        (λ node h s e.
          All-map _ _ (λ v q. accuracy_of-positive v.author t.participants q.0 q.1) _ (h s e))
        t.node_order r in
    let sigma = submitter_share-bounds to_int64 t.split_share in
    let (shares, run, le) =
      settle_shares-total (share_context to_int64 t) t.node_order (omega (arith, sigma.1))
        reviewed in
    (shares, run, omega (arith, le, settle_weights-le t.node_order t.effective_tree d))
