-- ===== src/Metatask/Walk/Submissions.antt =====
-- Submissions in the walk: the cycle of a claim and its chain of superseding submissions.
use metaso_p2p.Prelude.{
  ℕ, Bool, true, false, not, ◌&&◌, ◌||◌, Option, none, some, List, [], ◌∷◌, ◌++◌, if◌then◌else◌,
  length, get_elem?, modify,
}
use metaso_p2p.Prelude.Int.{pos, leb_ℤ}
use metaso_p2p.Prelude.Text.{Str, codes, str_eq, is_empty}
use metaso_p2p.Prelude.Assoc.{lookup, insert, flag}
use metaso_p2p.Metatask.Json.{field_str}
use metaso_p2p.Metatask.Event.{ChainEvent}
use metaso_p2p.Metatask.Votes.{
  unknown_node, duplicate_without_supersede, supersede_predicate_failed,
}
use metaso_p2p.Metatask.Walk.State.{
  CycleSubmission, open_cycle, Cycle, WalkState, WalkContext, ghost, node_field, claim_field,
  ignore_event,
}

-- `node + " " + claimID`
abbrev pub cycle_key : Str → Str → Str
cycle_key node claim_id = node ++ b' ' ∷ claim_id

-- `getCycle`, with what the pointer points to.
unfoldable pub get_cycle : WalkState → Str → Str → Option (ℕ × Cycle)
get_cycle w node claim_id = elim (lookup (cycle_key node claim_id) w.cycle_by_node_claim) [
  | none ↦ none
  | some i ↦ elim (get_elem? w.cycles i) [ none ↦ none | some c ↦ some (i, c) ]
]

abbrev pub fresh_cycle : Str → Str → Str → Cycle
fresh_cycle node claim_id claimant = record {
  node = node;
  claim_id = claim_id;
  claimant = claimant;
  submissions = [];
  effective = none;
  superseded = [];
  outcome = open_cycle;
  quorum_at_ms = pos 0;
}

-- The cycle of a node and its live claim, made on the first submission.
unfoldable pub ensure_cycle : WalkState → Str → Str → Str → WalkState
ensure_cycle w node claim_id claimant = elim (get_cycle w node claim_id) [
  | some _ ↦ w
  | none ↦ record w {
    cycles = w.cycles ++ fresh_cycle node claim_id claimant ∷ [];
    cycle_by_node_claim = insert (cycle_key node claim_id) (length w.cycles) w.cycle_by_node_claim;
  }
]

abbrev pub submission_of : ChainEvent → CycleSubmission
submission_of pin = record {
  pin_id = pin.pin_id;
  author = pin.author;
  at_ms = pin.timestamp_ms;
  height = pin.height;
  supersede_id = field_str pin.body (codes "supersedeid");
  body = pin.body;
}

unfoldable pub find_submission : Str → List CycleSubmission → Option CycleSubmission
find_submission pin [] = none
find_submission pin (s ∷ ss) = if str_eq s.pin_id pin then some s else find_submission pin ss

-- The predicates on a submission that names the one it supersedes.
unfoldable pub chain_ok : WalkContext → Cycle → CycleSubmission → CycleSubmission → Bool
chain_ok ctx c effective r = elim (find_submission r.supersede_id c.submissions) [
  | none ↦ false
  | some target ↦
      not (str_eq target.pin_id r.pin_id)
      && str_eq target.pin_id effective.pin_id
      && str_eq target.author r.author
      && leb_ℤ ctx.h_act2 r.height
      && leb_ℤ ctx.h_act2 target.height
      && not (flag r.supersede_id c.superseded)
]

-- The submission becomes the effective one of cycle `i`.
unfoldable pub make_effective : WalkState → Str → ℕ → CycleSubmission → (Cycle → Cycle) → WalkState
make_effective w node i r mark = record w {
  cycles =
      modify (λ c. record (mark c) { submissions = c.submissions ++ r ∷ []; effective = some r })
        w.cycles i;
  node_of_live_target = insert r.pin_id node w.node_of_live_target;
  submission_cycle = insert r.pin_id i w.submission_cycle;
}

unfoldable pub mark_superseded : Str → Cycle → Cycle
mark_superseded pin c = record c { superseded = insert pin true c.superseded }

unfoldable pub attach_submission :
    WalkContext → WalkState → Str → ℕ × Cycle → CycleSubmission → WalkState
unfolding ignore_event make_effective mark_superseded
attach_submission ctx w node (i, c) r = elim c.effective [
  | none ↦ make_effective w node i r (λ d. d)
  | some effective ↦
      if is_empty r.supersede_id
      then ignore_event w r.pin_id duplicate_without_supersede
      else if chain_ok ctx c effective r
      then make_effective w node i r (mark_superseded r.supersede_id)
      else ignore_event w r.pin_id supersede_predicate_failed
]

unfoldable pub submission_step : WalkContext → WalkState → ChainEvent → WalkState
submission_step ctx w pin =
    let node = node_field pin in
    let claim_id = claim_field pin in
    if is_empty node || is_empty claim_id
    then w
    else if ghost ctx node
    then ignore_event w pin.pin_id unknown_node
    else elim (lookup node w.holders) [
      | none ↦ w
      | some h ↦
          if not (str_eq h.pin_id claim_id)
          then w
          else let w' = ensure_cycle w node claim_id h.claimant in
            elim (get_cycle w' node claim_id) [
              | none ↦ w'
              | some found ↦ attach_submission ctx w' node found (submission_of pin)
            ]
    ]
