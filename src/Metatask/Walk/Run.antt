-- ===== src/Metatask/Walk/Run.antt =====
-- Ballots in the walk, and the walk itself: `runWalk`.
use metaso_p2p.Prelude.{
  ℕ, true, ◌||◌, Option, none, some, List, [], ◌∷◌, if◌then◌else◌, length, modify, leb,
}
use metaso_p2p.Prelude.Int.{pos, eqb_ℤ}
use metaso_p2p.Prelude.Text.{Str, codes, str_eq, is_empty}
use metaso_p2p.Prelude.Assoc.{Assoc, lookup, insert, without}
use metaso_p2p.Metatask.Json.{field_str}
use metaso_p2p.Metatask.Event.{
  EventPath, ChainEvent, task, tree, spec, claim, release, submission, verify, amend, challenge,
}
use metaso_p2p.Metatask.Votes.{str_at, target_of}
use metaso_p2p.Metatask.Walk.State.{
  verified_cycle, fail_rejected, Cycle, rejected, WalkState, new_walk, WalkContext, voters_at,
  free_node,
}
use metaso_p2p.Metatask.Walk.Locks.{claim_step, release_step}
use metaso_p2p.Metatask.Walk.Submissions.{get_cycle, submission_step}

-- `voters[vote.Author] = vote.PinID`, if the bot has not passed yet.
unfoldable pub add_voter : Assoc Str → ChainEvent → Assoc Str
add_voter voters vote = elim (lookup vote.author voters) [
  | some _ ↦ voters
  | none ↦ insert vote.author vote.pin_id voters
]

unfoldable pub mark_verified : ChainEvent → Cycle → Cycle
mark_verified vote c = record c {
  outcome = verified_cycle;
  quorum_at_ms = if eqb_ℤ c.quorum_at_ms (pos 0) then vote.timestamp_ms else c.quorum_at_ms;
}

-- A pass by a bot that neither wrote the submission nor the task.
unfoldable pub count_pass : WalkContext → WalkState → Str → Str → ℕ → ChainEvent → WalkState
unfolding add_voter mark_verified
count_pass ctx w node target i vote =
    let voters = add_voter (voters_at node w.pass_voters_by_node) vote in
    let counted = record w { pass_voters_by_node = insert node voters w.pass_voters_by_node } in
    if leb ctx.quorum (length voters)
    then record counted {
      cycles = modify (mark_verified vote) w.cycles i;
      verified_submission_pins = insert target true w.verified_submission_pins;
    }
    else counted

unfoldable pub mark_rejected : Cycle → Cycle
mark_rejected c = record c { outcome = fail_rejected }

-- A fail reopens the node at once, also after the quorum.
unfoldable pub reject_cycle : WalkState → Str → Str → ℕ → WalkState
unfolding free_node mark_rejected
reject_cycle w node target i =
    free_node
      (record w {
        cycles = modify mark_rejected w.cycles i;
        verified_submission_pins = without target w.verified_submission_pins;
      })
      node rejected

-- The cycle whose live effective submission is `target`.
unfoldable pub live_cycle : WalkState → Str → Str → Option ℕ
live_cycle w node target = elim (lookup node w.holders) [
  | none ↦ none
  | some h ↦ elim (get_cycle w node h.pin_id) [
    | none ↦ none
    | some (i, c) ↦ elim c.effective [
      | none ↦ none
      | some s ↦ if str_eq s.pin_id target then some i else none
    ]
  ]
]

abbrev pub verdict_of : ChainEvent → Str
verdict_of vote = field_str vote.body (codes "verdict")

-- A ballot that has reached the live cycle `i` of `node`.
unfoldable pub act_vote : WalkContext → WalkState → Str → Str → ℕ → ChainEvent → WalkState
unfolding count_pass reject_cycle
act_vote ctx w node target i vote =
    let reached = record w { reached_vote = insert vote.pin_id true w.reached_vote } in
    if str_eq (verdict_of vote) (codes "fail")
    then reject_cycle reached node target i
    else if str_eq (verdict_of vote) (codes "pass")
    then if str_eq vote.author (str_at target ctx.sub_author_by_pin)
        || str_eq vote.author ctx.root_author
      then reached
      else count_pass ctx reached node target i vote
    else reached

unfoldable pub vote_step : WalkContext → WalkState → ChainEvent → WalkState
unfolding get_cycle live_cycle act_vote
vote_step ctx w vote =
    let target = target_of vote in
    let node = str_at target w.node_of_live_target in
    if is_empty node
    then w
    else elim (live_cycle w node target) [ none ↦ w | some i ↦ act_vote ctx w node target i vote ]

unfoldable pub verify_step : WalkContext → WalkState → ChainEvent → WalkState
unfolding vote_step
verify_step ctx w pin = elim (lookup pin.pin_id ctx.last_vote_by_pin) [
  | none ↦ w
  | some vote ↦ vote_step ctx w vote
]

unfoldable pub dispatch : EventPath → WalkContext → WalkState → ChainEvent → WalkState
unfolding claim_step release_step submission_step verify_step
dispatch claim ctx w pin = claim_step ctx w pin
dispatch release ctx w pin = release_step ctx w pin
dispatch submission ctx w pin = submission_step ctx w pin
dispatch verify ctx w pin = verify_step ctx w pin
dispatch task ctx w pin = w
dispatch tree ctx w pin = w
dispatch spec ctx w pin = w
dispatch amend ctx w pin = w
dispatch challenge ctx w pin = w

-- One round of the walk: `switch pin.Path`.
unfoldable pub walk_step : WalkContext → WalkState → ChainEvent → WalkState
unfolding dispatch
walk_step ctx w pin = dispatch pin.path ctx w pin

unfoldable pub run_walk_from : WalkContext → WalkState → List ChainEvent → WalkState
run_walk_from ctx w [] = w
run_walk_from ctx w (pin ∷ timeline) = run_walk_from ctx (walk_step ctx w pin) timeline

unfoldable pub run_walk : WalkContext → List ChainEvent → WalkState
unfolding run_walk_from
run_walk ctx timeline = run_walk_from ctx new_walk timeline
