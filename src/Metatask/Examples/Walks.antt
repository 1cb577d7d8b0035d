-- ===== src/Metatask/Examples/Walks.antt =====
-- The theorems on the walk and the ballots at a claim, its submission and a pass.
use mathlib.Core.List.{Memᴰ}
use metaso_p2p.Prelude.{
  ◌≡◌, ◌≢◌, ◌≤◌, ◌⊎◌, refl, none, some, List, length, get_elem?, All, Distinct,
}
use metaso_p2p.Prelude.Int.{pos, ◌-ℤ◌, ◌*ℤ◌, wrap64}
use metaso_p2p.Prelude.Text.{Str, codes, str_eq}
use metaso_p2p.Prelude.Assoc.{lookup, insert, without, DistinctKeys}
use metaso_p2p.Metatask.Json.{get, str_any}
use metaso_p2p.Metatask.Walk.State.{WalkState, Cycle, verified_cycle, ghost}
use metaso_p2p.Metatask.Walk.Locks.{claim_step, take_lock, log_claim}
use metaso_p2p.Metatask.Walk.Submissions.{
  get_cycle, find_submission, chain_ok, ensure_cycle, make_effective, attach_submission,
  submission_of, submission_step,
}
use metaso_p2p.Metatask.Walk.Run.{
  add_voter, mark_verified, count_pass, live_cycle, act_vote, vote_step, verify_step, dispatch,
  walk_step, run_walk_from, run_walk,
}
use metaso_p2p.Metatask.Walk.Quorum.{Passed}
use metaso_p2p.Metatask.Walk.Quorum.Walked.{verified_needs_quorum}
use metaso_p2p.Metatask.Walk.Owner.History.{held_until_freed, holder_claimed}
use metaso_p2p.Metatask.Event.{ChainEvent}
use metaso_p2p.Metatask.Walk.State.{expired_review_window}
use metaso_p2p.Metatask.Walk.Owner.{Releases, Rejects, Claims}
use metaso_p2p.Metatask.Walk.Expiry.{ExpiryRules, past, expired, apply_expiry}
use metaso_p2p.Metatask.Walk.Expiry.Lapses.{Lapsed, apply_expiry-holders}
use metaso_p2p.Metatask.Examples.{
  superseding_pin, timeline, walk_context, verified_example, alice_holds,
}

abbrev walked : WalkState
walked = run_walk walk_context timeline

walked_cycle : get_elem? walked.cycles 0 ≡ some verified_example
unfolding run_walk run_walk_from walk_step dispatch claim_step take_lock log_claim lookup insert
    without str_eq get str_any ghost submission_step get_cycle ensure_cycle attach_submission
    make_effective verify_step vote_step live_cycle act_vote count_pass add_voter mark_verified
walked_cycle = refl

verified_needs_quorum_example :
    (bots : List Str) × (walk_context.quorum ≤ length bots)
    × Distinct bots
    × All (Passed walk_context timeline verified_example) bots
verified_needs_quorum_example =
    verified_needs_quorum walk_context timeline 0 verified_example walked_cycle refl

alice_held : lookup (codes "n1") walked.holders ≡ some alice_holds
unfolding run_walk run_walk_from walk_step dispatch claim_step take_lock log_claim lookup insert
    without str_eq get str_any ghost submission_step get_cycle ensure_cycle attach_submission
    make_effective verify_step vote_step live_cycle act_vote count_pass add_voter mark_verified
alice_held = refl

-- The submission that supersedes the verified one does not move the lock.
held_until_freed_example :
    (lookup (codes "n1") (walk_step walk_context walked superseding_pin).holders ≡ some alice_holds)
    ⊎ (Releases walk_context superseding_pin (codes "n1") alice_holds
        ⊎ Rejects walk_context walked superseding_pin (codes "n1"))
held_until_freed_example =
    held_until_freed walk_context walked superseding_pin (codes "n1") alice_holds alice_held

holder_claimed_example :
    (pin : ChainEvent) × Memᴰ pin timeline × Claims walk_context pin (codes "n1") alice_holds
holder_claimed_example = holder_claimed walk_context timeline (codes "n1") alice_holds alice_held

-- It does supersede the submission of the verified cycle.
effective_moved :
    (d : Cycle) × (get_elem? (submission_step walk_context walked superseding_pin).cycles 0
      ≡ some d)
    × (d.effective ≡ some (submission_of superseding_pin))
    × (d.outcome ≡ verified_cycle)
unfolding run_walk run_walk_from walk_step dispatch claim_step take_lock log_claim lookup insert
    without str_eq get str_any ghost submission_step get_cycle ensure_cycle attach_submission
    make_effective verify_step vote_step live_cycle act_vote count_pass add_voter mark_verified
    find_submission chain_ok
effective_moved = (_, refl, refl, refl)

-- Two quorum votes are wanted, and the window of an hour has passed.
abbrev expiry_rules : ExpiryRules
expiry_rules = record {
  now_ms = pos 9_000_000;
  ttl_hours = pos 72;
  window_hours = pos 1;
  quorum = 2;
}

walked_once : DistinctKeys walked.holders
unfolding run_walk run_walk_from walk_step dispatch claim_step take_lock log_claim lookup insert
    without str_eq get str_any ghost submission_step get_cycle ensure_cycle attach_submission
    make_effective verify_step vote_step live_cycle act_vote count_pass add_voter mark_verified
walked_once = (refl, tt)

apply_expiry-holders_example :
    ((lookup (codes "n1") (apply_expiry expiry_rules walked).holders ≡ none)
      × (expiry_rules.now_ms ≢ pos 0)
      × Lapsed expiry_rules walked (codes "n1") alice_holds)
    ⊎ ((lookup (codes "n1") (apply_expiry expiry_rules walked).holders ≡ some alice_holds)
        × ((expiry_rules.now_ms ≡ pos 0) ⊎ ¬ Lapsed expiry_rules walked (codes "n1") alice_holds))
apply_expiry-holders_example =
    apply_expiry-holders expiry_rules walked (codes "n1") alice_holds walked_once alice_held

-- It is a review window that has passed, so the node is free.
expired_window : expired expiry_rules walked (codes "n1") alice_holds ≡ some expired_review_window
unfolding run_walk run_walk_from walk_step dispatch claim_step take_lock log_claim lookup insert
    without str_eq get str_any ghost submission_step get_cycle ensure_cycle attach_submission
    make_effective verify_step vote_step live_cycle act_vote count_pass add_voter mark_verified
    expired past ◌-ℤ◌ ◌*ℤ◌ wrap64
expired_window = refl
