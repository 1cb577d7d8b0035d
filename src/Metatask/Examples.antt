-- ===== src/Metatask/Examples.antt =====
-- Concrete events and walks for the tests.
pub mod Walks
pub mod Challenges
pub mod Votes
pub mod Payouts
pub mod Amends
pub mod Pools
use metaso_p2p.Prelude.{true, none, some, List, [], ◌∷◌}
use metaso_p2p.Prelude.Int.{pos}
use metaso_p2p.Prelude.Text.{Str, codes}
use metaso_p2p.Prelude.Assoc.{Assoc}
use metaso_p2p.Metatask.Json.{text, Fields, end, field}
use metaso_p2p.Metatask.Event.{ChainEvent, claim, submission, verify}
use metaso_p2p.Metatask.Walk.State.{
  CycleSubmission, Cycle, open_cycle, verified_cycle, Holder, WalkContext,
}

abbrev pub claim_pin : ChainEvent
claim_pin = record {
  pin_id = codes "c1";
  path = claim;
  author = codes "alice";
  height = pos 10;
  tx_index = pos 0;
  timestamp_ms = pos 1000;
  body = field (codes "node") (text (codes "n1")) end;
}

abbrev pub submission_body : Fields
submission_body =
    field (codes "node") (text (codes "n1")) (field (codes "claimid") (text (codes "c1")) end)

abbrev pub submission_pin : ChainEvent
submission_pin = record {
  pin_id = codes "s1";
  path = submission;
  author = codes "alice";
  height = pos 11;
  tx_index = pos 0;
  timestamp_ms = pos 2000;
  body = submission_body;
}

abbrev pub pass_pin : ChainEvent
pass_pin = record {
  pin_id = codes "v1";
  path = verify;
  author = codes "bob";
  height = pos 12;
  tx_index = pos 0;
  timestamp_ms = pos 3000;
  body = field (codes "targetid") (text (codes "s1")) (
      field (codes "verdict") (text (codes "pass"))
        (field (codes "semantic_check") (text (codes "ok")) end));
}

abbrev pub superseding_body : Fields
superseding_body = field (codes "node") (text (codes "n1")) (
    field (codes "claimid") (text (codes "c1"))
      (field (codes "supersedeid") (text (codes "s1")) end))

abbrev pub superseding_pin : ChainEvent
superseding_pin = record {
  pin_id = codes "s2";
  path = submission;
  author = codes "alice";
  height = pos 13;
  tx_index = pos 0;
  timestamp_ms = pos 4000;
  body = superseding_body;
}

abbrev pub timeline : List ChainEvent
timeline = claim_pin ∷ submission_pin ∷ pass_pin ∷ []

abbrev pub walk_context : WalkContext
walk_context = record {
  root_author = codes "root";
  quorum = 1;
  h_act2 = pos 0;
  sub_author_by_pin = (codes "s1", codes "alice") ∷ (codes "s2", codes "alice") ∷ [];
  last_vote_by_pin = (codes "v1", pass_pin) ∷ [];
  in_tree = none;
}

abbrev pub first_submission : CycleSubmission
first_submission = record {
  pin_id = codes "s1";
  author = codes "alice";
  at_ms = pos 2000;
  height = pos 11;
  supersede_id = [];
  body = submission_body;
}

abbrev pub verified_example : Cycle
verified_example = record {
  node = codes "n1";
  claim_id = codes "c1";
  claimant = codes "alice";
  submissions = first_submission ∷ [];
  effective = some first_submission;
  superseded = [];
  outcome = verified_cycle;
  quorum_at_ms = pos 3000;
}

abbrev pub alice_holds : Holder
alice_holds = record {
  pin_id = codes "c1";
  claimant = codes "alice";
  since_ms = pos 1000;
  height = pos 10;
}
