-- ===== src/Metatask/Examples/Challenges.antt =====
-- A challenge of a verified node, and one that the gates stop (internal/metatask/v121.go).
use metaso_p2p.Prelude.{◌≡◌, refl, true, none, some, [], ◌∷◌, length}
use metaso_p2p.Prelude.Int.{pos}
use metaso_p2p.Prelude.Text.{Str, codes, str_eq}
use metaso_p2p.Prelude.Assoc.{Assoc, lookup, insert}
use metaso_p2p.Metatask.Json.{Json, Fields, get, str_any, truthy_str_any, is_blank}
use metaso_p2p.Metatask.Event.{ChainEvent, EventPath}
use metaso_p2p.Metatask.Walk.State.{Cycle, CycleSubmission, CycleOutcome}
use metaso_p2p.Metatask.Challenges.{
  OpenChallenge, ChallengeContext, collect_challenges, challenge_loop, challenge_step, gate_failed,
  is_withdrawal, open_challenge, find_target, anchors, challenge_past, ignore_challenge,
  submitter_of, challenge_key,
}
use metaso_p2p.Metatask.Challenges.Open.{AllOpen, collect_challenges-All}

abbrev submitted : CycleSubmission
submitted = record {
  pin_id = codes "s";
  author = codes "worker";
  at_ms = pos 1;
  height = pos 10;
  supersede_id = [];
  body = Fields.end;
}

abbrev verified_cycle : Cycle
verified_cycle = record {
  node = codes "n";
  claim_id = codes "c";
  claimant = codes "worker";
  submissions = submitted ∷ [];
  effective = some submitted;
  superseded = [];
  outcome = CycleOutcome.verified_cycle;
  quorum_at_ms = pos 2;
}

abbrev challenge_by : Str → ChainEvent
challenge_by author = record {
  pin_id = codes "x";
  path = EventPath.challenge;
  author = author;
  height = pos 20;
  tx_index = pos 0;
  timestamp_ms = pos 5;
  body =
      Fields.field (codes "targetid") (Json.text (codes "s"))
        (Fields.field (codes "evidence") (Json.text (codes "e")) Fields.end);
}

abbrev rules : ChallengeContext
rules = record {
  h_act2 = pos 15;
  root_author = codes "owner";
  sub_author_by_pin = (codes "s", codes "worker") ∷ [];
  known_targets = (codes "s", true) ∷ [];
  active_cycles = (codes "n", verified_cycle) ∷ [];
  now = none;
  challenge_ttl = pos 7;
}

-- The second is by the submitter, and the third repeats the first.
one_open :
    length
      (collect_challenges rules
        (challenge_by (codes "critic")
          ∷ challenge_by (codes "worker")
          ∷ challenge_by (codes "critic")
          ∷ [])
        []).open_challenges
    ≡ 1
unfolding collect_challenges challenge_loop challenge_step gate_failed is_withdrawal open_challenge
    find_target anchors challenge_past ignore_challenge submitter_of challenge_key lookup insert
    str_eq get str_any truthy_str_any is_blank
one_open = refl

collect_challenges-All_example :
    AllOpen rules (collect_challenges rules (challenge_by (codes "critic") ∷ []) [])
collect_challenges-All_example =
    collect_challenges-All rules (challenge_by (codes "critic") ∷ []) []

abbrev opened : Assoc OpenChallenge
opened =
    (
      codes "s critic",
      record { pin_id = codes "x"; node = codes "n"; author = codes "critic"; target = codes "s" },
    )
    ∷ []
