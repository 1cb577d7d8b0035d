-- ===== src/Metatask/Challenges.antt =====
-- Challenges of verified nodes (internal/metatask/v121.go, from `openChallenges` on). The pins of
-- nodes that are finally verified are given.
pub mod Open
use metaso_p2p.Prelude.{
  ℕ, Bool, true, false, not, ◌&&◌, ◌||◌, Option, none, some, List, [], ◌∷◌, ◌++◌, if◌then◌else◌,
}
use metaso_p2p.Prelude.Int.{ℤ, pos, ◌-ℤ◌, ◌*ℤ◌, ltb_ℤ, eqb_ℤ, wrap64, max_int64}
use metaso_p2p.Prelude.Text.{Str, codes, str_eq}
use metaso_p2p.Prelude.Assoc.{Assoc, lookup, insert, without, flag}
use metaso_p2p.Metatask.Json.{Json, Fields, get, field_str, truthy_str_any}
use metaso_p2p.Metatask.Event.{ChainEvent}
use metaso_p2p.Metatask.Votes.{
  Reason, IgnoredEvent, below_h_act2, challenge_gate_failed, duplicate_open_challenge,
  target_not_active_verified, challenge_expired,
}
use metaso_p2p.Metatask.Walk.State.{Cycle, CycleSubmission}

-- `openChallenge`
pub record OpenChallenge : Type 0 where
  pub pin_id : Str
  pub node : Str
  pub author : Str
  pub target : Str

-- What the loop reads: the active cycles by node, and the clock where there is one.
pub record ChallengeContext : Type 0 where
  pub h_act2 : ℤ
  pub root_author : Str
  pub sub_author_by_pin : Assoc Str
  pub known_targets : Assoc Bool
  pub active_cycles : Assoc Cycle
  pub now : Option ℤ
  pub challenge_ttl : ℤ

pub record Challenges : Type 0 where
  pub open_challenges : Assoc OpenChallenge
  pub ignored_events : List IgnoredEvent

-- A missing key reads as the empty string.
unfoldable pub submitter_of : Str → Assoc Str → Str
submitter_of pin m = elim (lookup pin m) [ none ↦ [] | some author ↦ author ]

unfoldable pub is_withdrawal : Fields → Bool
is_withdrawal body = elim (get body (codes "withdraw")) [ some (Json.bool b) ↦ b | _ ↦ false ]

unfoldable pub anchors : Str → Cycle → Bool
anchors target cycle = elim cycle.effective [ none ↦ false | some sub ↦ str_eq sub.pin_id target ]

-- The active cycle whose effective submission is the target.
unfoldable pub find_target : Str → Assoc Cycle → Option Cycle
unfolding anchors
find_target target [] = none
find_target target ((node, cycle) ∷ m) =
    let rest = find_target target m in if anchors target cycle then some cycle else rest

-- The open challenges without those of an author on a target.
unfoldable pub withdraw : Str → Str → Assoc OpenChallenge → Assoc OpenChallenge
withdraw author target [] = []
withdraw author target ((key, o) ∷ m) =
    let rest = withdraw author target m in
    if str_eq o.author author && str_eq o.target target then rest else (key, o) ∷ rest

unfoldable pub challenge_past : ChallengeContext → ChainEvent → Bool
challenge_past ctx ch = elim ctx.now [
  | none ↦ false
  | some now ↦
      ltb_ℤ (pos 0) ch.timestamp_ms
      && ltb_ℤ (wrap64 (ctx.challenge_ttl *ℤ pos 86400000)) (wrap64 (now -ℤ ch.timestamp_ms))
]

unfoldable pub ignore_challenge : Challenges → ChainEvent → Reason → Challenges
ignore_challenge s ch reason = record s {
  ignored_events = s.ignored_events ++ record { pin_id = ch.pin_id; reason = reason } ∷ [];
}

unfoldable pub challenge_key : Str → Str → Str
challenge_key target author = target ++ codes " " ++ author

-- A challenge that passed the gates and is no withdrawal.
unfoldable pub open_challenge : ChallengeContext → Str → ChainEvent → Challenges → Challenges
unfolding find_target challenge_past ignore_challenge challenge_key
open_challenge ctx target ch s =
    let key = challenge_key target ch.author in
    elim (lookup key s.open_challenges) [
      | some _ ↦ ignore_challenge s ch duplicate_open_challenge
      | none ↦ elim (find_target target ctx.active_cycles) [
        | none ↦ ignore_challenge s ch target_not_active_verified
        | some cycle ↦
            if challenge_past ctx ch then ignore_challenge s ch challenge_expired else record s {
              open_challenges =
                  insert key
                    (record {
                      pin_id = ch.pin_id;
                      node = cycle.node;
                      author = ch.author;
                      target = target;
                    })
                    s.open_challenges;
            }
      ]
    ]

unfoldable pub gate_failed : ChallengeContext → Str → ChainEvent → Bool
unfolding submitter_of
gate_failed ctx target ch =
    str_eq ch.author (submitter_of target ctx.sub_author_by_pin)
    || str_eq ch.author ctx.root_author
    || not (truthy_str_any (get ch.body (codes "evidence")))

-- One challenge of the timeline.
unfoldable pub challenge_step : ChallengeContext → ChainEvent → Challenges → Challenges
unfolding gate_failed is_withdrawal withdraw ignore_challenge open_challenge
challenge_step ctx ch s =
    let target = field_str ch.body (codes "targetid") in
    if ltb_ℤ ch.height ctx.h_act2
    then ignore_challenge s ch below_h_act2
    else if gate_failed ctx target ch
    then ignore_challenge s ch challenge_gate_failed
    else if is_withdrawal ch.body
    then record s { open_challenges = withdraw ch.author target s.open_challenges }
    else open_challenge ctx target ch s

-- The challenges of a known target, in order.
unfoldable pub challenge_loop : ChallengeContext → List ChainEvent → Challenges → Challenges
unfolding challenge_step
challenge_loop ctx [] s = s
challenge_loop ctx (ch ∷ chs) s = challenge_loop ctx chs (
    if flag (field_str ch.body (codes "targetid")) ctx.known_targets
    then challenge_step ctx ch s
    else s)

-- With no second activation height there are no challenges.
unfoldable pub collect_challenges :
    ChallengeContext → List ChainEvent → List IgnoredEvent → Challenges
unfolding challenge_loop
collect_challenges ctx chs ignored =
    if eqb_ℤ ctx.h_act2 (pos max_int64)
    then record { open_challenges = []; ignored_events = ignored }
    else challenge_loop ctx chs (record { open_challenges = []; ignored_events = ignored })

-- A challenge stands while its target is the pin of its node, finally verified.
unfoldable pub stands : Assoc Cycle → Assoc Bool → OpenChallenge → Bool
stands active_cycles final_verified_pins o = elim (lookup o.node active_cycles) [
  | none ↦ false
  | some cycle ↦ elim cycle.effective [
    | none ↦ false
    | some sub ↦ flag sub.pin_id final_verified_pins && str_eq sub.pin_id o.target
  ]
]

-- The disputed nodes, and the challenges that stay open.
unfoldable pub settle_challenges :
    Assoc Cycle → Assoc Bool → Assoc OpenChallenge → Assoc Bool × Assoc OpenChallenge
unfolding stands
settle_challenges active_cycles final_verified_pins [] = ([], [])
settle_challenges active_cycles final_verified_pins ((key, o) ∷ m) =
    let rest = settle_challenges active_cycles final_verified_pins m in
    if stands active_cycles final_verified_pins o
    then (insert o.node true rest.0, (key, o) ∷ rest.1)
    else rest
