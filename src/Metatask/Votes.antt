-- ===== src/Metatask/Votes.antt =====
-- Ballots before the walk (internal/metatask/v121.go): the gates, the roster filter, and the last
-- valid ballot of each bot on each submission.
pub mod Collapse
use metaso_p2p.Prelude.{
  Bool, true, false, not, ◌&&◌, ◌||◌, Option, none, some, List, [], ◌∷◌, ◌++◌, if◌then◌else◌,
  length,
}
use metaso_p2p.Prelude.Int.{ℤ, pos, ltb_ℤ, leb_ℤ, eqb_ℤ, max_int64}
use metaso_p2p.Prelude.Text.{Str, codes, str_eq, is_empty}
use metaso_p2p.Prelude.Assoc.{Assoc, lookup, insert}
use metaso_p2p.Metatask.Json.{
  Json, array, text, Fields, get, to_list, field_str, str_any, truthy_str_any,
}
use metaso_p2p.Metatask.Event.{ChainEvent}

-- The closed set of reasons for which a fact is recorded and has no effect.
pub data Reason : Type 0 where
  missing_semantic_check missing_failreason same_side_roster : Reason
  unknown_node duplicate_without_supersede supersede_predicate_failed : Reason
  below_h_act2 amend_not_publisher amend_task_finalized amend_stale amend_conflict : Reason
  amend_invariant_violation : Reason
  challenge_gate_failed duplicate_open_challenge target_not_active_verified : Reason
  challenge_expired : Reason

pub record IgnoredEvent : Type 0 where
  pub pin_id : Str
  pub reason : Reason

-- `v121GateReason`; `none` is the empty string.
unfoldable pub gate_reason : Fields → ℤ → ℤ → Option Reason
gate_reason body height h_act =
    if ltb_ℤ height h_act
    then none
    else if not (truthy_str_any (get body (codes "semantic_check")))
    then some missing_semantic_check
    else if str_eq (field_str body (codes "verdict")) (codes "fail")
        && not (truthy_str_any (get body (codes "failreason")))
    then some missing_failreason
    else none

-- The strings of one group.
group_ids : List Json → List Str
group_ids [] = []
group_ids (text s ∷ vs) = s ∷ group_ids vs
group_ids (_ ∷ vs) = group_ids vs

groups_of : List Json → List (List Str)
unfolding group_ids
groups_of [] = []
groups_of (array vs ∷ gs) = group_ids (to_list vs) ∷ groups_of gs
groups_of (_ ∷ gs) = groups_of gs

groups_field : Option Json → List (List Str)
unfolding groups_of
groups_field (some (array gs)) = groups_of (to_list gs)
groups_field _ = []

unfoldable pub roster_groups_for : Option Fields → List (List Str)
unfolding groups_field
roster_groups_for none = []
roster_groups_for (some body) = groups_field (get body (codes "groups"))

unfoldable pub contains : List Str → Str → Bool
contains [] a = false
contains (id ∷ ids) a = str_eq id a || contains ids a

share_group : List (List Str) → Str → Str → Bool
share_group [] a b = false
share_group (grp ∷ groups) a b = (contains grp a && contains grp b) || share_group groups a b

unfoldable pub same_side : List (List Str) → Str → Str → Bool
unfolding contains share_group
same_side groups a b =
    if is_empty a || is_empty b then false else if str_eq a b then true else share_group groups a b

-- `lastVotes map[[2]string]*ChainEvent`, from a submission and a bot to a ballot.
abbrev pub LastVotes : Type 0
LastVotes = List ((Str × Str) × ChainEvent)

unfoldable pub last_vote : Str → Str → LastVotes → Option ChainEvent
last_vote t b [] = none
last_vote t b (((u, c), v) ∷ m) = if str_eq u t && str_eq c b then some v else last_vote t b m

unfoldable pub set_last_vote : Str → Str → ChainEvent → LastVotes → LastVotes
set_last_vote t b v [] = ((t, b), v) ∷ []
set_last_vote t b v (((u, c), w) ∷ m) =
    if str_eq u t && str_eq c b then ((t, b), v) ∷ m else ((u, c), w) ∷ set_last_vote t b v m

-- What the pre-pass reads, and what it has collected.
pub record VoteRules : Type 0 where
  pub known_targets : List Str
  pub sub_author_by_pin : Assoc Str
  pub root_author : Str
  pub roster_groups : List (List Str)
  pub h_act : ℤ
  pub h_act2 : ℤ

pub record Ballots : Type 0 where
  pub ignored_events : List IgnoredEvent
  pub verify_by_target : Assoc (List ChainEvent)
  pub last_votes : LastVotes

-- The zero value on a missing key.
abbrev pub str_at : Str → Assoc Str → Str
str_at k m = elim (lookup k m) [ none ↦ [] | some s ↦ s ]

abbrev pub events_at : Str → Assoc (List ChainEvent) → List ChainEvent
events_at k m = elim (lookup k m) [ none ↦ [] | some es ↦ es ]

abbrev pub target_of : ChainEvent → Str
target_of vote = field_str vote.body (codes "targetid")

has_groups : List (List Str) → Bool
has_groups [] = false
has_groups (_ ∷ _) = true

unfoldable pub roster_filtered : VoteRules → ChainEvent → Bool
unfolding has_groups
roster_filtered r vote =
    not (eqb_ℤ r.h_act2 (pos max_int64))
    && leb_ℤ r.h_act2 vote.height
    && has_groups r.roster_groups
    && (same_side r.roster_groups vote.author (str_at (target_of vote) r.sub_author_by_pin)
        || same_side r.roster_groups vote.author r.root_author)

-- One round of the pre-pass.
unfoldable pub collect_vote : VoteRules → Ballots → ChainEvent → Ballots
collect_vote r b vote =
    let target = target_of vote in
    let seen = record b {
      verify_by_target =
          insert target (events_at target b.verify_by_target ++ vote ∷ []) b.verify_by_target;
    } in
    if is_empty target || not (contains r.known_targets target)
    then b
    else elim (gate_reason vote.body vote.height r.h_act) [
      | some reason ↦ record seen {
        ignored_events = b.ignored_events ++ record { pin_id = vote.pin_id; reason = reason } ∷ [];
      }
      | none ↦
          if roster_filtered r vote
          then record seen {
            ignored_events =
                b.ignored_events ++ record { pin_id = vote.pin_id; reason = same_side_roster } ∷ [];
          }
          else record seen { last_votes = set_last_vote target vote.author vote b.last_votes }
    ]

unfoldable pub collect_votes : VoteRules → Ballots → List ChainEvent → Ballots
collect_votes r b [] = b
collect_votes r b (vote ∷ votes) = collect_votes r (collect_vote r b vote) votes

abbrev pub no_ballots : Ballots
no_ballots = record { ignored_events = []; verify_by_target = []; last_votes = [] }

-- `lastVoteByPin`
unfoldable pub by_pin : LastVotes → Assoc ChainEvent
by_pin [] = []
by_pin ((_, v) ∷ m) = insert v.pin_id v (by_pin m)
