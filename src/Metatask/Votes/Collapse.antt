-- ===== src/Metatask/Votes/Collapse.antt =====
-- The collapse of ballots: the last ballot that counts, of a bot on a submission.
use metaso_p2p.Prelude.{
  ◌≡◌, refl, ap, ◌∙◌, arith, inl, inr, Bool, true, false, not, ◌&&◌, Option, none, some, List, [],
  ◌∷◌, if◌then◌else◌, Bool-cases, Option-cases,
}
use metaso_p2p.Prelude.Text.{Str, str_eq, str_eq_iff, is_empty}
use metaso_p2p.Metatask.Event.{ChainEvent}
use metaso_p2p.Metatask.Votes.{
  Reason, contains, gate_reason, LastVotes, last_vote, set_last_vote, VoteRules, Ballots, target_of,
  roster_filtered, collect_vote, collect_votes, no_ballots,
}

no_reason : Option Reason → Bool
no_reason none = true
no_reason (some _) = false

-- A ballot counts when it names a known submission, passes the gates and is not on a roster side.
unfoldable pub counts : VoteRules → ChainEvent → Bool
unfolding no_reason
counts r vote =
    not (is_empty (target_of vote))
    && contains r.known_targets (target_of vote)
    && no_reason (gate_reason vote.body vote.height r.h_act)
    && not (roster_filtered r vote)

unfoldable pub is_ballot : VoteRules → Str → Str → ChainEvent → Bool
is_ballot r t b vote = counts r vote && (str_eq (target_of vote) t && str_eq vote.author b)

abbrev pub or_else : Option ChainEvent → Option ChainEvent → Option ChainEvent
or_else none d = d
or_else (some v) d = some v

-- The latest ballot of a bot on a submission that counts.
unfoldable pub latest : VoteRules → Str → Str → List ChainEvent → Option ChainEvent
unfolding is_ballot
latest r t b [] = none
latest r t b (vote ∷ votes) =
    or_else (latest r t b votes) (if is_ballot r t b vote then some vote else none)

last_vote-set_last_vote :
    (t b u c : Str) (v : ChainEvent) (m : LastVotes)
    → last_vote t b (set_last_vote u c v m)
      ≡ (if str_eq u t && str_eq c b then some v else last_vote t b m)
unfolding last_vote set_last_vote
last_vote-set_last_vote t b u c v [] = refl
last_vote-set_last_vote t b u c v (((x, y), w) ∷ m) = ground (
  arith,
  last_vote-set_last_vote t b u c v m,
  str_eq_iff x u,
  str_eq_iff y c,
  str_eq_iff x t,
  str_eq_iff y b,
  str_eq_iff u t,
  str_eq_iff c b,
)

collect_vote-last :
    (r : VoteRules) (s : Ballots) (t b : Str) (vote : ChainEvent)
    → last_vote t b (collect_vote r s vote).last_votes
      ≡ (if is_ballot r t b vote then some vote else last_vote t b s.last_votes)
unfolding collect_vote is_ballot counts no_reason
collect_vote-last r s t b vote =
    let set = last_vote-set_last_vote t b (target_of vote) vote.author vote s.last_votes in
    elim (Bool-cases (is_empty (target_of vote))) [
      | inl e ↦ rw e refl
      | inr ne ↦ elim (Bool-cases (contains r.known_targets (target_of vote))) [
        | inr f ↦ rw (ne, f) refl
        | inl k ↦ elim (Option-cases (gate_reason vote.body vote.height r.h_act)) [
          | inr (why, g) ↦ rw (ne, k, g) refl
          | inl g ↦ elim (Bool-cases (roster_filtered r vote)) [
            | inl q ↦ rw (ne, k, g, q) refl
            | inr q ↦ rw (ne, k, g, q) set
          ]
        ]
      ]
    ]

collect_votes-from :
    (r : VoteRules) (s : Ballots) (t b : Str) (votes : List ChainEvent)
    → last_vote t b (collect_votes r s votes).last_votes
      ≡ or_else (latest r t b votes) (last_vote t b s.last_votes)
unfolding collect_votes latest
collect_votes-from r s t b [] = refl
collect_votes-from r s t b (vote ∷ votes) =
    let ih = collect_votes-from r (collect_vote r s vote) t b votes in
    let now = collect_vote-last r s t b vote in
    ih ∙ ap (or_else (latest r t b votes)) now ∙ elim (Option-cases (latest r t b votes)) [
      | inr (v, e) ↦ rw e refl
      | inl e ↦ rw e (ground arith)
    ]

-- The pre-pass keeps, for each submission and each bot, exactly the latest ballot that counts: one
-- that names a known submission, passes the gates and is not filtered by the roster. A ballot
-- that does not count never displaces an earlier one that does.
pub collect_votes-latest :
    (r : VoteRules) (t b : Str) (votes : List ChainEvent)
    → last_vote t b (collect_votes r no_ballots votes).last_votes ≡ latest r t b votes
unfolding last_vote
collect_votes-latest r t b votes =
    collect_votes-from r no_ballots t b votes
    ∙ elim (Option-cases (latest r t b votes)) [ inr (v, e) ↦ rw e refl | inl e ↦ rw e refl ]
