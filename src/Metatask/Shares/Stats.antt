-- ===== src/Metatask/Shares/Stats.antt =====
-- The counts behind the accuracies (internal/metatask/v121.go): the last valid ballots on cycles that
-- are resolved.
use mathlib.Core.List.{Memᴰ}
use mathlib.Core.List.Memᴰ.{cases_cons, not-nil}
use metaso_p2p.Prelude.{
  ◌+◌, ◌≡◌, ◌≢◌, refl, sym, subst, ◌∙◌, inl, inr, Bool, true, false, ◌||◌, none, some, List, [],
  ◌∷◌, if◌then◌else◌, Bool-cases, Option-cases,
}
use metaso_p2p.Prelude.Text.{Str, codes, str_eq, str_eq_iff}
use metaso_p2p.Prelude.Assoc.{Assoc, lookup, insert, lookup-insert}
use metaso_p2p.Metatask.Event.{ChainEvent}
use metaso_p2p.Metatask.Votes.{events_at}
use metaso_p2p.Metatask.Walk.State.{
  Cycle, CycleOutcome, open_cycle, verified_cycle, fail_rejected, CycleSubmission,
}
use metaso_p2p.Metatask.Walk.Run.{verdict_of}
use metaso_p2p.Metatask.Shares.{Participant}

-- `bump(metaID)`
abbrev pub participant_at : Str → Assoc Participant → Participant
participant_at k m = elim (lookup k m) [
  | none ↦ record {
    meta_id = k;
    effective_claims = 0;
    submissions = 0;
    verified_contrib = 0;
    review_votes = 0;
    review_correct = 0;
    review_terminal = 0;
  }
  | some p ↦ p
]

unfoldable pub is_terminal : CycleOutcome → Bool
is_terminal open_cycle = false
is_terminal verified_cycle = true
is_terminal fail_rejected = true

-- A pass on a verified cycle, or a fail on a rejected one.
unfoldable pub is_correct : CycleOutcome → Str → Bool
is_correct open_cycle verdict = false
is_correct verified_cycle verdict = str_eq verdict (codes "pass")
is_correct fail_rejected verdict = str_eq verdict (codes "fail")

unfoldable pub reviewed_once : CycleOutcome → ChainEvent → Participant → Participant
unfolding is_correct
reviewed_once o v p =
    let voted = record p { review_terminal = p.review_terminal + 1 } in
    if is_correct o (verdict_of v)
    then record voted { review_correct = p.review_correct + 1 }
    else voted

unfoldable pub review_vote :
    Str → CycleOutcome → CycleSubmission → Assoc Participant → ChainEvent → Assoc Participant
unfolding reviewed_once
review_vote root o s m v =
    let p = participant_at v.author m in
    let counted = record p { review_votes = p.review_votes + 1 } in
    insert v.author
      (if str_eq v.author s.author || str_eq v.author root
        then counted
        else reviewed_once o v counted)
      m

unfoldable pub review_votes_of :
    Str → CycleOutcome → CycleSubmission → Assoc Participant → List ChainEvent → Assoc Participant
unfolding review_vote
review_votes_of root o s m [] = m
review_votes_of root o s m (v ∷ votes) = review_votes_of root o s (review_vote root o s m v) votes

unfoldable pub review_cycle :
    Str → Assoc (List ChainEvent) → Assoc Participant → Cycle → Assoc Participant
unfolding review_votes_of is_terminal
review_cycle root votes m c = elim c.effective [
  | none ↦ m
  | some s ↦
      if is_terminal c.outcome
      then review_votes_of root c.outcome s m (events_at s.pin_id votes)
      else m
]

unfoldable pub review_stats :
    Str → Assoc (List ChainEvent) → Assoc Participant → List Cycle → Assoc Participant
unfolding review_cycle
review_stats root votes m [] = m
review_stats root votes m (c ∷ cycles) =
    review_stats root votes (review_cycle root votes m c) cycles

abbrev pub TakesPart : Str → Assoc Participant → Type 0
TakesPart k m = lookup k m ≢ none

module _ (root : Str) (k : Str) where
  review_vote_self :
      (o : CycleOutcome) (s : CycleSubmission) (m : Assoc Participant) (v : ChainEvent)
      → v.author ≡ k
      → TakesPart k (review_vote root o s m v)
  unfolding review_vote
  review_vote_self o s m v is e =
      absurd (cc (e, lookup-insert v.author k _ m, (str_eq_iff v.author k).1 is))

  review_vote-keeps :
      (o : CycleOutcome) (s : CycleSubmission) (m : Assoc Participant) (v : ChainEvent)
      → TakesPart k m
      → TakesPart k (review_vote root o s m v)
  unfolding review_vote
  review_vote-keeps o s m v h = elim (Bool-cases (str_eq v.author k)) [
    | inl e ↦ review_vote_self o s m v ((str_eq_iff v.author k).0 e)
    | inr e ↦ (λ gone. h (sym (lookup-insert v.author k _ m ∙ rw e refl) ∙ gone))
  ]

  review_votes_of-keeps :
      (o : CycleOutcome) (s : CycleSubmission) (m : Assoc Participant) (votes : List ChainEvent)
      → TakesPart k m
      → TakesPart k (review_votes_of root o s m votes)
  unfolding review_votes_of
  review_votes_of-keeps o s m [] h = h
  review_votes_of-keeps o s m (v ∷ votes) h =
      review_votes_of-keeps o s (review_vote root o s m v) votes (review_vote-keeps o s m v h)

  review_votes_of-voter :
      (o : CycleOutcome) (s : CycleSubmission) (m : Assoc Participant) (votes : List ChainEvent)
      (v : ChainEvent)
      → Memᴰ v votes
      → v.author ≡ k
      → TakesPart k (review_votes_of root o s m votes)
  unfolding review_votes_of
  review_votes_of-voter o s m [] v h is = absurd (not-nil h)
  review_votes_of-voter o s m (w ∷ votes) v h is = elim (cases_cons h) [
    | inl first ↦
        review_votes_of-keeps o s (review_vote root o s m w) votes
          (review_vote_self o s m w (subst (λ u. u.author ≡ k) first is))
    | inr later ↦ review_votes_of-voter o s (review_vote root o s m w) votes v later is
  ]

  module _ (votes : Assoc (List ChainEvent)) where
    review_cycle-keeps :
        (m : Assoc Participant) (c : Cycle)
        → TakesPart k m
        → TakesPart k (review_cycle root votes m c)
    unfolding review_cycle
    review_cycle-keeps m c h = elim (Option-cases c.effective) [
      | inl e ↦ rw (review_cycle, e) h
      | inr (s, e) ↦ elim (Bool-cases (is_terminal c.outcome)) [
        | inl t ↦
            rw (review_cycle, e, t)
              (review_votes_of-keeps c.outcome s m (events_at s.pin_id votes) h)
        | inr t ↦ rw (review_cycle, e, t) h
      ]
    ]

    review_stats-keeps :
        (m : Assoc Participant) (cycles : List Cycle)
        → TakesPart k m
        → TakesPart k (review_stats root votes m cycles)
    unfolding review_stats
    review_stats-keeps m [] h = h
    review_stats-keeps m (c ∷ cycles) h =
        review_stats-keeps (review_cycle root votes m c) cycles (review_cycle-keeps m c h)

-- Every bot with a ballot on the effective submission of a resolved cycle is among the participants
-- after the counts, whatever the participants were before.
pub review_stats-voter :
    (root : Str) (votes : Assoc (List ChainEvent)) (m : Assoc Participant) (cycles : List Cycle)
    (c : Cycle) (s : CycleSubmission) (v : ChainEvent)
    → Memᴰ c cycles
    → is_terminal c.outcome ≡ true
    → c.effective ≡ some s
    → Memᴰ v (events_at s.pin_id votes)
    → TakesPart v.author (review_stats root votes m cycles)
unfolding review_stats
review_stats-voter root votes m [] c s v h t e b = absurd (not-nil h)
review_stats-voter root votes m (d ∷ cycles) c s v h t e b = elim (cases_cons h) [
  | inl first ↦ review_stats-keeps root v.author votes (review_cycle root votes m d) cycles (
      subst (λ x. TakesPart v.author (review_cycle root votes m x)) first
        (rw (review_cycle, e, t)
          (review_votes_of-voter root v.author c.outcome s m (events_at s.pin_id votes) v b refl)))
  | inr later ↦ review_stats-voter root votes (review_cycle root votes m d) cycles c s v later t e b
]
