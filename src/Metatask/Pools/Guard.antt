-- ===== src/Metatask/Pools/Guard.antt =====
-- The ballots of the main view and the guard view of a node (internal/metatask/settle.go).
use metaso_p2p.Prelude.{
  ℕ, Bool, true, false, not, ◌&&◌, ◌||◌, ◌+◌, Option, none, some, List, [], ◌∷◌, ◌++◌,
  if◌then◌else◌, length, ltb, ◌==◌,
}
use metaso_p2p.Prelude.Int.{ℤ, pos, ◌-ℤ◌, ◌*ℤ◌, ltb_ℤ, leb_ℤ, wrap64}
use metaso_p2p.Prelude.Text.{Str, codes, str_eq, str_ltb, is_empty}
use metaso_p2p.Prelude.Assoc.{Assoc, lookup, keys}
use metaso_p2p.Prelude.Sort.{sort_stable}
use metaso_p2p.Metatask.Json.{Fields, get, payload_string}
use metaso_p2p.Metatask.Votes.{Reason}
use metaso_p2p.Metatask.Pools.{
  Pin, order_less, pin_timestamp, read, vote_invalid, HolderRecord, SubmissionRecord, keep_pins,
  one_of, Pools, in_task, is_claim, record_of,
}

-- `last`, from a submission and a bot to the ballot's payload.
abbrev pub LastBallots : Type 0
LastBallots = List ((Str × Str) × Fields)

unfoldable pub set_ballot : Str → Str → Fields → LastBallots → LastBallots
set_ballot t b v [] = ((t, b), v) ∷ []
set_ballot t b v (((u, c), w) ∷ m) =
    let rest = set_ballot t b v m in
    if str_eq u t && str_eq c b then ((t, b), v) ∷ m else ((u, c), w) ∷ rest

counted : Option Reason → Bool
counted none = true
counted (some _) = false

-- `collectBallots`
unfoldable pub collect_ballots : LastBallots → List Pin → LastBallots
unfolding set_ballot counted
collect_ballots last [] = last
collect_ballots last (p ∷ pins) =
    let target = read p (codes "targetid") in
    let bot = p.global_meta_id in
    if is_empty target || is_empty bot || not (counted (vote_invalid p.payload))
    then collect_ballots last pins
    else collect_ballots (set_ballot target bot p.payload last) pins

-- The passes of others and the fails on a submission, added to those before.
unfoldable pub count_ballots : Str → SubmissionRecord → LastBallots → ℕ × ℕ
count_ballots root_author sub [] = (0, 0)
count_ballots root_author sub (((target, bot), body) ∷ last) =
    let (good, bad) = count_ballots root_author sub last in
    let verdict = payload_string (get body (codes "verdict")) in
    if not (str_eq target sub.pin)
    then (good, bad)
    else if str_eq verdict (codes "pass")
    then if not (str_eq bot sub.author) && not (str_eq bot root_author)
      then (good + 1, bad)
      else (good, bad)
    else if str_eq verdict (codes "fail")
    then (good, bad + 1)
    else (good, bad)

-- `verifiedSub`
unfoldable pub verified_sub :
    Str → Assoc SubmissionRecord → LastBallots → Str → Option SubmissionRecord × (ℕ × ℕ)
unfolding count_ballots
verified_sub root_author subs last node = elim (lookup node subs) [
  | none ↦ (none, (0, 0))
  | some sub ↦ (some sub, count_ballots root_author sub last)
]

unfoldable pub without_repeats : List Str → List Str → List Str
unfolding one_of
without_repeats seen [] = []
without_repeats seen (n ∷ ns) =
    let others = without_repeats seen ns in
    let after = without_repeats (n ∷ seen) ns in if one_of seen n then others else n ∷ after

unfoldable pub node_before : Str → Str → Bool
node_before a b = if not (length a == length b) then ltb (length a) (length b) else str_ltb a b

-- `nodeIDSet`
unfoldable pub node_id_set : Pools → Assoc HolderRecord → Assoc SubmissionRecord → List Str
unfolding without_repeats node_before sort_stable keys
node_id_set s holders subs =
    sort_stable node_before (without_repeats [] (s.tree_nodes ++ keys holders ++ keys subs))

unfoldable pub of_node : Str → Str → Pin → Bool
unfolding in_task
of_node root node p = in_task root p && str_eq (read p (codes "node")) node

unfoldable pub guard_timeline : Pools → Str → List Pin
unfolding keep_pins of_node order_less sort_stable
guard_timeline s node =
    sort_stable order_less
      (keep_pins (of_node s.root node) s.claims ++ keep_pins (of_node s.root node) s.releases)

-- The holder of the node, and whether a claim that took it is unconfirmed.
unfoldable pub guard_walk : Option HolderRecord → Bool → List Pin → Option HolderRecord × Bool
guard_walk holder inflight [] = (holder, inflight)
guard_walk holder inflight (p ∷ timeline) =
    if is_claim p.path
    then elim holder [
      | some h ↦ guard_walk (some h) inflight timeline
      | none ↦
          let unconfirmed = ltb_ℤ p.genesis_height (pos 0) in
          guard_walk
            (some (record {
              pin = p.id;
              claimant = p.global_meta_id;
              t0 = pin_timestamp p;
              inflight = unconfirmed;
            }))
            (inflight || unconfirmed) timeline
    ]
    else elim holder [
      | none ↦ guard_walk none inflight timeline
      | some h ↦
          if str_eq h.pin (read p (codes "claimid"))
          then guard_walk none inflight timeline
          else guard_walk (some h) inflight timeline
    ]

-- The earliest submission under the holder's claim.
unfoldable pub guard_submission : Str → Str → HolderRecord → List Pin → Option SubmissionRecord
unfolding of_node record_of
guard_submission root node h [] = none
guard_submission root node h (p ∷ pins) =
    let rest = guard_submission root node h pins in
    if of_node root node p && str_eq (read p (codes "claimid")) h.pin
    then some (record_of p)
    else rest

-- `lastValid`: the last valid ballot of each bot on the submission.
unfoldable pub guard_ballots : SubmissionRecord → LastBallots → List Pin → LastBallots
unfolding set_ballot counted
guard_ballots sub last [] = last
guard_ballots sub last (p ∷ pins) =
    if not (str_eq (read p (codes "targetid")) sub.pin)
      || not (counted (vote_invalid p.payload))
      || is_empty p.global_meta_id
    then guard_ballots sub last pins
    else guard_ballots sub (set_ballot sub.pin p.global_meta_id p.payload last) pins

pub data GuardAnswer : Type 0 where
  guard_open guard_claimed guard_verified : GuardAnswer

-- `now - since > int64(hours) * 3600`, in int64.
unfoldable pub past_hours : ℤ → ℤ → ℤ → Bool
past_hours now since hours = ltb_ℤ (wrap64 (hours *ℤ pos 3600)) (wrap64 (now -ℤ since))

-- The `switch` of `guardState`, where the node has a holder and a submission.
unfoldable pub judge_submission : ℤ → Bool → ℕ × ℕ → ℤ → ℤ → SubmissionRecord → GuardAnswer
unfolding past_hours
judge_submission quorum inflight (good, bad) now window_hours sub =
    if inflight
    then guard_claimed
    else if leb_ℤ quorum (pos good) && bad == 0
    then guard_verified
    else if ltb 0 bad
    then guard_open
    else if ltb_ℤ (pos 0) window_hours
        && past_hours now sub.t window_hours
        && ltb_ℤ (pos good) quorum
    then guard_open
    else guard_claimed

unfoldable pub judge_holder : Bool → ℤ → ℤ → HolderRecord → GuardAnswer
unfolding past_hours
judge_holder inflight now ttl_hours h =
    if inflight
    then guard_claimed
    else if ltb_ℤ (pos 0) ttl_hours && past_hours now h.t0 ttl_hours
    then guard_open
    else guard_claimed

-- `guardState`
unfoldable pub guard_state : Pools → Str → ℤ → ℤ → ℤ → GuardAnswer
unfolding guard_timeline guard_walk guard_submission guard_ballots count_ballots judge_submission
    judge_holder
guard_state s node now ttl_hours window_hours =
    let (holder, inflight) = guard_walk none false (guard_timeline s node) in
    elim holder [
      | none ↦ guard_open
      | some h ↦ elim (guard_submission s.root node h s.subs_pins) [
        | none ↦ judge_holder inflight now ttl_hours h
        | some sub ↦
            judge_submission s.quorum inflight
              (count_ballots s.root_author sub (guard_ballots sub [] s.verifies)) now window_hours
              sub
      ]
    ]
