-- ===== src/Agentpedia/Rulings.antt =====
-- `applyRuling` and `applyParamProposal` (internal/agentpedia/replay.go).
pub mod Panics
use metaso_p2p.Prelude.{
  ℕ, ◌+◌, ◌*◌, Bool, true, false, ◌&&◌, ◌||◌, not, Option, none, some, List, [], ◌∷◌, length,
  if◌then◌else◌,
}
use metaso_p2p.Prelude.Int.{ℤ, pos, ◌+ℤ◌, ltb_ℤ, leb_ℤ, wrap64}
use metaso_p2p.Prelude.Text.{Str, codes, str_eq, is_empty}
use metaso_p2p.Prelude.Assoc.{lookup, insert, flag}
use metaso_p2p.Agentpedia.Value.{Fields, get, str, sub, fields_of, bool_of, or_false, quot_ℤ}
use metaso_p2p.Agentpedia.State.{
  Event, Reason, unregistered, ruling_challenge_missing, ruling_seed_mismatch,
  baseline_rev_mismatch, baseline_rev_not_null, ruling_params_missing, vote_on_closed_proposal,
  duplicate_vote, ruling_action_unknown, param_vote_on_closed, param_proposal_kind_unknown,
  EntryRec, Challenge, Outcome, revert_to, transfer_slug, warn_editor, slash_stake_half,
  slash_stake_full, ban_editor, confirm_goodfaith, protect, unprotect, dismiss, unfreeze,
  ProposalState, opened, Proposal, ParamProposal, State,
}
use metaso_p2p.Agentpedia.Store.{grave, entry_at, has_version}
use metaso_p2p.Agentpedia.Access.{
  Context, is_active, tier_of, is_t2, is_frozen, contains, pint, times64,
}
use metaso_p2p.Agentpedia.Draw.{snapshot_arbiters}
use metaso_p2p.Agentpedia.Expiry.{is_opened, apply_outcome}

-- The spellings of the outcomes; any other is refused.
unfoldable pub outcome_of : Str → Option Outcome
outcome_of s =
    if str_eq s (codes "revert-to")
    then some revert_to
    else if str_eq s (codes "transfer-slug")
    then some transfer_slug
    else if str_eq s (codes "warn-editor")
    then some warn_editor
    else if str_eq s (codes "slash-stake-half")
    then some slash_stake_half
    else if str_eq s (codes "slash-stake-full")
    then some slash_stake_full
    else if str_eq s (codes "ban-editor")
    then some ban_editor
    else if str_eq s (codes "confirm-goodfaith")
    then some confirm_goodfaith
    else if str_eq s (codes "protect")
    then some protect
    else if str_eq s (codes "unprotect")
    then some unprotect
    else if str_eq s (codes "dismiss")
    then some dismiss
    else if str_eq s (codes "unfreeze")
    then some unfreeze
    else none

abbrev names_text : Fields → Str → Bool
names_text params k = not (is_empty (str params k))

-- `okParams`, of the parameters, a nil map read as an empty one.
unfoldable pub ok_params : Outcome → Fields → EntryRec → Bool
unfolding bool_of
ok_params revert_to ps en =
    names_text ps (codes "revertTo") && has_version (str ps (codes "revertTo")) en
ok_params transfer_slug ps en = names_text ps (codes "fromEntry") && names_text ps (codes "toEntry")
ok_params protect ps en = elim (bool_of (get ps (codes "protected"))) [ none ↦ false | _ ↦ true ]
ok_params unprotect ps en = elim (bool_of (get ps (codes "protected"))) [ none ↦ false | _ ↦ true ]
ok_params dismiss ps en = true
ok_params unfreeze ps en = true
ok_params _ ps en = names_text ps (codes "editor")

-- Why the declared baseline does not fit the entry, or `none`.
unfoldable pub baseline_fault : Str → EntryRec → Option Reason
baseline_fault declared en =
    if is_frozen en.status
    then if is_empty declared || not (str_eq declared en.baseline_rev)
      then some baseline_rev_mismatch
      else none
    else if not (is_empty declared)
    then some baseline_rev_not_null
    else none

-- The vote of a sender who had not voted.
unfoldable pub cast : Event → Proposal → Proposal
unfolding contains
cast ev p =
    let approves = insert ev.sender true p.approves in
    let voted : Proposal = record p { voters = insert ev.sender true p.voters } in
    if or_false (bool_of (get ev.payload (codes "approve"))) && contains p.arbiters ev.sender
    then record voted { approves = approves; approve_count = length approves }
    else voted

abbrev pub quorate : State → Proposal → Bool
quorate s p = leb_ℤ (pint s (codes "rulingQuorum") 5) (pos p.approve_count)

module _ (ctx : Context) where
  -- The proposal of an event that passed the checks, its arbiters drawn.
  unfoldable pub open_proposal : Event → Str → Str → Outcome → State → Option State
  unfolding snapshot_arbiters
  open_proposal ev challenge_pin entry_key outcome s =
      elim (snapshot_arbiters ctx s ev.height ev.pin challenge_pin) [
        | none ↦ none
        | some ids ↦ some (record s {
          proposals =
              insert ev.pin
                (record {
                  pin = ev.pin;
                  challenge_pin = challenge_pin;
                  outcome = outcome;
                  params = fields_of (sub ev.payload (codes "params"));
                  proposer = ev.sender;
                  height = ev.height;
                  expiry_h =
                      wrap64 (ev.height +ℤ times64 (pint s (codes "voteWindowHours") 48) ctx.bph);
                  arbiters = ids;
                  approves = [];
                  approve_count = 0;
                  state = opened;
                  entry_key = entry_key;
                  baseline_rev = str ev.payload (codes "baselineRev");
                  voters = [];
                })
                s.proposals;
        })
      ]

  -- What follows the check of the seed, at the entry of the challenge.
  unfoldable pub propose_on : Event → Str → Str → EntryRec → State → Option State
  unfolding baseline_fault outcome_of ok_params open_proposal
  propose_on ev challenge_pin entry_key en s =
      elim (baseline_fault (str ev.payload (codes "baselineRev")) en) [
        | some reason ↦ some (grave ev.pin reason s)
        | none ↦ elim (outcome_of (str ev.payload (codes "outcome"))) [
          | none ↦ some (grave ev.pin ruling_params_missing s)
          | some outcome ↦
              if ok_params outcome (fields_of (sub ev.payload (codes "params"))) en
              then open_proposal ev challenge_pin entry_key outcome s
              else some (grave ev.pin ruling_params_missing s)
        ]
      ]

  unfoldable pub propose : Event → State → Option State
  unfolding is_active propose_on
  propose ev s =
      let challenge_pin = str ev.payload (codes "challengePin") in
      if not (is_active ctx s ev.sender ev.height)
      then some (grave ev.pin unregistered s)
      else elim (lookup challenge_pin s.challenges) [
        | none ↦ some (grave ev.pin ruling_challenge_missing s)
        | some ch ↦
            if not (str_eq (str ev.payload (codes "seed")) challenge_pin)
            then some (grave ev.pin ruling_seed_mismatch s)
            else elim (entry_at ch.entry_key s) [
              | none ↦ none
              | some en ↦ propose_on ev challenge_pin ch.entry_key en s
            ]
      ]

  unfoldable pub vote : Event → State → Option State
  unfolding cast
  vote ev s =
      let proposal_pin = str ev.payload (codes "proposalPin") in
      elim (lookup proposal_pin s.proposals) [
        | none ↦ some (grave ev.pin vote_on_closed_proposal s)
        | some p ↦
            if not (is_opened p.state) || ltb_ℤ p.expiry_h ev.height
            then some (grave ev.pin vote_on_closed_proposal s)
            else if flag ev.sender p.voters
            then some (grave ev.pin duplicate_vote s)
            else (let q = cast ev p in
                let s' : State = record s { proposals = insert proposal_pin q s.proposals } in
                if or_false (bool_of (get ev.payload (codes "approve")))
                  && contains p.arbiters ev.sender
                  && quorate s' q
                then apply_outcome proposal_pin q s'
                else some s')
      ]

  unfoldable pub apply_ruling : Event → State → Option State
  unfolding propose vote
  apply_ruling ev s =
      let action = str ev.payload (codes "action") in
      if str_eq action (codes "proposal")
      then propose ev s
      else if str_eq action (codes "vote")
      then vote ev s
      else some (grave ev.pin ruling_action_unknown s)

  -- ceil(2/3 * K) as the code computes it.
  abbrev pub param_need : State → ℤ
  param_need s = wrap64 (quot_ℤ (times64 (pint s (codes "arbiterPoolK") 21) 2) 3 +ℤ pos 1)

  unfoldable pub param_vote : Event → ParamProposal → State → ParamProposal
  unfolding tier_of quot_ℤ
  param_vote ev pp s =
      let approves =
        (if or_false (bool_of (get ev.payload (codes "approve")))
            && is_t2 (tier_of ctx s ev.sender ev.height)
          then insert ev.sender true pp.approves
          else pp.approves) in
      record { effective = leb_ℤ (param_need s) (pos (length approves)); approves = approves }

  unfoldable pub apply_param_proposal : Event → State → State
  unfolding is_active param_vote
  apply_param_proposal ev s =
      let kind = str ev.payload (codes "kind") in
      let proposal_pin = str ev.payload (codes "proposalPin") in
      if str_eq kind (codes "proposal")
      then if is_active ctx s ev.sender ev.height
        then record s {
          param_proposals =
              insert ev.pin (record { effective = false; approves = [] }) s.param_proposals;
        }
        else grave ev.pin unregistered s
      else if str_eq kind (codes "vote")
      then elim (lookup proposal_pin s.param_proposals) [
        | none ↦ grave ev.pin param_vote_on_closed s
        | some pp ↦ if pp.effective then grave ev.pin param_vote_on_closed s else record s {
          param_proposals = insert proposal_pin (param_vote ev pp s) s.param_proposals;
        }
      ]
      else grave ev.pin param_proposal_kind_unknown s
