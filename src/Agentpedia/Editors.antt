-- ===== src/Agentpedia/Editors.antt =====
-- `applyEditor` (internal/agentpedia/replay.go): registration, endorsement and sanctions.
pub mod Target
use metaso_p2p.Prelude.{
  ℕ, ◌+◌, Bool, true, false, ◌&&◌, ◌||◌, not, Option, none, some, List, [], ◌∷◌, ltb, leb, length,
  if◌then◌else◌,
}
use metaso_p2p.Prelude.Int.{ℤ, pos, ◌+ℤ◌, ◌-ℤ◌, ltb_ℤ, wrap64}
use metaso_p2p.Prelude.Text.{Str, codes, str_eq, is_empty}
use metaso_p2p.Prelude.Assoc.{lookup, insert, flag, keys}
use metaso_p2p.Agentpedia.Value.{
  Fields, ltb_float, float_of, get, number_of, or_zero, str, sub, fields_of,
}
use metaso_p2p.Agentpedia.State.{
  Event, unregistered, poc_challenge_mismatch, poc_window_exceeded, poc_response_missing,
  register_invalid, stake_insufficient, endorser_not_t2, endorse_no_register, self_endorse,
  duplicate_endorse, suspend_unauthorized, revoke_unauthorized, editor_action_unknown, Reason,
  Editor, RegChallenge, ProposalState, effective, Proposal, Review, State,
}
use metaso_p2p.Agentpedia.Store.{grave, pfloat, editor_at, change_editor, touch_editor, ranged}
use metaso_p2p.Agentpedia.Access.{Context, is_active, tier_of, is_t2, pint, times64}
use metaso_p2p.Agentpedia.Editors.Target.{endorse_target}

-- A review of the pin by the reviewer is on record.
unfoldable pub has_review : List Review → Str → Str → Bool
has_review [] pin reviewer = false
has_review (r ∷ rs) pin reviewer =
    str_eq r.pin pin && str_eq r.reviewer reviewer || has_review rs pin reviewer

abbrev stake_of : Event → Fields
stake_of ev = fields_of (sub ev.payload (codes "stake"))

-- The stake of a registration is too small, or is not there.
unfoldable pub stake_short : Event → State → Bool
unfolding number_of
stake_short ev s =
    is_empty (str (stake_of ev) (codes "txid"))
    || ltb_float (or_zero (number_of (get (stake_of ev) (codes "amountSat"))))
        (pfloat s (codes "stakeAmountSat") (float_of (pos 1)))

-- How many endorsements register an editor.
unfoldable pub threshold : State → ℤ → ℕ
threshold s h = if ltb_ℤ h s.bootstrap_end_h then 4 else 2

-- The editor after one more endorsement.
unfoldable pub endorsed : ℕ → RegChallenge → Str → Editor → Editor
endorsed needed target sender ed =
    let endorsements = insert sender true ed.endorsements in
    record ed {
      endorsements = endorsements;
      registered_at = elim ed.registered_at [
        | some at ↦ some at
        | none ↦ if leb needed (length endorsements) then some target.register_h else none
      ];
    }

abbrev is_effective : ProposalState → Bool
is_effective effective = true
is_effective _ = false

abbrev applicant_of : Event → Str
applicant_of ev = str ev.payload (codes "editor")

module _ (ctx : Context) where
  unfoldable pub open_challenge : Event → State → State
  unfolding is_active
  open_challenge ev s =
      if is_active ctx s ev.sender ev.height
      then record s {
        reg_challenges =
            insert ev.pin
              (record {
                applicant = applicant_of ev;
                challenger = ev.sender;
                h = ev.height;
                poc_ok = false;
                stake_ok = false;
                register_h = pos 0;
                register_t = pos 0;
                register_pin = [];
              })
              s.reg_challenges;
      }
      else grave ev.pin unregistered s

  unfoldable pub poc_response : Event → State → State
  unfolding has_review
  poc_response ev s =
      let pin = str ev.payload (codes "challengePin") in
      elim (lookup pin s.reg_challenges) [
        | none ↦ grave ev.pin poc_challenge_mismatch s
        | some rc ↦
            if not (str_eq rc.applicant ev.sender)
            then grave ev.pin poc_challenge_mismatch s
            else if ltb_ℤ (pos ctx.bph) (wrap64 (ev.height -ℤ rc.h))
            then grave ev.pin poc_window_exceeded s
            else if has_review s.all_reviews (str ev.payload (codes "responsePin")) ev.sender
            then record s {
              reg_challenges = insert pin (record rc { poc_ok = true }) s.reg_challenges;
            }
            else grave ev.pin poc_response_missing s
      ]

  unfoldable pub register : Event → State → State
  unfolding stake_short change_editor
  register ev s =
      let pin = str ev.payload (codes "challengePin") in
      elim (lookup pin s.reg_challenges) [
        | none ↦ grave ev.pin register_invalid s
        | some rc ↦
            if not (str_eq rc.applicant ev.sender) || not rc.poc_ok
            then grave ev.pin register_invalid s
            else if stake_short ev s
            then grave ev.pin stake_insufficient s
            else change_editor ev.sender (λ ed. record ed { register_h = ev.height })
                (record s {
                  reg_challenges =
                      insert pin
                        (record rc {
                          stake_ok = true;
                          register_h = ev.height;
                          register_t = ev.tx_index;
                          register_pin = ev.pin;
                        })
                        s.reg_challenges;
                })
      ]

  -- `endorse`, with the order in which the `range` visits the registration challenges.
  unfoldable pub endorse : (List Str → List Str) → Event → State → State
  unfolding tier_of is_active endorse_target endorsed threshold change_editor
  endorse order ev s =
      let applicant = applicant_of ev in
      let visited = ranged (order (keys s.reg_challenges)) s.reg_challenges in
      if not (is_active ctx s ev.sender ev.height)
        || not (is_t2 (tier_of ctx s ev.sender ev.height))
      then grave ev.pin endorser_not_t2 s
      else elim (endorse_target applicant (str ev.payload (codes "registerPin")) visited) [
        | none ↦ grave ev.pin endorse_no_register s
        | some target ↦
            if str_eq ev.sender applicant
            then grave ev.pin self_endorse s
            else if flag ev.sender (editor_at applicant s.editors).endorsements
            then grave ev.pin duplicate_endorse s
            else change_editor applicant (endorsed (threshold s ev.height) target ev.sender) s
      ]

  -- The sender is of tier T2 and names a ruling that is effective.
  unfoldable pub may_sanction : Event → State → Bool
  unfolding tier_of
  may_sanction ev s = elim (lookup (str ev.payload (codes "rulingPin")) s.proposals) [
    | none ↦ false
    | some p ↦ is_effective p.state && is_t2 (tier_of ctx s ev.sender ev.height)
  ]

  -- h + int64(days) * bpd
  unfoldable pub suspension_end : Event → State → ℤ
  suspension_end ev s =
      wrap64 (ev.height +ℤ times64 (pint s (codes "arbiterSuspensionDays") 30) ctx.bpd)

  unfoldable pub suspend : Event → State → State
  unfolding may_sanction suspension_end change_editor
  suspend ev s =
      let until = suspension_end ev s in
      if may_sanction ev s
      then change_editor (applicant_of ev) (λ ed. record ed { suspension_until = until }) s
      else grave ev.pin suspend_unauthorized s

  unfoldable pub revoke : Event → State → State
  unfolding may_sanction change_editor
  revoke ev s =
      if may_sanction ev s
      then change_editor (applicant_of ev) (λ ed. record ed { revoked = true }) s
      else grave ev.pin revoke_unauthorized s

  unfoldable pub editor_action : (List Str → List Str) → Event → State → State
  unfolding open_challenge poc_response register endorse suspend revoke
  editor_action order ev s =
      let action = str ev.payload (codes "action") in
      if str_eq action (codes "challenge")
      then open_challenge ev s
      else if str_eq action (codes "poc-response")
      then poc_response ev s
      else if str_eq action (codes "register")
      then register ev s
      else if str_eq action (codes "endorse")
      then endorse order ev s
      else if str_eq action (codes "suspend")
      then suspend ev s
      else if str_eq action (codes "revoke")
      then revoke ev s
      else grave ev.pin editor_action_unknown s

  -- `applyEditor`
  unfoldable pub apply_editor : (List Str → List Str) → Event → State → State
  unfolding editor_action change_editor
  apply_editor order ev s = editor_action order ev (touch_editor (applicant_of ev) s)
