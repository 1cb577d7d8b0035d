-- ===== src/Agentpedia/Valid/Registry.antt =====
-- Registrations, endorsements and sanctions (internal/agentpedia/replay.go).
use metaso_p2p.Prelude.{
  ℕ, ◌≤◌, ◌≡◌, refl, arith, inl, inr, true, false, ◌||◌, not, List, length, leb, leb→le,
  option_either, if_either, Bool-cases,
}
use metaso_p2p.Prelude.Int.{pos, ltb_ℤ, ◌-ℤ◌, wrap64, ℤ}
use metaso_p2p.Prelude.Text.{Str, codes, str_eq}
use metaso_p2p.Prelude.Assoc.{
  lookup, insert, flag, keys, lookup-insert, DistinctKeys-insert, length-le-insert,
}
use metaso_p2p.Agentpedia.Value.{str}
use metaso_p2p.Agentpedia.State.{Event, Editor, RegChallenge, State}
use metaso_p2p.Agentpedia.Store.{editor_at, touch_editor, ranged}
use metaso_p2p.Agentpedia.Access.{Context, is_active, is_t2, tier_of}
use metaso_p2p.Agentpedia.Editors.{
  has_review, stake_short, threshold, endorsed, open_challenge, poc_response, register, endorse,
  may_sanction, suspension_end, suspend, revoke, editor_action, apply_editor,
}
use metaso_p2p.Agentpedia.Editors.Target.{endorse_target}
use metaso_p2p.Agentpedia.Valid.{
  IsEndorsed, IsValid, Kept, kept, change_editor-IsValid, change_editor-same,
}

two-le-threshold : (s : State) (h : ℤ) → 2 ≤ threshold s h
unfolding threshold
two-le-threshold s h = ground arith

-- One more endorsement, by another editor.
endorsed-IsEndorsed :
    (id sender : Str) (needed : ℕ) (rc : RegChallenge) (ed : Editor)
    → 2 ≤ needed
    → str_eq sender id ≡ false
    → IsEndorsed (id, ed)
    → IsEndorsed (id, endorsed needed rc sender ed)
unfolding endorsed
endorsed-IsEndorsed id sender needed rc ed n e h =
    let more = length-le-insert sender true ed.endorsements in
    record {
      distinct = DistinctKeys-insert sender true ed.endorsements h.distinct;
      not_self = rw (lookup-insert sender id true ed.endorsements, e) h.not_self;
      earned = elim h.earned [
        | inl f ↦ inl f
        | inr (inr m) ↦ inr (inr (omega arith))
        | inr (inl m) ↦
            elim (Bool-cases (leb needed (length (insert sender true ed.endorsements)))) [
              | inl q ↦ inr (inr (omega (arith, leb→le _ _ q)))
              | inr q ↦ inr (inl (rw (m, q) refl))
            ]
      ];
    }

module _ (ctx : Context) where
  open_challenge-Kept : (ev : Event) (s : State) → IsValid s → Kept (open_challenge ctx ev s)
  unfolding open_challenge
  open_challenge-Kept ev s h =
      if_either Kept (is_active ctx s ev.sender ev.height) _ _ (λ _. kept _ h) (λ _. kept _ h)

  poc_response-Kept : (ev : Event) (s : State) → IsValid s → Kept (poc_response ctx ev s)
  unfolding poc_response
  poc_response-Kept ev s h =
      option_either Kept (lookup (str ev.payload (codes "challengePin")) s.reg_challenges) _ _
        (λ _. kept _ h)
        (λ rc _.
          if_either Kept (not (str_eq rc.applicant ev.sender)) _ _ (λ _. kept _ h)
            (λ _.
              if_either Kept (ltb_ℤ (pos ctx.bph) (wrap64 (ev.height -ℤ rc.h))) _ _ (λ _. kept _ h)
                (λ _.
                  if_either Kept
                    (has_review s.all_reviews (str ev.payload (codes "responsePin")) ev.sender) _ _
                    (λ _. kept _ h) (λ _. kept _ h))))

  register-Kept : (ev : Event) (s : State) → IsValid s → Kept (register ctx ev s)
  unfolding register
  register-Kept ev s h =
      option_either Kept (lookup (str ev.payload (codes "challengePin")) s.reg_challenges) _ _
        (λ _. kept _ h)
        (λ rc _.
          if_either Kept (not (str_eq rc.applicant ev.sender) || not rc.poc_ok) _ _ (λ _. kept _ h)
            (λ _.
              if_either Kept (stake_short ev s) _ _ (λ _. kept _ h)
                (λ _. kept _ (
                  change_editor-same ev.sender (λ ed. record ed { register_h = ev.height }) s
                    (λ ed. refl) (λ ed. refl) (λ ed. refl) h))))

  endorse-Kept :
      (order : List Str → List Str) (ev : Event) (s : State)
      → IsValid s
      → Kept (endorse ctx order ev s)
  unfolding endorse
  endorse-Kept order ev s h =
      let id = str ev.payload (codes "editor") in
      if_either Kept
        (not (is_active ctx s ev.sender ev.height)
          || not (is_t2 (tier_of ctx s ev.sender ev.height)))
        _ _ (λ _. kept _ h)
        (λ _.
          option_either Kept
            (endorse_target id (str ev.payload (codes "registerPin"))
              (ranged (order (keys s.reg_challenges)) s.reg_challenges))
            _ _ (λ _. kept _ h)
            (λ rc _.
              if_either Kept (str_eq ev.sender id) _ _ (λ _. kept _ h)
                (λ e.
                  if_either Kept (flag ev.sender (editor_at id s.editors).endorsements) _ _
                    (λ _. kept _ h)
                    (λ _. kept _ (
                      change_editor-IsValid id (endorsed (threshold s ev.height) rc ev.sender) s
                        (λ ed.
                          endorsed-IsEndorsed id ev.sender (threshold s ev.height) rc ed
                            (two-le-threshold s ev.height) e)
                        h)))))

  suspend-Kept : (ev : Event) (s : State) → IsValid s → Kept (suspend ctx ev s)
  unfolding suspend
  suspend-Kept ev s h =
      if_either Kept (may_sanction ctx ev s) _ _
        (λ _. kept _ (
          change_editor-same (str ev.payload (codes "editor"))
            (λ ed. record ed { suspension_until = suspension_end ctx ev s }) s (λ ed. refl)
            (λ ed. refl) (λ ed. refl) h))
        (λ _. kept _ h)

  revoke-Kept : (ev : Event) (s : State) → IsValid s → Kept (revoke ctx ev s)
  unfolding revoke
  revoke-Kept ev s h =
      if_either Kept (may_sanction ctx ev s) _ _
        (λ _. kept _ (
          change_editor-same (str ev.payload (codes "editor")) (λ ed. record ed { revoked = true })
            s (λ ed. refl) (λ ed. refl) (λ ed. refl) h))
        (λ _. kept _ h)

  pub apply_editor-IsValid :
      (order : List Str → List Str) (ev : Event) (s : State)
      → IsValid s
      → IsValid (apply_editor ctx order ev s)
  unfolding apply_editor editor_action
  apply_editor-IsValid order ev s h =
      let t = touch_editor (str ev.payload (codes "editor")) s in
      let a = str ev.payload (codes "action") in
      let v : IsValid t =
        change_editor-same (str ev.payload (codes "editor")) (λ ed. ed) s (λ ed. refl) (λ ed. refl)
          (λ ed. refl) h in
      let k : Kept (editor_action ctx order ev t) =
        if_either Kept (str_eq a (codes "challenge")) _ _ (λ _. open_challenge-Kept ev t v)
          (λ _.
            if_either Kept (str_eq a (codes "poc-response")) _ _ (λ _. poc_response-Kept ev t v)
              (λ _.
                if_either Kept (str_eq a (codes "register")) _ _ (λ _. register-Kept ev t v)
                  (λ _.
                    if_either Kept (str_eq a (codes "endorse")) _ _ (λ _. endorse-Kept order ev t v)
                      (λ _.
                        if_either Kept (str_eq a (codes "suspend")) _ _ (λ _. suspend-Kept ev t v)
                          (λ _.
                            if_either Kept (str_eq a (codes "revoke")) _ _ (λ _. revoke-Kept ev t v)
                              (λ _. kept _ v)))))) in
      k.at
