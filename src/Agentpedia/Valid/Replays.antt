-- ===== src/Agentpedia/Valid/Replays.antt =====
-- What holds of the editors and the proposals at the end of every replay
-- (internal/agentpedia/replay.go).
use metaso_p2p.Prelude.{
  ℕ, suc, ◌≡◌, refl, true, not, none, some, List, [], ◌∷◌, length, option_either, if_either, inl,
  inl,
}
use metaso_p2p.Prelude.Int.{ℤ, pos, eqb_ℤ, wrap64, ◌+ℤ◌}
use metaso_p2p.Prelude.Text.{Str, codes, str_eq}
use metaso_p2p.Prelude.Assoc.{Assoc, lookup, keys, All-lookup}
use metaso_p2p.Agentpedia.Value.{Float, get, number_of, or_zero, put_numbers, str}
use metaso_p2p.Agentpedia.State.{Event, Editor, Proposal, State, new_state}
use metaso_p2p.Agentpedia.Store.{change_editor}
use metaso_p2p.Agentpedia.Access.{Context, is_active}
use metaso_p2p.Agentpedia.Expiry.{close_expired}
use metaso_p2p.Agentpedia.Rulings.{apply_param_proposal}
use metaso_p2p.Agentpedia.Replay.{
  found, give_reputations, params_field, founders_field, constituted, genesis, amendable, amend,
  constitution, dispatch, handle, apply, apply_all, ordered, pending_pins, last_height,
  replay_state, path_rev, path_challenge, path_ruling, path_review, path_editor, path_constitution,
  path_param_proposal,
}
use metaso_p2p.Agentpedia.Valid.{
  IsEndorsed, IsCounted, IsValid, Kept, kept, Safe, Safe-none, Safe-some, change_editor-IsValid,
  change_editor-same,
}
use metaso_p2p.Agentpedia.Valid.Outcomes.{close_expired-IsValid}
use metaso_p2p.Agentpedia.Valid.Ballots.{apply_ruling-Safe}
use metaso_p2p.Agentpedia.Valid.Registry.{apply_editor-IsValid}
use metaso_p2p.Agentpedia.Valid.Records.{
  apply_review-IsValid, apply_challenge-IsValid, apply_rev-Safe,
}

found-IsValid : (h : ℤ) (fs : List Str) (s : State) → IsValid s → IsValid (found h fs s)
unfolding found
found-IsValid h [] s v = v
found-IsValid h (f ∷ fs) s v =
    found-IsValid h fs
      (change_editor f (λ ed. record ed { founder = true; registered_at = some h }) s)
      (change_editor-IsValid f (λ ed. record ed { founder = true; registered_at = some h }) s
        (λ ed k. record { distinct = k.distinct; not_self = k.not_self; earned = inl refl }) v)

give_reputations-IsValid :
    (reps : Assoc Float) (s : State) → IsValid s → IsValid (give_reputations reps s)
unfolding give_reputations
give_reputations-IsValid [] s v = v
give_reputations-IsValid ((id, rep) ∷ reps) s v =
    give_reputations-IsValid reps (change_editor id (λ ed. record ed { reputation = rep }) s) (
      change_editor-same id (λ ed. record ed { reputation = rep }) s (λ ed. refl) (λ ed. refl)
        (λ ed. refl) v)

module _ (ctx : Context) where
  genesis-IsValid : (ev : Event) (s : State) → IsValid s → IsValid (genesis ctx ev s)
  unfolding genesis constituted
  genesis-IsValid ev s v =
      let fs = founders_field ctx ev in
      give_reputations-IsValid ctx.opts.editors_rep (found ev.height fs (constituted ctx ev s))
        (found-IsValid ev.height fs (constituted ctx ev s) v)

  amend-Safe : (ev : Event) (s : State) → IsValid s → Safe (amend ctx ev s)
  unfolding amend
  amend-Safe ev s v =
      if_either Safe (not (amendable ctx ev s)) _ _ (λ _. Safe-some _ v)
        (λ _.
          option_either Safe s.params _ _ (λ _. unset (put_numbers (params_field ev) []))
            (λ ps _. Safe-some _ v))
    where
      unset : (m : Assoc Float) → Safe (elim m [ [] ↦ some s | _ ↦ none ])
      unset [] = Safe-some s v
      unset (e ∷ m) = Safe-none

  constitution-Safe : (ev : Event) (s : State) → IsValid s → Safe (constitution ctx ev s)
  unfolding constitution
  constitution-Safe ev s v =
      if_either Safe (eqb_ℤ (or_zero (number_of (get ev.payload (codes "revision")))).num (pos 0)) _
        _
        (λ _.
          option_either Safe s.params _ _ (λ _. Safe-some _ (genesis-IsValid ev s v))
            (λ ps _. Safe-some _ v))
        (λ _. amend-Safe ev s v)

  apply_param_proposal-IsValid :
      (ev : Event) (s : State) → IsValid s → IsValid (apply_param_proposal ctx ev s)
  unfolding apply_param_proposal
  apply_param_proposal-IsValid ev s v =
      let kind = str ev.payload (codes "kind") in
      let k : Kept (apply_param_proposal ctx ev s) =
        if_either Kept (str_eq kind (codes "proposal")) _ _
          (λ _.
            if_either Kept (is_active ctx s ev.sender ev.height) _ _ (λ _. kept _ v)
              (λ _. kept _ v))
          (λ _.
            if_either Kept (str_eq kind (codes "vote")) _ _
              (λ _.
                option_either Kept (lookup (str ev.payload (codes "proposalPin")) s.param_proposals)
                  _ _ (λ _. kept _ v)
                  (λ pp _. if_either Kept pp.effective _ _ (λ _. kept _ v) (λ _. kept _ v)))
              (λ _. kept _ v)) in
      k.at

  dispatch-Safe :
      (order : List Str → List Str) (ev : Event) (s : State)
      → IsValid s
      → Safe (dispatch ctx order ev s)
  unfolding dispatch
  dispatch-Safe order ev s v =
      if_either Safe (str_eq ev.path path_editor) _ _
        (λ _. Safe-some _ (apply_editor-IsValid ctx order ev s v))
        (λ _.
          if_either Safe (str_eq ev.path path_review) _ _
            (λ _. Safe-some _ (apply_review-IsValid order ev s v))
            (λ _.
              if_either Safe (str_eq ev.path path_challenge) _ _
                (λ _. Safe-some _ (apply_challenge-IsValid ctx order ev s v))
                (λ _.
                  if_either Safe (str_eq ev.path path_ruling) _ _
                    (λ _. apply_ruling-Safe ctx ev s v)
                    (λ _.
                      if_either Safe (str_eq ev.path path_param_proposal) _ _
                        (λ _. Safe-some _ (apply_param_proposal-IsValid ev s v))
                        (λ _.
                          if_either Safe (str_eq ev.path path_rev) _ _
                            (λ _. apply_rev-Safe ctx ev s v) (λ _. Safe-some _ v))))))

  handle-Safe :
      (order : List Str → List Str) (ev : Event) (s : State)
      → IsValid s
      → Safe (handle ctx order ev s)
  unfolding handle
  handle-Safe order ev s v =
      if_either Safe (str_eq ev.path path_constitution) _ _ (λ _. constitution-Safe ev s v)
        (λ _.
          option_either Safe s.params _ _ (λ _. Safe-some _ v) (λ ps _. dispatch-Safe order ev s v))

  apply-Safe :
      (order : List Str → List Str) (ev : Event) (s : State)
      → IsValid s
      → Safe (apply ctx order ev s)
  unfolding apply
  apply-Safe order ev s v =
      handle-Safe order ev (close_expired ev.height (order (keys s.proposals)) s)
        (close_expired-IsValid ev.height (order (keys s.proposals)) s v)

  apply_all-Safe :
      (orders : ℕ → List Str → List Str) (n : ℕ) (evs : List Event) (s : State)
      → IsValid s
      → Safe (apply_all ctx orders n evs s)
  unfolding apply_all
  apply_all-Safe orders n [] s v = Safe-some s v
  apply_all-Safe orders n (ev ∷ evs) s v =
      option_either Safe (apply ctx (orders n) ev s) _ _ (λ _. Safe-none)
        (λ t e. apply_all-Safe orders (suc n) evs t ((apply-Safe (orders n) ev s v).at t e))

  replay_state-Safe :
      (orders : ℕ → List Str → List Str) (es : List Event) → Safe (replay_state ctx orders es)
  unfolding replay_state
  replay_state-Safe orders es =
      let evs = ordered es in
      let s0 : State = record new_state { pending = pending_pins es } in
      option_either Safe (apply_all ctx orders 0 evs s0) _ _ (λ _. Safe-none)
        (λ s e. Safe-some _ (
          close_expired-IsValid (wrap64 (last_height evs +ℤ pos 1))
            (orders (length evs) (keys s.proposals)) s
            ((apply_all-Safe orders 0 evs s0 (tt, tt)).at s e)))

  -- After a replay that does not panic, an editor of the map has different endorsers, none of
  -- them himself, and is registered only as a founder or with two of them at least; whatever the
  -- events, the options and the orders in which the maps are visited.
  pub replay_state-IsEndorsed :
      (orders : ℕ → List Str → List Str) (es : List Event) (s : State) (id : Str) (ed : Editor)
      → replay_state ctx orders es ≡ some s
      → lookup id s.editors ≡ some ed
      → IsEndorsed (id, ed)
  replay_state-IsEndorsed orders es s id ed e l =
      All-lookup IsEndorsed id ed s.editors ((replay_state-Safe orders es).at s e).0 l

  -- After a replay that does not panic, the approvals of a proposal are by different arbiters of
  -- its snapshot who voted, their number is the approve count, and it is not zero if the proposal
  -- is effective; whatever the events, the options and the orders in which the maps are visited.
  pub replay_state-IsCounted :
      (orders : ℕ → List Str → List Str) (es : List Event) (s : State) (pin : Str) (p : Proposal)
      → replay_state ctx orders es ≡ some s
      → lookup pin s.proposals ≡ some p
      → IsCounted (pin, p)
  replay_state-IsCounted orders es s pin p e l =
      All-lookup IsCounted pin p s.proposals ((replay_state-Safe orders es).at s e).1 l
