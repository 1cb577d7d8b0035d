-- ===== src/Metatask/Walk/Owner/History.antt =====
-- The lock of a node over a whole walk.
use mathlib.Core.List.{Memᴰ}
use metaso_p2p.Prelude.{
  ◌≡◌, ◌⊎◌, refl, arith, inl, inr, none, some, List, [], ◌∷◌, Bool-cases, Option-cases,
}
use metaso_p2p.Prelude.Text.{Str, str_eq, str_eq_iff}
use metaso_p2p.Prelude.Assoc.{lookup, lookup-without}
use metaso_p2p.Metatask.Event.{ChainEvent, EventPath, claim, release, submission, verify}
use metaso_p2p.Metatask.Votes.{str_at, target_of}
use metaso_p2p.Metatask.Walk.State.{Holder, WalkState, WalkContext, new_walk}
use metaso_p2p.Metatask.Walk.Run.{
  vote_step, verify_step, dispatch, walk_step, run_walk_from, run_walk,
}
use metaso_p2p.Metatask.Walk.Owner.{
  Releases, Claims, Rejects, claim_step_cases, claim_step-keep, release_step_cases,
  release_step-old, submission_step-holders, vote_step-holders,
}

module _ (ctx : WalkContext) where
  abbrev Lost : WalkState → ChainEvent → Str → Holder → Type 0
  Lost w pin node h = Releases ctx pin node h ⊎ Rejects ctx w pin node

  vote_step_cases :
      (w : WalkState) (pin vote : ChainEvent) (node : Str) (h : Holder)
      → pin.path ≡ verify
      → lookup pin.pin_id ctx.last_vote_by_pin ≡ some vote
      → lookup node w.holders ≡ some h
      → (lookup node (vote_step ctx w vote).holders ≡ some h) ⊎ Rejects ctx w pin node
  vote_step_cases w pin vote node h p s held = elim (vote_step-holders ctx w vote) [
    | inl same ↦ inl (rw same held)
    | inr (fails, (i, live), freed) ↦
        elim (Bool-cases (str_eq (str_at (target_of vote) w.node_of_live_target) node)) [
          | inr other ↦ inl (rw (freed, lookup-without, other) held)
          | inl same ↦
              let is = (str_eq_iff _ _).0 same in
              inr (record {
                is_verify = p;
                vote = vote;
                surviving = s;
                fails = fails;
                on_node = is;
                index = i;
                live = rw is at live;
              })
        ]
  ]

  verify_step_cases :
      (w : WalkState) (pin : ChainEvent) (node : Str) (h : Holder)
      → pin.path ≡ verify
      → lookup node w.holders ≡ some h
      → (lookup node (verify_step ctx w pin).holders ≡ some h) ⊎ Rejects ctx w pin node
  unfolding verify_step
  verify_step_cases w pin node h p held =
      elim (Option-cases (lookup pin.pin_id ctx.last_vote_by_pin)) [
        | inl e ↦ inl (rw (e, verify_step) held)
        | inr (vote, e) ↦ elim (vote_step_cases w pin vote node h p e held) [
          | inl kept ↦ inl (rw (e, verify_step) kept)
          | inr lost ↦ inr lost
        ]
      ]

  path_cases :
      (p : EventPath) (w : WalkState) (pin : ChainEvent) (node : Str) (h : Holder)
      → pin.path ≡ p
      → lookup node w.holders ≡ some h
      → (lookup node (dispatch p ctx w pin).holders ≡ some h) ⊎ Lost w pin node h
  unfolding dispatch
  path_cases claim w pin node h p held = inl (claim_step-keep ctx w pin node h held)
  path_cases release w pin node h p held = elim (release_step_cases ctx w pin node h p held) [
    | inl kept ↦ inl kept
    | inr lost ↦ inr (inl lost)
  ]
  path_cases submission w pin node h p held = inl (rw (submission_step-holders ctx w pin) held)
  path_cases verify w pin node h p held = elim (verify_step_cases w pin node h p held) [
    | inl kept ↦ inl kept
    | inr lost ↦ inr (inr lost)
  ]
  path_cases _ w pin node h p held = inl held

  verify_step-old :
      (w : WalkState) (pin : ChainEvent) (node : Str) (h : Holder)
      → lookup node (verify_step ctx w pin).holders ≡ some h
      → lookup node w.holders ≡ some h
  unfolding verify_step
  verify_step-old w pin node h held = elim (Option-cases (lookup pin.pin_id ctx.last_vote_by_pin)) [
    | inl e ↦ rw (e, verify_step) at held
    | inr (vote, e) ↦
        let held' : lookup node (vote_step ctx w vote).holders ≡ some h =
          rw (e, verify_step) at held in
        elim (vote_step-holders ctx w vote) [
          | inl same ↦ rw same at held'
          | inr (fails, live, freed) ↦ ground (
            arith,
            rw freed at held',
            lookup-without (str_at (target_of vote) w.node_of_live_target) node w.holders,
          )
        ]
  ]

  path_new :
      (p : EventPath) (w : WalkState) (pin : ChainEvent) (node : Str) (h : Holder)
      → pin.path ≡ p
      → lookup node (dispatch p ctx w pin).holders ≡ some h
      → (lookup node w.holders ≡ some h) ⊎ (Claims ctx pin node h × (lookup node w.holders ≡ none))
  unfolding dispatch
  path_new claim w pin node h p held = claim_step_cases ctx w pin node h p held
  path_new release w pin node h p held = inl (release_step-old ctx w pin node h held)
  path_new submission w pin node h p held = inl (rw (submission_step-holders ctx w pin) at held)
  path_new verify w pin node h p held = inl (verify_step-old w pin node h held)
  path_new _ w pin node h p held = inl held

  -- Where a holder comes from: a claim of the timeline, of the node and in scope.
  record Origin (timeline : List ChainEvent) (node : Str) (h : Holder) : Type 0 where
    pin : ChainEvent
    in_timeline : Memᴰ pin timeline
    claims : Claims ctx pin node h

  run_from-Origin :
      (timeline : List ChainEvent) (w : WalkState) (pins : List ChainEvent)
      → ((pin : ChainEvent) → Memᴰ pin pins → Memᴰ pin timeline)
      → ((node : Str) (h : Holder) → lookup node w.holders ≡ some h → Origin timeline node h)
      → (node : Str) (h : Holder) → lookup node (run_walk_from ctx w pins).holders ≡ some h
      → Origin timeline node h
  unfolding run_walk_from walk_step
  run_from-Origin timeline w [] within old node h held = old node h held
  run_from-Origin timeline w (pin ∷ pins) within old node h held =
      run_from-Origin timeline (walk_step ctx w pin) pins (λ p m. within p (Memᴰ.tail m))
        (λ n k e. elim (path_new pin.path w pin n k refl e) [
          | inl before ↦ old n k before
          | inr (claims, free) ↦ record {
            pin = pin;
            in_timeline = within pin (Memᴰ.head refl);
            claims = claims;
          }
        ])
        node h held

-- A step takes the lock of a held node from its holder only by a release that names the holder's
-- claim, or by a surviving fail on the live submission of the node. No claim displaces a holder.
pub held_until_freed :
    (ctx : WalkContext) (w : WalkState) (pin : ChainEvent) (node : Str) (h : Holder)
    → lookup node w.holders ≡ some h
    → (lookup node (walk_step ctx w pin).holders ≡ some h)
      ⊎ (Releases ctx pin node h ⊎ Rejects ctx w pin node)
unfolding walk_step
held_until_freed ctx w pin node h held = path_cases ctx pin.path w pin node h refl held

-- Every holder after a walk made a claim of the timeline on that node, which is named and, where
-- the task has a tree, in the tree.
pub holder_claimed :
    (ctx : WalkContext) (timeline : List ChainEvent) (node : Str) (h : Holder)
    → lookup node (run_walk ctx timeline).holders ≡ some h
    → (pin : ChainEvent) × Memᴰ pin timeline × Claims ctx pin node h
unfolding run_walk lookup
holder_claimed ctx timeline node h held =
    let o =
      run_from-Origin ctx timeline new_walk timeline (λ p m. m) (λ n k e. absurd (cc e)) node h
        held in
    (o.pin, o.in_timeline, o.claims)
