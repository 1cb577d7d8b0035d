-- ===== src/Metatask/Walk/Owner.antt =====
-- One step of the walk and the lock of a node.
pub mod History
use mathlib.Core.List.{Memᴰ}
use metaso_p2p.Prelude.{
  ℕ, ◌≡◌, ◌≢◌, ◌⊎◌, refl, sym, arith, inl, inr, Bool, true, false, not, Option, none, some, List,
  [], ◌∷◌, ◌||◌, if◌then◌else◌, Bool-cases, Option-cases,
}
use metaso_p2p.Prelude.Text.{Str, codes, str_eq, str_eq_iff, is_empty}
use metaso_p2p.Prelude.Assoc.{Assoc, lookup, insert, without, lookup-insert, lookup-without}
use metaso_p2p.Metatask.Event.{
  ChainEvent, EventPath, task, tree, spec, claim, release, submission, verify, amend, challenge,
}
use metaso_p2p.Metatask.Votes.{str_at, target_of}
use metaso_p2p.Metatask.Walk.State.{
  Holder, Cycle, WalkState, WalkContext, new_walk, ghost, ignore_event, node_field, claim_field,
  free_node, rejected, released,
}
use metaso_p2p.Metatask.Walk.Locks.{claim_step, release_step}
use metaso_p2p.Metatask.Walk.Submissions.{
  get_cycle, ensure_cycle, attach_submission, submission_of, submission_step,
}
use metaso_p2p.Metatask.Walk.Run.{
  verdict_of, live_cycle, reject_cycle, act_vote, vote_step, verify_step, dispatch, walk_step,
  run_walk_from, run_walk,
}

module _ (ctx : WalkContext) where
  attach_submission-holders :
      (w : WalkState) (node : Str) (found : ℕ × Cycle) (pin : ChainEvent)
      → (attach_submission ctx w node found (submission_of pin)).holders ≡ w.holders
  unfolding attach_submission
  attach_submission-holders w node found pin = ground arith

  ensure_cycle-holders :
      (w : WalkState) (node claim_id claimant : Str)
      → (ensure_cycle w node claim_id claimant).holders ≡ w.holders
  unfolding ensure_cycle
  ensure_cycle-holders w node claim_id claimant = ground arith

  -- A submission moves no lock.
  pub submission_step-holders :
      (w : WalkState) (pin : ChainEvent) → (submission_step ctx w pin).holders ≡ w.holders
  unfolding submission_step ensure_cycle attach_submission ignore_event
  submission_step-holders w pin = ground arith

  -- A release that names the claim of the node's holder.
  abbrev pub Releases : ChainEvent → Str → Holder → Type 0
  Releases pin node h =
      (pin.path ≡ release) × (node_field pin ≡ node) × (claim_field pin ≡ h.pin_id)

  -- A claim of the node, with the holder that it makes.
  pub record Claims (pin : ChainEvent) (node : Str) (h : Holder) : Type 0 where
    pub is_claim : pin.path ≡ claim
    pub on_node : node_field pin ≡ node
    pub same_pin : h.pin_id ≡ pin.pin_id
    pub same_author : h.claimant ≡ pin.author
    pub named : is_empty node ≡ false
    pub in_scope : ghost ctx node ≡ false

  -- A surviving fail whose target is live on the node.
  pub record Rejects (w : WalkState) (pin : ChainEvent) (node : Str) : Type 0 where
    pub is_verify : pin.path ≡ verify
    pub vote : ChainEvent
    pub surviving : lookup pin.pin_id ctx.last_vote_by_pin ≡ some vote
    pub fails : verdict_of vote ≡ codes "fail"
    pub on_node : str_at (target_of vote) w.node_of_live_target ≡ node
    pub index : ℕ
    pub live : live_cycle w node (target_of vote) ≡ some index

  -- A claim gives the lock of its own node only, and only where it was free.
  pub claim_step_cases :
      (w : WalkState) (pin : ChainEvent) (node : Str) (h : Holder)
      → pin.path ≡ claim
      → lookup node (claim_step ctx w pin).holders ≡ some h
      → (lookup node w.holders ≡ some h) ⊎ (Claims pin node h × (lookup node w.holders ≡ none))
  unfolding claim_step
  claim_step_cases w pin node h p e = elim (Bool-cases (is_empty (node_field pin))) [
    | inl empty ↦ inl (rw (empty, claim_step) at e)
    | inr named ↦ elim (Bool-cases (ghost ctx (node_field pin))) [
      | inl away ↦ inl (rw (named, claim_step, away) at e)
      | inr there ↦ elim (Option-cases (lookup (node_field pin) w.holders)) [
        | inr (old, held) ↦ inl (rw (named, claim_step, there, held) at e)
        | inl free ↦
            let e' : lookup node (
                  insert (node_field pin)
                    (record {
                      pin_id = pin.pin_id;
                      claimant = pin.author;
                      since_ms = pin.timestamp_ms;
                      height = pin.height;
                    })
                    w.holders)
                ≡ some h =
              rw (named, claim_step, there, free) at e in
            elim (Bool-cases (str_eq (node_field pin) node)) [
              | inr other ↦ inl (rw (lookup-insert, other) at e')
              | inl same ↦
                  let is : node_field pin ≡ node = (str_eq_iff _ _).0 same in
                  let taken = rw (lookup-insert, same) at e' in
                  inr (
                    record {
                      is_claim = p;
                      on_node = is;
                      same_pin = cc (taken);
                      same_author = cc (taken);
                      named = rw is at named;
                      in_scope = rw is at there;
                    },
                    rw is at free,
                  )
            ]
      ]
    ]
  ]

  -- Freeing a node takes its holder and no other's.
  free_node_cases :
      (w v : WalkState) (at_node node : Str) (h : Holder)
      → v.holders ≡ without at_node w.holders
      → lookup node w.holders ≡ some h
      → (lookup node v.holders ≡ some h) ⊎ (at_node ≡ node)
  free_node_cases w v at_node node h p held = elim (Bool-cases (str_eq at_node node)) [
    | inl same ↦ inr ((str_eq_iff _ _).0 same)
    | inr other ↦ inl (rw (p, lookup-without, other) held)
  ]

  pub claim_step-keep :
      (w : WalkState) (pin : ChainEvent) (node : Str) (h : Holder)
      → lookup node w.holders ≡ some h
      → lookup node (claim_step ctx w pin).holders ≡ some h
  unfolding claim_step
  claim_step-keep w pin node h e = ground (
    arith,
    lookup-insert (node_field pin) node
        (record {
          pin_id = pin.pin_id;
          claimant = pin.author;
          since_ms = pin.timestamp_ms;
          height = pin.height;
        })
        w.holders,
    str_eq_iff (node_field pin) node,
  )

  pub release_step_cases :
      (w : WalkState) (pin : ChainEvent) (node : Str) (h : Holder)
      → pin.path ≡ release
      → lookup node w.holders ≡ some h
      → (lookup node (release_step ctx w pin).holders ≡ some h) ⊎ Releases pin node h
  unfolding release_step
  release_step_cases w pin node h p held = ground (
    arith,
    lookup-without (node_field pin) node w.holders,
    str_eq_iff (node_field pin) node,
    str_eq_iff h.pin_id (claim_field pin),
  )

  -- A release gives no lock.
  pub release_step-old :
      (w : WalkState) (pin : ChainEvent) (node : Str) (h : Holder)
      → lookup node (release_step ctx w pin).holders ≡ some h
      → lookup node w.holders ≡ some h
  unfolding release_step
  release_step-old w pin node h held =
      ground (arith, lookup-without (node_field pin) node w.holders)

  -- Only a fail moves a lock, and it frees the node of its target.
  act_vote-holders :
      (w : WalkState) (node target : Str) (i : ℕ) (vote : ChainEvent)
      → ((act_vote ctx w node target i vote).holders ≡ w.holders)
        ⊎ ((verdict_of vote ≡ codes "fail")
            × ((act_vote ctx w node target i vote).holders ≡ without node w.holders))
  unfolding act_vote
  act_vote-holders w node target i vote =
      elim (Bool-cases (str_eq (verdict_of vote) (codes "fail"))) [
        | inl fails ↦ inr ((str_eq_iff _ _).0 fails, rw fails)
        | inr other ↦ inl (rw other (ground arith))
      ]

  pub vote_step-holders :
      (w : WalkState) (vote : ChainEvent)
      → ((vote_step ctx w vote).holders ≡ w.holders)
        ⊎ ((verdict_of vote ≡ codes "fail")
            × ((i : ℕ) × (live_cycle w
                    (str_at (target_of vote) w.node_of_live_target)
                    (target_of vote)
                  ≡ some i))
            × ((vote_step ctx w vote).holders
                ≡ without (str_at (target_of vote) w.node_of_live_target) w.holders))
  unfolding vote_step
  vote_step-holders w vote =
      let node = str_at (target_of vote) w.node_of_live_target in
      elim (Bool-cases (is_empty node)) [
        | inl nowhere ↦ inl (rw (nowhere, vote_step))
        | inr somewhere ↦ elim (Option-cases (live_cycle w node (target_of vote))) [
          | inl none_live ↦ inl (rw (somewhere, vote_step, none_live))
          | inr (i, live) ↦ elim (act_vote-holders w node (target_of vote) i vote) [
            | inl same ↦ inl (rw (somewhere, vote_step, live) same)
            | inr (fails, freed) ↦ inr (fails, (i, live), rw (somewhere, vote_step, live) freed)
          ]
        ]
      ]
