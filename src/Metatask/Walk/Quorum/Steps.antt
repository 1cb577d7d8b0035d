-- ===== src/Metatask/Walk/Quorum/Steps.antt =====
-- Claims, releases and the invariant of the quorum.

use metaso_p2p.Prelude.{
  ◌≡◌, refl, arith, inl, inr, Bool, true, false, Option, none, some, List, if◌then◌else◌,
  Bool-cases,
}
use metaso_p2p.Prelude.Text.{Str, str_eq, str_eq_iff, is_empty}
use metaso_p2p.Prelude.Assoc.{lookup, insert, lookup-insert, lookup-without}
use metaso_p2p.Metatask.Event.{ChainEvent}
use metaso_p2p.Metatask.Walk.State.{
  Holder, NodeOutcome, WalkState, WalkContext, free_node, node_field, claim_field, released, ghost,
  ignore_event,
}
use metaso_p2p.Metatask.Walk.Locks.{claim_step, release_step, log_release, count_release}
use metaso_p2p.Metatask.Votes.{Reason, unknown_node}
use metaso_p2p.Metatask.Walk.Cycles.{Extends-same}
use metaso_p2p.Metatask.Walk.Quorum.{Backed-Extends, Inv}

module _ (ctx : WalkContext) (timeline : List ChainEvent) where
  -- A step that keeps the cycles, the voters and every holder.
  pub Inv-same :
      (w v : WalkState)
      → v.cycles ≡ w.cycles
      → v.cycle_by_node_claim ≡ w.cycle_by_node_claim
      → v.pass_voters_by_node ≡ w.pass_voters_by_node
      → ((node : Str) (h : Holder)
          → lookup node w.holders ≡ some h
          → lookup node v.holders ≡ some h)
      → Inv ctx timeline w
      → Inv ctx timeline v
  Inv-same w v p q r keep inv = record {
    backed = λ node vs e.
        Backed-Extends ctx timeline w v node vs (Extends-same w v p q) (keep node)
          (inv.backed node vs (rw r at e));
    quorate = λ i c e. inv.quorate i c (rw p at e);
    effective_member = λ i c s e. inv.effective_member i c s (rw p at e);
  }

  claim_step-holders :
      (w : WalkState) (pin : ChainEvent) (node : Str) (h : Holder)
      → lookup node w.holders ≡ some h
      → lookup node (claim_step ctx w pin).holders ≡ some h
  unfolding claim_step
  claim_step-holders w pin node h e = ground (
    arith,
    lookup-insert (node_field pin) node
        (record {
          pin_id = pin.pin_id;
          claimant = pin.author;
          since_ms = pin.timestamp_ms;
          height = pin.height;
        })
        w.holders,
    str_eq_iff (node_field pin) node,
  )

  pub claim_step-Inv :
      (w : WalkState) (pin : ChainEvent)
      → Inv ctx timeline w
      → Inv ctx timeline (claim_step ctx w pin)
  unfolding claim_step
  claim_step-Inv w pin =
      Inv-same w (claim_step ctx w pin) (ground arith) (ground arith) (ground arith)
        (claim_step-holders w pin)

  -- A freed node has no voters left, and the others keep their holders.
  pub free_node-Inv :
      (w : WalkState) (node : Str) (outcome : NodeOutcome)
      → Inv ctx timeline w
      → Inv ctx timeline (free_node w node outcome)
  unfolding free_node
  free_node-Inv w node why inv = record {
    backed = λ n vs e. elim (Bool-cases (str_eq node n)) [
      | inl same ↦ cc (rw (lookup-without node n w.pass_voters_by_node, same) at e)
      | inr other ↦
          Backed-Extends ctx timeline w _ n vs (Extends-same w _ refl refl)
            (λ h held. rw (lookup-without node n w.holders, other) held)
            (inv.backed n vs (rw (lookup-without node n w.pass_voters_by_node, other) at e))
    ];
    quorate = inv.quorate;
    effective_member = inv.effective_member;
  }

  logged_release-Inv :
      (w : WalkState) (node : Str) (pin : ChainEvent)
      → Inv ctx timeline w
      → Inv ctx timeline (log_release w node pin)
  unfolding log_release
  logged_release-Inv w node pin = Inv-same w _ refl refl refl (λ n h e. e)

  counted_release-Inv :
      (w : WalkState) (node : Str) (pin : ChainEvent)
      → Inv ctx timeline w
      → Inv ctx timeline (count_release w node pin)
  unfolding count_release
  counted_release-Inv w node pin inv =
      free_node-Inv (record w { release_counted = insert pin.pin_id true w.release_counted }) node
        released (Inv-same w _ refl refl refl (λ n h e. e) inv)

  pub ignored-Inv :
      (w : WalkState) (pin : Str) (reason : Reason)
      → Inv ctx timeline w
      → Inv ctx timeline (ignore_event w pin reason)
  unfolding ignore_event
  ignored-Inv w pin reason = Inv-same w _ refl refl refl (λ n h e. e)

  -- The branches of a release on a node that is not empty.
  release_branch : WalkState → ChainEvent → Bool → Option Holder → WalkState
  release_branch w pin is_ghost held =
      let logged = log_release w (node_field pin) pin in
      if is_ghost then ignore_event w pin.pin_id unknown_node else elim held [
        | none ↦ logged
        | some h ↦
            if str_eq h.pin_id (claim_field pin)
            then count_release logged (node_field pin) pin
            else logged
      ]

  release_branch-Inv :
      (w : WalkState) (pin : ChainEvent) (is_ghost : Bool) (held : Option Holder)
      → Inv ctx timeline w
      → Inv ctx timeline (release_branch w pin is_ghost held)
  unfolding release_branch
  release_branch-Inv w pin true held inv = ignored-Inv w pin.pin_id unknown_node inv
  release_branch-Inv w pin false none inv = logged_release-Inv w (node_field pin) pin inv
  release_branch-Inv w pin false (some h) inv =
      elim (Bool-cases (str_eq h.pin_id (claim_field pin))) [
        | inl own ↦ rw own (
            counted_release-Inv _ (node_field pin) pin
              (logged_release-Inv w (node_field pin) pin inv))
        | inr other ↦ rw other (logged_release-Inv w (node_field pin) pin inv)
      ]

  pub release_step-Inv :
      (w : WalkState) (pin : ChainEvent)
      → Inv ctx timeline w
      → Inv ctx timeline (release_step ctx w pin)
  unfolding release_step release_branch
  release_step-Inv w pin inv = elim (Bool-cases (is_empty (node_field pin))) [
    | inl empty ↦ rw empty inv
    | inr named ↦ rw named (
        release_branch-Inv w pin (ghost ctx (node_field pin)) (lookup (node_field pin) w.holders)
          inv)
  ]
