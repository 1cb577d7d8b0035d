-- ===== src/Metatask/Walk/Quorum/Walked.antt =====
-- The invariant of the quorum through the whole walk, and what it says of a verified cycle.
use mathlib.Core.List.{Memᴰ}
use metaso_p2p.Prelude.{
  ℕ, ◌≡◌, ◌≢◌, ◌≤◌, refl, arith, inl, inr, Bool, true, false, Option, none, some, List, [], ◌∷◌,
  ◌||◌, length, get_elem?, Bool-cases, All, Distinct,
}
use metaso_p2p.Prelude.Text.{Str, codes, str_eq, str_eq_iff, is_empty}
use metaso_p2p.Prelude.Assoc.{lookup, insert, keys, Distinct-keys, length-keys, All-keys}
use metaso_p2p.Metatask.Event.{ChainEvent, EventPath, claim, release, submission, verify}
use metaso_p2p.Metatask.Votes.{str_at, target_of}
use metaso_p2p.Metatask.Walk.State.{Cycle, verified_cycle, WalkState, WalkContext, new_walk}
use metaso_p2p.Metatask.Walk.Run.{
  live_cycle, verdict_of, act_vote, vote_step, verify_step, dispatch, walk_step, run_walk_from,
  run_walk,
}
use metaso_p2p.Metatask.Walk.Cycles.{get_cycle-elem, get_cycle-same}
use metaso_p2p.Metatask.Walk.Quorum.{Passed, Inv}
use metaso_p2p.Metatask.Walk.Quorum.Steps.{Inv-same, claim_step-Inv, release_step-Inv}
use metaso_p2p.Metatask.Walk.Quorum.Submits.{submission_step-Inv}
use metaso_p2p.Metatask.Walk.Quorum.Ballots.{Live, live_cycle-Live, count_pass-Inv, rejected-Inv}

-- `a || b` is false only where both are.
or_false : (a b : Bool) → (a || b) ≡ false → (a ≡ false) × (b ≡ false)
or_false a b h = ground arith

str_ne : (s t : Str) → str_eq s t ≡ false → s ≢ t
str_ne s t h e = cc (h, (str_eq_iff s t).1 e)

module _ (ctx : WalkContext) (timeline : List ChainEvent) where
  -- The pin of a ballot that the walk meets, and the surviving ballot of that pin.
  record Cast (pin vote : ChainEvent) : Type 0 where
    walked : Memᴰ pin timeline
    is_verify : pin.path ≡ verify
    surviving : lookup pin.pin_id ctx.last_vote_by_pin ≡ some vote

  reached : WalkState → ChainEvent → WalkState
  reached w vote = record w { reached_vote = insert vote.pin_id true w.reached_vote }

  reached-Inv :
      (w : WalkState) (vote : ChainEvent) → Inv ctx timeline w → Inv ctx timeline (reached w vote)
  unfolding reached
  reached-Inv w vote = Inv-same ctx timeline w _ refl refl refl (λ n h e. e)

  -- A live target is still one once the ballot is noted.
  reached-Live :
      (w : WalkState) (vote : ChainEvent) (node target : Str) (i : ℕ)
      → Live w node target i
      → Live (reached w vote) node target i
  unfolding reached
  reached-Live w vote node target i l = record {
    holder = l.holder;
    cycle = l.cycle;
    effective = l.effective;
    held = l.held;
    found = get_cycle-same w _ node l.holder.pin_id i l.cycle refl refl l.found;
    is_effective = l.is_effective;
    is_target = l.is_target;
  }

  passed :
      (pin vote : ChainEvent) (w : WalkState) (node : Str) (i : ℕ)
      → Cast pin vote
      → (l : Live w node (target_of vote) i) → Inv ctx timeline w
      → verdict_of vote ≡ codes "pass"
      → vote.author ≢ str_at (target_of vote) ctx.sub_author_by_pin
      → vote.author ≢ ctx.root_author
      → Passed ctx timeline l.cycle vote.author
  passed pin vote w node i c l inv p s r = record {
    pin = pin;
    walked = c.walked;
    is_verify = c.is_verify;
    vote = vote;
    surviving = c.surviving;
    by_bot = refl;
    is_pass = p;
    target = l.effective;
    on_cycle =
        inv.effective_member i l.cycle l.effective
          (get_cycle-elem w node l.holder.pin_id i l.cycle l.found).1 l.is_effective;
    on_target = l.is_target;
    not_submitter = s;
    not_root = r;
  }

  act_vote-Inv :
      (pin vote : ChainEvent) (w : WalkState) (node : Str) (i : ℕ)
      → Cast pin vote
      → Live w node (target_of vote) i
      → Inv ctx timeline w
      → Inv ctx timeline (act_vote ctx w node (target_of vote) i vote)
  unfolding act_vote reached
  act_vote-Inv pin vote w node i c l inv =
      let w' = reached w vote in
      let inv' = reached-Inv w vote inv in
      let l' = reached-Live w vote node (target_of vote) i l in
      elim (Bool-cases (str_eq (verdict_of vote) (codes "fail"))) [
        | inl fails ↦ rw fails (rejected-Inv ctx timeline w' node (target_of vote) i inv')
        | inr other ↦ rw other (elim (Bool-cases (str_eq (verdict_of vote) (codes "pass"))) [
          | inr neither ↦ rw neither inv'
          | inl passes ↦
              rw passes
                (elim (Bool-cases (
                  str_eq vote.author (str_at (target_of vote) ctx.sub_author_by_pin)
                  || str_eq vote.author ctx.root_author)) [
                    | inl conflict ↦ rw conflict inv'
                    | inr free ↦
                        let (s, r) = or_false _ _ free in
                        rw free (
                          count_pass-Inv ctx timeline w' node (target_of vote) i vote l'
                            (passed pin vote w' node i c l' inv' ((str_eq_iff _ _).0 passes)
                              (str_ne _ _ s) (str_ne _ _ r))
                            inv')
                  ])
        ])
      ]

  on_live : WalkState → ChainEvent → Str → Option ℕ → WalkState
  on_live w vote node found = elim found [
    | none ↦ w
    | some i ↦ act_vote ctx w node (target_of vote) i vote
  ]

  on_live-Inv :
      (pin vote : ChainEvent) (w : WalkState) (node : Str) (found : Option ℕ)
      → live_cycle w node (target_of vote) ≡ found
      → Cast pin vote
      → Inv ctx timeline w
      → Inv ctx timeline (on_live w vote node found)
  unfolding on_live
  on_live-Inv pin vote w node none e c inv = inv
  on_live-Inv pin vote w node (some i) e c inv =
      act_vote-Inv pin vote w node i c (live_cycle-Live w node (target_of vote) i e) inv

  vote_step-Inv :
      (pin vote : ChainEvent) (w : WalkState)
      → Cast pin vote
      → Inv ctx timeline w
      → Inv ctx timeline (vote_step ctx w vote)
  unfolding vote_step on_live
  vote_step-Inv pin vote w c inv =
      let node = str_at (target_of vote) w.node_of_live_target in
      elim (Bool-cases (is_empty node)) [
        | inl nowhere ↦ rw nowhere inv
        | inr somewhere ↦
            rw somewhere
              (on_live-Inv pin vote w node (live_cycle w node (target_of vote)) refl c inv)
      ]

  on_vote : WalkState → Option ChainEvent → WalkState
  on_vote w found = elim found [ none ↦ w | some vote ↦ vote_step ctx w vote ]

  on_vote-Inv :
      (pin : ChainEvent) (w : WalkState) (found : Option ChainEvent)
      → lookup pin.pin_id ctx.last_vote_by_pin ≡ found
      → Memᴰ pin timeline
      → pin.path ≡ verify
      → Inv ctx timeline w
      → Inv ctx timeline (on_vote w found)
  unfolding on_vote
  on_vote-Inv pin w none e m v inv = inv
  on_vote-Inv pin w (some vote) e m v inv =
      vote_step-Inv pin vote w (record { walked = m; is_verify = v; surviving = e }) inv

  walk_path-Inv :
      (p : EventPath) (pin : ChainEvent) (w : WalkState)
      → pin.path ≡ p
      → Memᴰ pin timeline
      → Inv ctx timeline w
      → Inv ctx timeline (dispatch p ctx w pin)
  unfolding dispatch verify_step on_vote
  walk_path-Inv claim pin w e m inv = claim_step-Inv ctx timeline w pin inv
  walk_path-Inv release pin w e m inv = release_step-Inv ctx timeline w pin inv
  walk_path-Inv submission pin w e m inv = submission_step-Inv ctx timeline w pin inv
  walk_path-Inv verify pin w e m inv =
      on_vote-Inv pin w (lookup pin.pin_id ctx.last_vote_by_pin) refl m e inv
  walk_path-Inv _ pin w e m inv = inv

  walk_step-Inv :
      (w : WalkState) (pin : ChainEvent)
      → Memᴰ pin timeline
      → Inv ctx timeline w
      → Inv ctx timeline (walk_step ctx w pin)
  unfolding walk_step
  walk_step-Inv w pin m inv = walk_path-Inv pin.path pin w refl m inv

  run_walk_from-Inv :
      (w : WalkState) (pins : List ChainEvent)
      → ((pin : ChainEvent) → Memᴰ pin pins → Memᴰ pin timeline)
      → Inv ctx timeline w
      → Inv ctx timeline (run_walk_from ctx w pins)
  unfolding run_walk_from
  run_walk_from-Inv w [] within inv = inv
  run_walk_from-Inv w (pin ∷ pins) within inv =
      run_walk_from-Inv (walk_step ctx w pin) pins (λ p m. within p (Memᴰ.tail m))
        (walk_step-Inv w pin (within pin (Memᴰ.head refl)) inv)

  new_walk-Inv : Inv ctx timeline new_walk
  unfolding lookup
  new_walk-Inv = record {
    backed = λ n vs e. absurd (cc e);
    quorate = λ i c e v. absurd (cc e);
    effective_member = λ i c s e p. absurd (cc e);
  }

  pub run_walk-Inv : Inv ctx timeline (run_walk ctx timeline)
  unfolding run_walk
  run_walk-Inv = run_walk_from-Inv new_walk timeline (λ p m. m) new_walk-Inv

-- After the walk over any timeline, a cycle whose outcome is verified has the passes of at least
-- a quorum of different bots, none of them the task's author or the author of the submission that
-- it passed, each by a surviving ballot of the timeline on a submission of that cycle.
pub verified_needs_quorum :
    (ctx : WalkContext) (timeline : List ChainEvent) (i : ℕ) (c : Cycle)
    → get_elem? (run_walk ctx timeline).cycles i ≡ some c
    → c.outcome ≡ verified_cycle
    → (bots : List Str) × (ctx.quorum ≤ length bots)
      × Distinct bots
      × All (Passed ctx timeline c) bots
verified_needs_quorum ctx timeline i c e v =
    let q = (run_walk-Inv ctx timeline).quorate i c e v in
    (
      keys q.voters,
      rw (length-keys q.voters) q.enough,
      Distinct-keys q.voters q.passed.0,
      All-keys (Passed ctx timeline c) q.voters q.passed.1,
    )
