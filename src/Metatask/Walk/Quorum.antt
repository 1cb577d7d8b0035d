-- ===== src/Metatask/Walk/Quorum.antt =====
-- The invariant of the walk on the voters of a node and the quorum of a verified cycle.
pub mod Steps
pub mod Submits
pub mod Ballots
pub mod Walked
use mathlib.Core.List.{Memᴰ}
use metaso_p2p.Prelude.{
  ℕ, ◌≡◌, ◌≢◌, ◌≤◌, ◌⊎◌, refl, arith, inl, inr, Bool, true, false, Option, none, some, List, [],
  ◌∷◌, ◌++◌, if◌then◌else◌, length, get_elem?, modify, leb, All, Distinct, All-map, Bool-cases,
  Option-cases, get_elem?-modify_cases, leb→le,
}
use metaso_p2p.Prelude.Text.{Str, codes, str_eq, str_eq_iff}
use metaso_p2p.Prelude.Assoc.{
  Assoc, lookup, insert, without, lookup-insert, lookup-without, keys, DistinctKeys,
  DistinctKeys-insert, All-insert, Distinct-keys, length-keys, All-keys,
}
use metaso_p2p.Metatask.Event.{ChainEvent, verify}
use metaso_p2p.Metatask.Votes.{str_at, target_of}
use metaso_p2p.Metatask.Walk.State.{
  Cycle, CycleSubmission, CycleOutcome, verified_cycle, Holder, NodeOutcome, WalkState, WalkContext,
  free_node,
}
use metaso_p2p.Metatask.Walk.Submissions.{get_cycle}
use metaso_p2p.Metatask.Walk.Run.{verdict_of}
use metaso_p2p.Metatask.Walk.Cycles.{Grows, Extends}

module _ (ctx : WalkContext) (timeline : List ChainEvent) where
  -- A bot that wrote neither the task nor the submission has a walked pass on a submission of `c`.
  pub record Passed (c : Cycle) (bot : Str) : Type 0 where
    pub pin : ChainEvent
    pub walked : Memᴰ pin timeline
    pub is_verify : pin.path ≡ verify
    pub vote : ChainEvent
    pub surviving : lookup pin.pin_id ctx.last_vote_by_pin ≡ some vote
    pub by_bot : vote.author ≡ bot
    pub is_pass : verdict_of vote ≡ codes "pass"
    pub target : CycleSubmission
    pub on_cycle : Memᴰ target c.submissions
    pub on_target : target.pin_id ≡ target_of vote
    pub not_submitter : bot ≢ str_at (target_of vote) ctx.sub_author_by_pin
    pub not_root : bot ≢ ctx.root_author

  pub Passed-Grows : (c d : Cycle) (bot : Str) → Grows c d → Passed c bot → Passed d bot
  Passed-Grows c d bot g p = record {
    pin = p.pin;
    walked = p.walked;
    is_verify = p.is_verify;
    vote = p.vote;
    surviving = p.surviving;
    by_bot = p.by_bot;
    is_pass = p.is_pass;
    target = p.target;
    on_cycle = g p.target p.on_cycle;
    on_target = p.on_target;
    not_submitter = p.not_submitter;
    not_root = p.not_root;
  }

  abbrev pub Voters : Cycle → Assoc Str → Type 0
  Voters c vs = DistinctKeys vs × All (λ e. Passed c e.0) vs

  pub Voters-Grows : (c d : Cycle) (vs : Assoc Str) → Grows c d → Voters c vs → Voters d vs
  Voters-Grows c d vs g h = (
    h.0,
    All-map (λ e. Passed c e.0) (λ e. Passed d e.0) (λ e p. Passed-Grows c d e.0 g p) vs h.1,
  )

  -- As many bots as the quorum wants have passed a submission of the cycle.
  pub record Quorum (c : Cycle) : Type 0 where
    pub voters : Assoc Str
    pub enough : ctx.quorum ≤ length voters
    pub passed : Voters c voters

  pub Quorum-Grows : (c d : Cycle) → Grows c d → Quorum c → Quorum d
  Quorum-Grows c d g q = record {
    voters = q.voters;
    enough = q.enough;
    passed = Voters-Grows c d q.voters g q.passed;
  }

  -- The voters of a node have passed submissions of the cycle of its live claim.
  pub record Backed (w : WalkState) (node : Str) (vs : Assoc Str) : Type 0 where
    pub holder : Holder
    pub index : ℕ
    pub cycle : Cycle
    pub held : lookup node w.holders ≡ some holder
    pub live : get_cycle w node holder.pin_id ≡ some (index, cycle)
    pub voters : Voters cycle vs

  pub record Inv (w : WalkState) : Type 0 where
    pub backed :
        (node : Str) (vs : Assoc Str)
        → lookup node w.pass_voters_by_node ≡ some vs
        → Backed w node vs
    pub quorate :
        (i : ℕ) (c : Cycle) → get_elem? w.cycles i ≡ some c → c.outcome ≡ verified_cycle → Quorum c
    pub effective_member :
        (i : ℕ) (c : Cycle) (s : CycleSubmission)
        → get_elem? w.cycles i ≡ some c
        → c.effective ≡ some s
        → Memᴰ s c.submissions

  -- The node's holder and cycle are still there after the step.
  pub Backed-Extends :
      (w v : WalkState) (node : Str) (vs : Assoc Str)
      → Extends w v
      → ((h : Holder) → lookup node w.holders ≡ some h → lookup node v.holders ≡ some h)
      → Backed w node vs
      → Backed v node vs
  Backed-Extends w v node vs ext keep b =
      let (d, live, grown) = ext node b.holder.pin_id b.index b.cycle b.live in
      record {
        holder = b.holder;
        index = b.index;
        cycle = d;
        held = keep b.holder b.held;
        live = live;
        voters = Voters-Grows b.cycle d vs grown b.voters;
      }
