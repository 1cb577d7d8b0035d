-- ===== src/Metatask/Walk/Quorum/Ballots.antt =====
-- Ballots and the invariant of the quorum.

use metaso_p2p.Prelude.{
  ℕ, ◌≡◌, refl, ap, inl, inr, Bool, true, Option, none, some, List, if◌then◌else◌, length,
  get_elem?, modify, leb, leb→le, Bool-cases, Option-cases, get_elem?-modify_cases, subst,
}
use metaso_p2p.Prelude.Text.{Str, str_eq, str_eq_iff}
use metaso_p2p.Prelude.Assoc.{
  Assoc, lookup, insert, without, lookup-insert, DistinctKeys-insert, All-insert,
}
use metaso_p2p.Metatask.Event.{ChainEvent}
use metaso_p2p.Metatask.Walk.State.{
  Cycle, CycleSubmission, Holder, WalkState, WalkContext, voters_at, rejected,
}
use metaso_p2p.Metatask.Walk.Submissions.{get_cycle}
use metaso_p2p.Metatask.Walk.Run.{
  add_voter, mark_verified, mark_rejected, count_pass, reject_cycle, live_cycle,
}
use metaso_p2p.Metatask.Walk.Cycles.{
  Grows, Extends-same, get_cycle-same, Extends-modify, get_cycle-elem,
}
use metaso_p2p.Metatask.Walk.Quorum.{Passed, Voters, Quorum, Quorum-Grows, Backed-Extends, Inv}
use metaso_p2p.Metatask.Walk.Quorum.Steps.{free_node-Inv}

-- What the test of a live target has found.
pub record Live (w : WalkState) (node target : Str) (i : ℕ) : Type 0 where
  pub holder : Holder
  pub cycle : Cycle
  pub effective : CycleSubmission
  pub held : lookup node w.holders ≡ some holder
  pub found : get_cycle w node holder.pin_id ≡ some (i, cycle)
  pub is_effective : cycle.effective ≡ some effective
  pub is_target : effective.pin_id ≡ target

effective_hit :
    (i j : ℕ) (target : Str) (o : Option CycleSubmission)
    → (elim o [ none ↦ none | some s ↦ if str_eq s.pin_id target then some i else none ]) ≡ some j
    → (s : CycleSubmission) × (o ≡ some s) × (s.pin_id ≡ target) × (i ≡ j)
effective_hit i j target none h = cc
effective_hit i j target (some s) h = elim (Bool-cases (str_eq s.pin_id target)) [
  | inl hit ↦ (s, refl, (str_eq_iff _ _).0 hit, cc (rw hit at h))
  | inr miss ↦ cc (rw miss at h)
]

pub live_cycle-Live :
    (w : WalkState) (node target : Str) (i : ℕ)
    → live_cycle w node target ≡ some i
    → Live w node target i
unfolding live_cycle
live_cycle-Live w node target i h = elim (Option-cases (lookup node w.holders)) [
  | inl e ↦ cc (rw (e, live_cycle) at h)
  | inr (holder, held) ↦ elim (Option-cases (get_cycle w node holder.pin_id)) [
    | inl e ↦ cc (rw (held, live_cycle, e) at h)
    | inr ((j, c), found) ↦
        let (s, is, hit, same) =
          effective_hit j i target c.effective (rw (held, live_cycle, found) at h) in
        record {
          holder = holder;
          cycle = c;
          effective = s;
          held = held;
          found = rw (← same) found;
          is_effective = is;
          is_target = hit;
        }
  ]
]

module _ (ctx : WalkContext) (timeline : List ChainEvent) where
  current-Voters :
      (w : WalkState) (node target : Str) (i : ℕ) (l : Live w node target i)
      → Inv ctx timeline w
      → Voters ctx timeline l.cycle (voters_at node w.pass_voters_by_node)
  current-Voters w node target i l inv = elim (Option-cases (lookup node w.pass_voters_by_node)) [
    | inl e ↦ rw (e, voters_at) (tt, tt)
    | inr (vs, e) ↦
        let b = inv.backed node vs e in
        let same_holder : b.holder ≡ l.holder = cc (b.held, l.held) in
        let same_cycle : b.cycle ≡ l.cycle =
          cc (b.live, l.found, ap (λ (h : Holder). get_cycle w node h.pin_id) same_holder) in
        rw (e, voters_at) (subst (λ c. Voters ctx timeline c vs) same_cycle b.voters)
  ]

  added-Voters :
      (c : Cycle) (vs : Assoc Str) (vote : ChainEvent)
      → Passed ctx timeline c vote.author
      → Voters ctx timeline c vs
      → Voters ctx timeline c (add_voter vs vote)
  unfolding add_voter
  added-Voters c vs vote p h = elim (Option-cases (lookup vote.author vs)) [
    | inr (old, e) ↦ rw (e, add_voter) h
    | inl e ↦
        rw (e, add_voter)
          (
            DistinctKeys-insert vote.author vote.pin_id vs h.0,
            All-insert (λ e. Passed ctx timeline c e.0) vote.author vote.pin_id vs p h.1,
          )
  ]

  -- The state once the voter is recorded, before the quorum is tested.
  counted : WalkState → Str → ChainEvent → WalkState
  counted w node vote = record w {
    pass_voters_by_node =
        insert node (add_voter (voters_at node w.pass_voters_by_node) vote) w.pass_voters_by_node;
  }

  counted-Inv :
      (w : WalkState) (node target : Str) (i : ℕ) (vote : ChainEvent) (l : Live w node target i)
      → Passed ctx timeline l.cycle vote.author
      → Inv ctx timeline w
      → Inv ctx timeline (counted w node vote)
  unfolding counted
  counted-Inv w node target i vote l p inv = record {
    backed = λ n vs e. elim (Bool-cases (str_eq node n)) [
      | inr other ↦
          Backed-Extends ctx timeline w _ n vs (Extends-same w _ refl refl) (λ h held. held)
            (inv.backed n vs (rw (lookup-insert, other) at e))
      | inl same ↦
          let is_n : node ≡ n = (str_eq_iff node n).0 same in
          let is_vs : add_voter (voters_at node w.pass_voters_by_node) vote ≡ vs =
            cc (rw (lookup-insert, same) at e) in
          record {
            holder = l.holder;
            index = i;
            cycle = l.cycle;
            held = rw (← is_n) l.held;
            live = rw (← is_n) (
                get_cycle-same w (counted w node vote) node l.holder.pin_id i l.cycle refl refl
                  l.found);
            voters = subst (Voters ctx timeline l.cycle) is_vs (
                added-Voters l.cycle (voters_at node w.pass_voters_by_node) vote p
                  (current-Voters w node target i l inv));
          }
    ];
    quorate = inv.quorate;
    effective_member = inv.effective_member;
  }

  quorum_reached :
      (c : Cycle) (vs : Assoc Str)
      → leb ctx.quorum (length vs) ≡ true
      → Voters ctx timeline c vs
      → Quorum ctx timeline c
  quorum_reached c vs e h = record { voters = vs; enough = leb→le _ _ e; passed = h }

  verified-Inv :
      (w : WalkState) (i : ℕ) (c : Cycle) (vote : ChainEvent) (pins : Assoc Bool)
      → get_elem? w.cycles i ≡ some c
      → Quorum ctx timeline c
      → Inv ctx timeline w
      → Inv ctx timeline (record w {
        cycles = modify (mark_verified vote) w.cycles i;
        verified_submission_pins = pins;
      })
  unfolding mark_verified
  verified-Inv w i c vote pins here q inv = record {
    backed = λ n vs e.
        Backed-Extends ctx timeline w _ n vs
          (Extends-modify w _ (mark_verified vote) i (λ d s m. m) refl refl) (λ h held. held)
          (inv.backed n vs e);
    quorate = λ j d e v. elim (get_elem?-modify_cases (mark_verified vote) w.cycles i j d e) [
      | inl old ↦ inv.quorate j d old v
      | inr (b, at, is) ↦
          let same : c ≡ b = cc (here, at) in
          rw is (
            Quorum-Grows ctx timeline c (mark_verified vote b)
              (subst (λ (x : Cycle). Grows c (mark_verified vote x)) same (λ s m. m)) q)
    ];
    effective_member = λ j d s e p.
        elim (get_elem?-modify_cases (mark_verified vote) w.cycles i j d e) [
          | inl old ↦ inv.effective_member j d s old p
          | inr (b, at, is) ↦ rw is (inv.effective_member i b s at (cc (is, p)))
        ];
  }

  pub count_pass-Inv :
      (w : WalkState) (node target : Str) (i : ℕ) (vote : ChainEvent) (l : Live w node target i)
      → Passed ctx timeline l.cycle vote.author
      → Inv ctx timeline w
      → Inv ctx timeline (count_pass ctx w node target i vote)
  unfolding count_pass counted
  count_pass-Inv w node target i vote l p inv =
      let voters = add_voter (voters_at node w.pass_voters_by_node) vote in
      let inv' = counted-Inv w node target i vote l p inv in
      elim (Bool-cases (leb ctx.quorum (length voters))) [
        | inr few ↦ rw few inv'
        | inl enough ↦ rw enough (
            verified-Inv (counted w node vote) i l.cycle vote
              (insert target true w.verified_submission_pins)
              (get_cycle-elem w node l.holder.pin_id i l.cycle l.found).1
              (quorum_reached l.cycle voters enough
                (added-Voters l.cycle _ vote p (current-Voters w node target i l inv)))
              inv')
      ]

  pub rejected-Inv :
      (w : WalkState) (node target : Str) (i : ℕ)
      → Inv ctx timeline w
      → Inv ctx timeline (reject_cycle w node target i)
  unfolding reject_cycle mark_rejected
  rejected-Inv w node target i inv =
      free_node-Inv ctx timeline
        (record w {
          cycles = modify mark_rejected w.cycles i;
          verified_submission_pins = without target w.verified_submission_pins;
        })
        node rejected
        (record {
          backed = λ n vs e.
              Backed-Extends ctx timeline w _ n vs
                (Extends-modify w _ mark_rejected i (λ d s m. m) refl refl) (λ h held. held)
                (inv.backed n vs e);
          quorate = λ j d e v. elim (get_elem?-modify_cases mark_rejected w.cycles i j d e) [
            | inl old ↦ inv.quorate j d old v
            | inr (b, at, is) ↦ absurd (cc (is, v))
          ];
          effective_member = λ j d s e p.
              elim (get_elem?-modify_cases mark_rejected w.cycles i j d e) [
                | inl old ↦ inv.effective_member j d s old p
                | inr (b, at, is) ↦ rw is (inv.effective_member i b s at (cc (is, p)))
              ];
        })
