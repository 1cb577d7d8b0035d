-- ===== src/Metatask/Walk/Quorum/Submits.antt =====
-- Submissions and the invariant of the quorum.
use mathlib.Core.List.{Memᴰ}
use metaso_p2p.Prelude.{
  ℕ, ◌≡◌, refl, arith, inl, inr, Option, none, some, List, [], ◌∷◌, ◌++◌, ◌||◌, not, if◌then◌else◌,
  Bool-cases, get_elem?-modify_cases, Memᴰ-append_left, Memᴰ-append_last, subst,
}
use metaso_p2p.Prelude.Text.{Str, str_eq, is_empty}
use metaso_p2p.Prelude.Assoc.{lookup}
use metaso_p2p.Metatask.Event.{ChainEvent}
use metaso_p2p.Metatask.Votes.{
  duplicate_without_supersede, supersede_predicate_failed, unknown_node,
}
use metaso_p2p.Metatask.Walk.State.{
  Cycle, CycleSubmission, Holder, WalkState, WalkContext, node_field, claim_field, ghost,
}
use metaso_p2p.Metatask.Walk.Submissions.{
  get_cycle, ensure_cycle, make_effective, mark_superseded, chain_ok, attach_submission,
  submission_of, submission_step,
}
use metaso_p2p.Metatask.Walk.Cycles.{Grows, Extends-modify, Extends-ensure, ensure_cycle-elem}
use metaso_p2p.Metatask.Walk.Quorum.{Quorum-Grows, Backed-Extends, Inv}
use metaso_p2p.Metatask.Walk.Quorum.Steps.{ignored-Inv}

module _ (ctx : WalkContext) (timeline : List ChainEvent) where
  ensure_cycle-holders :
      (w : WalkState) (node claim_id claimant : Str)
      → ((ensure_cycle w node claim_id claimant).holders ≡ w.holders)
        × ((ensure_cycle w node claim_id claimant).pass_voters_by_node ≡ w.pass_voters_by_node)
  unfolding ensure_cycle
  ensure_cycle-holders w node claim_id claimant = ground arith

  ensured-Inv :
      (w : WalkState) (node claim_id claimant : Str)
      → Inv ctx timeline w
      → Inv ctx timeline (ensure_cycle w node claim_id claimant)
  ensured-Inv w node claim_id claimant inv =
      let (holders, voters) = ensure_cycle-holders w node claim_id claimant in
      record {
        backed = λ n vs e.
            Backed-Extends ctx timeline w _ n vs (Extends-ensure w node claim_id claimant)
              (λ h held. rw holders held) (inv.backed n vs (rw voters at e));
        quorate = λ i c e v. elim (ensure_cycle-elem w node claim_id claimant i c e) [
          | inl old ↦ inv.quorate i c old v
          | inr fresh ↦ absurd (cc (fresh, v))
        ];
        effective_member = λ i c s e p. elim (ensure_cycle-elem w node claim_id claimant i c e) [
          | inl old ↦ inv.effective_member i c s old p
          | inr fresh ↦ absurd (cc (fresh, p))
        ];
      }

  with_submission : (Cycle → Cycle) → CycleSubmission → Cycle → Cycle
  with_submission mark r c = record (mark c) {
    submissions = c.submissions ++ r ∷ [];
    effective = some r;
  }

  with_submission-Grows :
      (mark : Cycle → Cycle) (r : CycleSubmission) (c : Cycle) → Grows c (with_submission mark r c)
  unfolding with_submission
  with_submission-Grows mark r c s m = Memᴰ-append_left s c.submissions (r ∷ []) m

  made_effective-Inv :
      (w : WalkState) (node : Str) (i : ℕ) (r : CycleSubmission) (mark : Cycle → Cycle)
      → ((c : Cycle) → (mark c).outcome ≡ c.outcome)
      → Inv ctx timeline w
      → Inv ctx timeline (make_effective w node i r mark)
  unfolding make_effective with_submission
  made_effective-Inv w node i r mark same inv = record {
    backed = λ n vs e.
        Backed-Extends ctx timeline w _ n vs
          (Extends-modify w _ (with_submission mark r) i (with_submission-Grows mark r) refl refl)
          (λ h held. held) (inv.backed n vs e);
    quorate = λ j c e v. elim (get_elem?-modify_cases (with_submission mark r) w.cycles i j c e) [
      | inl old ↦ inv.quorate j c old v
      | inr (d, at, is) ↦ rw is (
          Quorum-Grows ctx timeline d (with_submission mark r d) (with_submission-Grows mark r d)
            (inv.quorate i d at (cc (is, v, same d))))
    ];
    effective_member = λ j c s e p.
        elim (get_elem?-modify_cases (with_submission mark r) w.cycles i j c e) [
          | inl old ↦ inv.effective_member j c s old p
          | inr (d, at, is) ↦
              let is_r : r ≡ s = cc (is, p) in
              rw is (
                subst (λ t. Memᴰ t (d.submissions ++ r ∷ [])) is_r
                  (Memᴰ-append_last r d.submissions))
        ];
  }

  attached-Inv :
      (w : WalkState) (node : Str) (i : ℕ) (c : Cycle) (held : Option CycleSubmission)
      → c.effective ≡ held
      → (r : CycleSubmission) → Inv ctx timeline w
      → Inv ctx timeline (attach_submission ctx w node (i, c) r)
  unfolding attach_submission
  attached-Inv w node i c none e r inv =
      rw e (made_effective-Inv w node i r (λ d. d) (λ d. refl) inv)
  attached-Inv w node i c (some s) e r inv = rw e (elim (Bool-cases (is_empty r.supersede_id)) [
    | inl alone ↦ rw alone (ignored-Inv ctx timeline w r.pin_id duplicate_without_supersede inv)
    | inr names ↦ rw names (elim (Bool-cases (chain_ok ctx c s r)) [
      | inl chained ↦ rw chained (
          made_effective-Inv w node i r (mark_superseded r.supersede_id)
            (unfold mark_superseded in λ d. refl) inv)
      | inr broken ↦ rw broken (ignored-Inv ctx timeline w r.pin_id supersede_predicate_failed inv)
    ])
  ])

  -- What a submission on the live claim does once its cycle is there.
  on_cycle : WalkState → Str → ChainEvent → Option (ℕ × Cycle) → WalkState
  on_cycle w node pin found = elim found [
    | none ↦ w
    | some f ↦ attach_submission ctx w node f (submission_of pin)
  ]

  on_cycle-Inv :
      (w : WalkState) (node : Str) (pin : ChainEvent) (found : Option (ℕ × Cycle))
      → Inv ctx timeline w
      → Inv ctx timeline (on_cycle w node pin found)
  unfolding on_cycle
  on_cycle-Inv w node pin none inv = inv
  on_cycle-Inv w node pin (some (i, c)) inv =
      attached-Inv w node i c c.effective refl (submission_of pin) inv

  on_holder : WalkState → ChainEvent → Option Holder → WalkState
  unfolding on_cycle
  on_holder w pin held = elim held [
    | none ↦ w
    | some h ↦
        if not (str_eq h.pin_id (claim_field pin))
        then w
        else let w' = ensure_cycle w (node_field pin) (claim_field pin) h.claimant in
          on_cycle w' (node_field pin) pin (get_cycle w' (node_field pin) (claim_field pin))
  ]

  on_holder-Inv :
      (w : WalkState) (pin : ChainEvent) (held : Option Holder)
      → Inv ctx timeline w
      → Inv ctx timeline (on_holder w pin held)
  unfolding on_holder
  on_holder-Inv w pin none inv = inv
  on_holder-Inv w pin (some h) inv = elim (Bool-cases (str_eq h.pin_id (claim_field pin))) [
    | inr other ↦ rw other inv
    | inl own ↦
        let w' = ensure_cycle w (node_field pin) (claim_field pin) h.claimant in
        rw own (
          on_cycle-Inv w' (node_field pin) pin (get_cycle w' (node_field pin) (claim_field pin))
            (ensured-Inv w (node_field pin) (claim_field pin) h.claimant inv))
  ]

  pub submission_step-Inv :
      (w : WalkState) (pin : ChainEvent)
      → Inv ctx timeline w
      → Inv ctx timeline (submission_step ctx w pin)
  unfolding submission_step on_holder
  submission_step-Inv w pin inv =
      elim (Bool-cases (is_empty (node_field pin) || is_empty (claim_field pin))) [
        | inl empty ↦ rw empty inv
        | inr named ↦ rw named (elim (Bool-cases (ghost ctx (node_field pin))) [
          | inl away ↦ rw away (ignored-Inv ctx timeline w pin.pin_id unknown_node inv)
          | inr there ↦ rw there (on_holder-Inv w pin (lookup (node_field pin) w.holders) inv)
        ])
      ]
