-- ===== src/Metatask/Walk/Expiry/Lapses.antt =====
-- Whom `applyExpiry` takes a node from (internal/metatask/v121.go).
use metaso_p2p.Prelude.{
  ℕ, ◌≡◌, ◌≢◌, ◌⊎◌, ◌<◌, refl, arith, inl, inr, ◌&&◌, none, some, length, ltb, Bool-cases,
  Option-cases,
}
use metaso_p2p.Prelude.Int.{ℤ, pos, ◌-ℤ◌, ◌*ℤ◌, ◌<ℤ◌, ltb_ℤ, eqb_ℤ, eqb_ℤ_iff, wrap64}
use metaso_p2p.Prelude.Text.{Str}
use metaso_p2p.Prelude.Assoc.{lookup, DistinctKeys}
use metaso_p2p.Metatask.Walk.State.{
  Cycle, CycleSubmission, Holder, NodeOutcome, WalkState, voters_at, expired_claim,
  expired_review_window,
}
use metaso_p2p.Metatask.Walk.Submissions.{get_cycle}
use metaso_p2p.Metatask.Walk.Expiry.{
  ExpiryRules, past, effective_of, expired, apply_expiry, apply_expiry-survivor,
}

-- The time is further than these hours, of which there is one at least, from `since`, in int64.
abbrev pub Over : ExpiryRules → (hours since : ℤ) → Type 0
Over r hours since =
    (pos 0 <ℤ hours) × (wrap64 (hours *ℤ pos 3_600_000) <ℤ wrap64 (r.now_ms -ℤ since))

-- This submission is the effective one of the claim.
abbrev pub Submits : WalkState → Str → Holder → CycleSubmission → Type 0
Submits w n h s =
    (i : ℕ) × (c : Cycle) × (get_cycle w n h.pin_id ≡ some (i, c)) × (c.effective ≡ some s)

-- The claim has no submission and is past its time to live, or its effective submission is past
-- the review window with fewer voters than the quorum.
abbrev pub Lapsed : ExpiryRules → WalkState → Str → Holder → Type 0
Lapsed r w n h =
    (¬ ((s : CycleSubmission) × Submits w n h s) × Over r r.ttl_hours h.since_ms)
    ⊎ ((s : CycleSubmission) × Submits w n h s
        × (length (voters_at n w.pass_voters_by_node) < r.quorum)
        × Over r r.window_hours s.at_ms)

submits :
    (w : WalkState) (n : Str) (h : Holder) (s : CycleSubmission)
    → effective_of (get_cycle w n h.pin_id) ≡ some s
    → Submits w n h s
unfolding effective_of
submits w n h s e = elim (Option-cases (get_cycle w n h.pin_id)) [
  | inl f ↦ cc (rw f at e)
  | inr ((i, c), f) ↦ (i, c, f, rw f at e)
]

effective_of-Submits :
    (w : WalkState) (n : Str) (h : Holder) (s : CycleSubmission)
    → Submits w n h s
    → effective_of (get_cycle w n h.pin_id) ≡ some s
unfolding effective_of
effective_of-Submits w n h s (i, c, f, e) = rw f e

-- The decision takes the node exactly where it has lapsed.
expired_lem :
    (r : ExpiryRules) (w : WalkState) (n : Str) (h : Holder)
    → ((o : NodeOutcome) × (expired r w n h ≡ some o) × Lapsed r w n h)
      ⊎ ((expired r w n h ≡ none) × ¬ Lapsed r w n h)
unfolding expired past
expired_lem r w n h = elim (Option-cases (effective_of (get_cycle w n h.pin_id))) [
  | inl e ↦
      let no_sub : ¬ ((s : CycleSubmission) × Submits w n h s) =
        λ (s, m). cc (e, effective_of-Submits w n h s m) in
      elim (Bool-cases (ltb_ℤ (pos 0) r.ttl_hours && past r.now_ms h.since_ms r.ttl_hours)) [
        | inl t ↦ inl (expired_claim, rw (expired, e, t) refl, inl (no_sub, ground (arith, t)))
        | inr f ↦ inr (
          rw (expired, e, f) refl,
          λ l. elim l [
            | inl (_, over) ↦ ground (arith, f, over)
            | inr (s, m, _, _) ↦ no_sub (s, m)
          ],
        )
      ]
  | inr (s, e) ↦
      elim (Bool-cases (
        ltb_ℤ (pos 0) r.window_hours
        && (ltb (length (voters_at n w.pass_voters_by_node)) r.quorum
            && past r.now_ms s.at_ms r.window_hours))) [
              | inl t ↦ inl (
                expired_review_window,
                rw (expired, e, t) refl,
                inr (s, submits w n h s e, ground (arith, t), ground (arith, t)),
              )
              | inr f ↦ inr (
                rw (expired, e, f) refl,
                λ l. elim l [
                  | inl (no_sub, _) ↦ no_sub (s, submits w n h s e)
                  | inr (s', m, short, over) ↦
                      let same : s' ≡ s = cc (e, effective_of-Submits w n h s' m) in
                      let over_s : Over r r.window_hours s.at_ms = rw same at over in
                      ground (arith, f, short, over_s)
                ],
              )
            ]
]

-- A holder of a node that no other entry of the holders is for is taken by the expiry pass, or is
-- still there after it. Where it is taken there is a clock, and its claim has no effective
-- submission and is past the time to live, or its effective submission is past the review window
-- with fewer voters for the node than the quorum. Where it is still there, there is no clock or
-- neither is so.
pub apply_expiry-holders :
    (r : ExpiryRules) (w : WalkState) (n : Str) (h : Holder)
    → DistinctKeys w.holders
    → lookup n w.holders ≡ some h
    → ((lookup n (apply_expiry r w).holders ≡ none) × (r.now_ms ≢ pos 0) × Lapsed r w n h)
      ⊎ ((lookup n (apply_expiry r w).holders ≡ some h) × ((r.now_ms ≡ pos 0) ⊎ ¬ Lapsed r w n h))
apply_expiry-holders r w n h d held =
    let left = apply_expiry-survivor r w n h d held in
    elim (Bool-cases (eqb_ℤ r.now_ms (pos 0))) [
      | inl off ↦ inr ((rw off at left), inl ((eqb_ℤ_iff r.now_ms (pos 0)).0 off))
      | inr on ↦ elim (expired_lem r w n h) [
        | inl (o, e, lapsed) ↦
            inl ((rw (on, e) at left), (λ z. cc (on, (eqb_ℤ_iff r.now_ms (pos 0)).1 z)), lapsed)
        | inr (e, kept) ↦ inr ((rw (on, e) at left), inr kept)
      ]
    ]
