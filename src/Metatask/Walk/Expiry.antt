-- ===== src/Metatask/Walk/Expiry.antt =====
-- `applyExpiry`: claims past their time to live and submissions past their review window are
-- dropped against the evaluation clock. The loop over the holders is a loop over their entries.
pub mod Lapses
use metaso_p2p.Prelude.{
  ℕ, ◌≡◌, refl, ap, subst, ◌∙◌, arith, inl, inr, Bool, false, ◌&&◌, Option, none, some, [], ◌∷◌,
  if◌then◌else◌, length, ltb, Bool-cases, Option-cases,
}
use metaso_p2p.Prelude.Int.{ℤ, pos, ◌-ℤ◌, ◌*ℤ◌, ltb_ℤ, eqb_ℤ, wrap64}
use metaso_p2p.Prelude.Text.{Str, str_eq, str_eq_iff, str_eq_refl}
use metaso_p2p.Prelude.Assoc.{Assoc, lookup, lookup-without, lookup-cons, DistinctKeys}
use metaso_p2p.Metatask.Walk.State.{
  Cycle, CycleSubmission, Holder, NodeOutcome, expired_claim, expired_review_window, WalkState,
  voters_at, free_node,
}
use metaso_p2p.Metatask.Walk.Submissions.{get_cycle}

-- `NowMs` is 0 where no clock is given.
pub record ExpiryRules : Type 0 where
  pub now_ms : ℤ
  pub ttl_hours : ℤ
  pub window_hours : ℤ
  pub quorum : ℕ

-- `now - since > int64(hours) * 3_600_000`, in int64.
unfoldable pub past : ℤ → ℤ → ℤ → Bool
past now since hours = ltb_ℤ (wrap64 (hours *ℤ pos 3_600_000)) (wrap64 (now -ℤ since))

unfoldable pub effective_of : Option (ℕ × Cycle) → Option CycleSubmission
effective_of none = none
effective_of (some (i, c)) = c.effective

unfoldable pub expired : ExpiryRules → WalkState → Str → Holder → Option NodeOutcome
unfolding effective_of
expired r w node h = elim (effective_of (get_cycle w node h.pin_id)) [
  | none ↦
      if ltb_ℤ (pos 0) r.ttl_hours && past r.now_ms h.since_ms r.ttl_hours
      then some expired_claim
      else none
  | some s ↦
      if ltb_ℤ (pos 0) r.window_hours
        && (ltb (length (voters_at node w.pass_voters_by_node)) r.quorum
            && past r.now_ms s.at_ms r.window_hours)
      then some expired_review_window
      else none
]

unfoldable pub expire_node : ExpiryRules → WalkState → Str → Holder → WalkState
expire_node r w node h = elim (expired r w node h) [ none ↦ w | some o ↦ free_node w node o ]

unfoldable pub expire_nodes : ExpiryRules → WalkState → Assoc Holder → WalkState
unfolding expire_node
expire_nodes r w [] = w
expire_nodes r w ((node, h) ∷ rest) = expire_nodes r (expire_node r w node h) rest

unfoldable pub apply_expiry : ExpiryRules → WalkState → WalkState
unfolding expire_nodes
apply_expiry r w = if eqb_ℤ r.now_ms (pos 0) then w else expire_nodes r w w.holders

-- What an expiry decision leaves of a holder.
abbrev pub survivor : Option NodeOutcome → Option Holder → Option Holder
survivor none held = held
survivor (some _) held = none

expire_node_self :
    (r : ExpiryRules) (w : WalkState) (node : Str) (h : Holder)
    → lookup node (expire_node r w node h).holders
      ≡ survivor (expired r w node h) (lookup node w.holders)
unfolding expire_node free_node
expire_node_self r w node h = elim (Option-cases (expired r w node h)) [
  | inl e ↦ rw (e, expire_node)
  | inr (o, e) ↦ rw (e, expire_node, lookup-without, str_eq_refl)
]

freed-expired :
    (r : ExpiryRules) (w : WalkState) (node n : Str) (o : NodeOutcome) (k : Holder)
    → str_eq node n ≡ false
    → expired r (free_node w node o) n k ≡ expired r w n k
unfolding expired free_node get_cycle
freed-expired r w node n o k ne = ground (arith, lookup-without node n w.pass_voters_by_node)

expire_node-other :
    (r : ExpiryRules) (w : WalkState) (node n : Str) (h k : Holder)
    → str_eq node n ≡ false
    → (lookup n (expire_node r w node h).holders ≡ lookup n w.holders)
      × (expired r (expire_node r w node h) n k ≡ expired r w n k)
unfolding expire_node
expire_node-other r w node n h k ne = elim (Option-cases (expired r w node h)) [
  | inl e ↦ rw (e, expire_node) (refl, refl)
  | inr (o, e) ↦
      rw (e, expire_node)
        (
          unfold free_node in rw (lookup-without node n w.holders, ne) refl,
          freed-expired r w node n o k ne,
        )
]

-- The decision on a node, once made, leaves its holder or takes it.
abbrev decided : ExpiryRules → WalkState → Str → Option Holder → Option Holder
decided r w n none = lookup n w.holders
decided r w n (some h) = survivor (expired r w n h) (lookup n w.holders)

decided-other :
    (r : ExpiryRules) (w : WalkState) (node n : Str) (h : Holder) (held : Option Holder)
    → str_eq node n ≡ false
    → decided r (expire_node r w node h) n held ≡ decided r w n held
decided-other r w node n h none ne = (expire_node-other r w node n h h ne).0
decided-other r w node n h (some k) ne =
    let (kept, same) = expire_node-other r w node n h k ne in cc (kept, same)

expire_nodes-holders :
    (r : ExpiryRules) (w : WalkState) (es : Assoc Holder) (n : Str)
    → DistinctKeys es
    → lookup n (expire_nodes r w es).holders ≡ decided r w n (lookup n es)
unfolding expire_nodes
expire_nodes-holders r w [] n d = unfold lookup in refl
expire_nodes-holders r w ((node, h) ∷ es) n d =
    let ih = expire_nodes-holders r (expire_node r w node h) es n d.1 in
    elim (Bool-cases (str_eq node n)) [
      | inl same ↦
          let is : node ≡ n = (str_eq_iff node n).0 same in
          let gone : lookup n es ≡ none = rw is at d.0 in
          let self = expire_node_self r w node h in
          rw (lookup-cons, same)
            (ih
              ∙ ap (decided r (expire_node r w node h) n) gone
              ∙ subst
                  (λ m.
                    lookup m (expire_node r w node h).holders
                    ≡ survivor (expired r w m h) (lookup m w.holders))
                  is self)
      | inr other ↦ rw (lookup-cons, other) (ih ∙ decided-other r w node n h (lookup n es) other)
    ]

pub apply_expiry-survivor :
    (r : ExpiryRules) (w : WalkState) (n : Str) (h : Holder)
    → DistinctKeys w.holders
    → lookup n w.holders ≡ some h
    → lookup n (apply_expiry r w).holders
      ≡ (if eqb_ℤ r.now_ms (pos 0) then some h else survivor (expired r w n h) (some h))
unfolding apply_expiry
apply_expiry-survivor r w n h d held = elim (Bool-cases (eqb_ℤ r.now_ms (pos 0))) [
  | inl off ↦ rw off held
  | inr on ↦ rw on (
      expire_nodes-holders r w w.holders n d
      ∙ ap (decided r w n) held
      ∙ ap (survivor (expired r w n h)) held)
]
