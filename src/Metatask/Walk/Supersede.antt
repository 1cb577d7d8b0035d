-- ===== src/Metatask/Walk/Supersede.antt =====
-- When a submission supersedes the effective one of its cycle (internal/metatask/v121.go).
pub mod Steps
use mathlib.Core.List.{Memᴰ}
use metaso_p2p.Prelude.{
  ℕ, ◌≡◌, ◌≢◌, ◌⊎◌, refl, sym, ap, ◌∙◌, arith, inl, inr, Bool, true, false, Option, none, some,
  List, [], ◌∷◌, ◌++◌, ◌||◌, ◌&&◌, not, length, get_elem?, modify, ℕ_discrete,
  get_elem?-modify_self, get_elem?-modify_ne, get_elem?-append_left, Option-cases, Bool-cases,
  if_either, option_either,
}
use metaso_p2p.Prelude.Int.{◌≤ℤ◌}
use metaso_p2p.Prelude.Text.{Str, str_eq, str_eq_iff, str_eq_refl, is_empty}
use metaso_p2p.Prelude.Assoc.{lookup, insert, lookup-insert, flag, flag-insert}
use metaso_p2p.Metatask.Event.{ChainEvent}
use metaso_p2p.Metatask.Walk.State.{
  Cycle, CycleSubmission, Holder, WalkState, WalkContext, ghost, node_field, claim_field,
  ignore_event,
}
use metaso_p2p.Metatask.Walk.Submissions.{
  cycle_key, get_cycle, find_submission, ensure_cycle, make_effective, mark_superseded, chain_ok,
  attach_submission, submission_of, submission_step,
}
use metaso_p2p.Metatask.Walk.Cycles.{get_cycle-elem, ensure_cycle-some, ensure_cycle-none}

-- The submission of an event supersedes `e`, the effective one of the cycle `c`: it names a
-- submission of the cycle, not itself and not superseded before, that has the pin of `e`; the
-- author is the same, and both are at the height of the second act at least.
pub record Supersedes (ctx : WalkContext) (c : Cycle) (e r : CycleSubmission) : Type 0 where
  pub target : CycleSubmission
  pub member : Memᴰ target c.submissions
  pub named : target.pin_id ≡ r.supersede_id
  pub is_effective : target.pin_id ≡ e.pin_id
  pub other : target.pin_id ≢ r.pin_id
  pub author : target.author ≡ r.author
  pub late : ctx.h_act2 ≤ℤ r.height
  pub target_late : ctx.h_act2 ≤ℤ target.height
  pub first : flag r.supersede_id c.superseded ≡ false

-- The event is a submission on the live cycle, by node and claim, of a holder.
pub record OnLive (w : WalkState) (pin : ChainEvent) (i : ℕ) (c : Cycle) : Type 0 where
  pub holder : Holder
  pub held : lookup (node_field pin) w.holders ≡ some holder
  pub own_claim : holder.pin_id ≡ claim_field pin
  pub live : get_cycle w (node_field pin) (claim_field pin) ≡ some (i, c)

-- The cycle is the one before with the submission added, effective and in place of the one named,
-- the outcome kept.
pub record IsMoved (c : Cycle) (r : CycleSubmission) (d : Cycle) : Type 0 where
  pub effective : d.effective ≡ some r
  pub submissions : d.submissions ≡ c.submissions ++ r ∷ []
  pub superseded : flag r.supersede_id d.superseded ≡ true
  pub outcome : d.outcome ≡ c.outcome

find_submission-some :
    (pin : Str) (ss : List CycleSubmission) (s : CycleSubmission)
    → find_submission pin ss ≡ some s
    → Memᴰ s ss × (s.pin_id ≡ pin)
unfolding find_submission
find_submission-some pin [] s h = cc h
find_submission-some pin (t ∷ ss) s h = elim (Bool-cases (str_eq t.pin_id pin)) [
  | inl e ↦
      let is : t ≡ s = cc (rw (find_submission, e) at h) in
      (Memᴰ.head (sym is), ap (λ s. s.pin_id) (sym is) ∙ (str_eq_iff t.pin_id pin).0 e)
  | inr e ↦
      let (m, n) = find_submission-some pin ss s (rw (find_submission, e) at h) in (Memᴰ.tail m, n)
]

chain_ok-Supersedes :
    (ctx : WalkContext) (c : Cycle) (e r : CycleSubmission)
    → chain_ok ctx c e r ≡ true
    → Supersedes ctx c e r
unfolding chain_ok
chain_ok-Supersedes ctx c e r h =
    elim (Option-cases (find_submission r.supersede_id c.submissions)) [
      | inl f ↦ cc (rw (chain_ok, f) at h)
      | inr (t, f) ↦
          let (m, n) = find_submission-some r.supersede_id c.submissions t f in
          let ok = rw (chain_ok, f) at h in
          record {
            target = t;
            member = m;
            named = n;
            is_effective = ground (arith, ok, str_eq_iff t.pin_id e.pin_id);
            other = ground (arith, ok, str_eq_iff t.pin_id r.pin_id);
            author = ground (arith, ok, str_eq_iff t.author r.author);
            late = ground (arith, ok);
            target_late = ground (arith, ok);
            first = ground (arith, ok);
          }
    ]

-- Attaching a submission to the cycle `j` leaves the cycle `i` as it is, or they are one cycle and
-- the submission supersedes its effective one.
unfoldable pub Attached :
    WalkContext → ℕ → ℕ → Cycle → CycleSubmission → CycleSubmission → WalkState → Type 0
Attached ctx i j c e r v =
    (get_elem? v.cycles i ≡ some c)
    ⊎ ((d : Cycle) × (get_elem? v.cycles i ≡ some d)
        × (j ≡ i)
        × Supersedes ctx c e r
        × IsMoved c r d)

moved-Attached :
    (ctx : WalkContext) (v : WalkState) (node : Str) (i : ℕ) (c : Cycle) (e r : CycleSubmission)
    → get_elem? v.cycles i ≡ some c
    → chain_ok ctx c e r ≡ true
    → Attached ctx i i c e r (make_effective v node i r (mark_superseded r.supersede_id))
unfolding make_effective mark_superseded Attached
moved-Attached ctx v node i c e r at ok = inr (
  _,
  get_elem?-modify_self _ v.cycles i c at,
  refl,
  chain_ok-Supersedes ctx c e r ok,
  record {
    effective = refl;
    submissions = refl;
    superseded =
        flag-insert r.supersede_id r.supersede_id c.superseded
        ∙ rw (str_eq_refl r.supersede_id) refl;
    outcome = refl;
  },
)

attach-same :
    (ctx : WalkContext) (v : WalkState) (node : Str) (i : ℕ) (c : Cycle) (e r : CycleSubmission)
    → get_elem? v.cycles i ≡ some c
    → c.effective ≡ some e
    → Attached ctx i i c e r (attach_submission ctx v node (i, c) r)
unfolding attach_submission make_effective mark_superseded ignore_event
attach-same ctx v node i c e r at is =
    let Out : WalkState → Type 0 = Attached ctx i i c e r in
    option_either Out c.effective _ _ (λ n. cc (n, is))
      (λ f h.
        let same : f ≡ e = cc (h, is) in
        if_either Out (is_empty r.supersede_id) _ _ (λ _. unfold Attached in inl at)
          (λ _.
            if_either Out (chain_ok ctx c f r) _ _
              (λ ok. moved-Attached ctx v node i c e r at (rw same at ok))
              (λ _. unfold Attached in inl at)))

attach-other :
    (ctx : WalkContext) (v : WalkState) (node : Str) (i j : ℕ) (c b : Cycle) (r : CycleSubmission)
    → get_elem? v.cycles i ≡ some c
    → j ≢ i
    → get_elem? (attach_submission ctx v node (j, b) r).cycles i ≡ some c
unfolding attach_submission make_effective ignore_event
attach-other ctx v node i j c b r at ne =
    let Stays : WalkState → Type 0 = λ v. get_elem? v.cycles i ≡ some c in
    option_either Stays b.effective _ _ (λ _. get_elem?-modify_ne _ v.cycles j i ne ∙ at)
      (λ e _.
        if_either Stays (is_empty r.supersede_id) _ _ (λ _. at)
          (λ _.
            if_either Stays (chain_ok ctx b e r) _ _
              (λ _. get_elem?-modify_ne _ v.cycles j i ne ∙ at) (λ _. at)))

pub attach-Attached :
    (ctx : WalkContext) (v : WalkState) (node : Str) (i j : ℕ) (c b : Cycle) (e r : CycleSubmission)
    → get_elem? v.cycles i ≡ some c
    → c.effective ≡ some e
    → get_elem? v.cycles j ≡ some b
    → Attached ctx i j c e r (attach_submission ctx v node (j, b) r)
unfolding Attached
attach-Attached ctx v node i j c b e r at is at_j = elim (ℕ_discrete j i) [
  | no ne ↦ inl (attach-other ctx v node i j c b r at ne)
  | yes same ↦
      let one : b ≡ c = cc (at, at_j, same) in rw (same, one) (attach-same ctx v node i c e r at is)
]
