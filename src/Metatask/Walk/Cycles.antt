-- ===== src/Metatask/Walk/Cycles.antt =====
-- How the steps change the cycles: what a look-up by node and claim finds after each change.
use mathlib.Core.List.{Memᴰ}
use metaso_p2p.Prelude.{
  ℕ, ◌≡◌, refl, arith, inl, inr, none, some, [], ◌∷◌, ◌++◌, length, get_elem?, modify, ℕ_discrete,
  get_elem?-modify_self, get_elem?-modify_ne, get_elem?-append_left, get_elem?-append_cases,
  Option-cases, Bool-cases, ◌⊎◌,
}
use metaso_p2p.Prelude.Text.{Str, str_eq, str_eq_iff}
use metaso_p2p.Prelude.Assoc.{lookup, insert, lookup-insert}
use metaso_p2p.Metatask.Walk.State.{Cycle, CycleSubmission, WalkState}
use metaso_p2p.Metatask.Walk.Submissions.{cycle_key, fresh_cycle, get_cycle, ensure_cycle}

-- What a cycle that has grown keeps: its submissions.
abbrev pub Grows : Cycle → Cycle → Type 0
Grows c d = (s : CycleSubmission) → Memᴰ s c.submissions → Memᴰ s d.submissions

-- Every cycle that a node and claim lead to is still led to, and has at most grown.
abbrev pub Extends : WalkState → WalkState → Type 0
Extends w v =
    (node claim_id : Str) (i : ℕ) (c : Cycle)
    → get_cycle w node claim_id ≡ some (i, c)
    → (d : Cycle) × (get_cycle v node claim_id ≡ some (i, d)) × Grows c d

pub get_cycle-elem :
    (w : WalkState) (node claim_id : Str) (i : ℕ) (c : Cycle)
    → get_cycle w node claim_id ≡ some (i, c)
    → (lookup (cycle_key node claim_id) w.cycle_by_node_claim ≡ some i)
      × (get_elem? w.cycles i ≡ some c)
unfolding get_cycle
get_cycle-elem w node claim_id i c h = ground arith

pub elem-get_cycle :
    (w : WalkState) (node claim_id : Str) (i : ℕ) (c : Cycle)
    → lookup (cycle_key node claim_id) w.cycle_by_node_claim ≡ some i
    → get_elem? w.cycles i ≡ some c
    → get_cycle w node claim_id ≡ some (i, c)
unfolding get_cycle
elem-get_cycle w node claim_id i c h k = ground arith

pub get_cycle-same :
    (w v : WalkState) (node claim_id : Str) (i : ℕ) (c : Cycle)
    → v.cycles ≡ w.cycles
    → v.cycle_by_node_claim ≡ w.cycle_by_node_claim
    → get_cycle w node claim_id ≡ some (i, c)
    → get_cycle v node claim_id ≡ some (i, c)
get_cycle-same w v node claim_id i c p q h =
    let (found, at) = get_cycle-elem w node claim_id i c h in
    elem-get_cycle v node claim_id i c (rw q found) (rw p at)

-- A step that leaves the cycles alone.
pub Extends-same :
    (w v : WalkState)
    → v.cycles ≡ w.cycles
    → v.cycle_by_node_claim ≡ w.cycle_by_node_claim
    → Extends w v
Extends-same w v p q node claim_id i c h = (c, get_cycle-same w v node claim_id i c p q h, λ s m. m)

pub Extends-trans : (u v w : WalkState) → Extends u v → Extends v w → Extends u w
Extends-trans u v w f g node claim_id i c h =
    let (d, at, grown) = f node claim_id i c h in
    let (e, at', grown') = g node claim_id i d at in (e, at', λ s m. grown' s (grown s m))

-- A change of the cycle at one index.
pub Extends-modify :
    (w v : WalkState) (f : Cycle → Cycle) (i : ℕ)
    → ((c : Cycle) → Grows c (f c))
    → v.cycles ≡ modify f w.cycles i
    → v.cycle_by_node_claim ≡ w.cycle_by_node_claim
    → Extends w v
Extends-modify w v f i grows p q node claim_id j c h =
    let (found, at) = get_cycle-elem w node claim_id j c h in
    elim (ℕ_discrete i j) [
      | yes e ↦ (
        f c,
        elem-get_cycle v node claim_id j (f c) (rw q found)
            (rw (p, ← e) (get_elem?-modify_self f w.cycles i c (rw e at))),
        grows c,
      )
      | no ne ↦ (
        c,
        elem-get_cycle v node claim_id j c (rw q found)
            (rw (p, get_elem?-modify_ne f w.cycles i j ne) at),
        λ s m. m,
      )
    ]

-- The look-up reads the node and the claim through their key.
get_cycle_key :
    (w : WalkState) (node claim_id n k : Str)
    → cycle_key node claim_id ≡ cycle_key n k
    → get_cycle w node claim_id ≡ get_cycle w n k
unfolding get_cycle
get_cycle_key w node claim_id n k e = ground (arith, e)

pub ensure_cycle-some :
    (w : WalkState) (node claim_id claimant : Str) (found : ℕ × Cycle)
    → get_cycle w node claim_id ≡ some found
    → ensure_cycle w node claim_id claimant ≡ w
unfolding ensure_cycle
ensure_cycle-some w node claim_id claimant found e = rw (e, ensure_cycle)

abbrev pub with_cycle : WalkState → Str → Str → Str → WalkState
with_cycle w node claim_id claimant = record w {
  cycles = w.cycles ++ fresh_cycle node claim_id claimant ∷ [];
  cycle_by_node_claim = insert (cycle_key node claim_id) (length w.cycles) w.cycle_by_node_claim;
}

pub ensure_cycle-none :
    (w : WalkState) (node claim_id claimant : Str)
    → get_cycle w node claim_id ≡ none
    → ensure_cycle w node claim_id claimant ≡ with_cycle w node claim_id claimant
unfolding ensure_cycle
ensure_cycle-none w node claim_id claimant e = rw (e, ensure_cycle)

Extends-with_cycle :
    (w : WalkState) (node claim_id claimant : Str)
    → get_cycle w node claim_id ≡ none
    → Extends w (with_cycle w node claim_id claimant)
Extends-with_cycle w node claim_id claimant e n k i c h =
    elim (Bool-cases (str_eq (cycle_key node claim_id) (cycle_key n k))) [
      | inl same ↦ cc (h, e, get_cycle_key w node claim_id n k ((str_eq_iff _ _).0 same))
      | inr other ↦
          let (found, at) = get_cycle-elem w n k i c h in
          (
            c,
            elem-get_cycle (with_cycle w node claim_id claimant) n k i c
                (rw (lookup-insert, other) found) (get_elem?-append_left w.cycles _ i c at),
            λ s m. m,
          )
    ]

-- A new cycle is made only where there is none, so it hides no other.
pub Extends-ensure :
    (w : WalkState) (node claim_id claimant : Str)
    → Extends w (ensure_cycle w node claim_id claimant)
Extends-ensure w node claim_id claimant = elim (Option-cases (get_cycle w node claim_id)) [
  | inl e ↦
      rw (ensure_cycle-none w node claim_id claimant e)
        (Extends-with_cycle w node claim_id claimant e)
  | inr (found, e) ↦
      rw (ensure_cycle-some w node claim_id claimant found e) (Extends-same w w refl refl)
]

-- What is in the list of cycles after `ensure_cycle`.
pub ensure_cycle-elem :
    (w : WalkState) (node claim_id claimant : Str) (i : ℕ) (c : Cycle)
    → get_elem? (ensure_cycle w node claim_id claimant).cycles i ≡ some c
    → (get_elem? w.cycles i ≡ some c) ⊎ (c ≡ fresh_cycle node claim_id claimant)
ensure_cycle-elem w node claim_id claimant i c h = elim (Option-cases (get_cycle w node claim_id)) [
  | inl e ↦
      get_elem?-append_cases w.cycles (fresh_cycle node claim_id claimant) i c
        (rw (ensure_cycle-none w node claim_id claimant e) at h)
  | inr (found, e) ↦ inl (rw (ensure_cycle-some w node claim_id claimant found e) at h)
]
