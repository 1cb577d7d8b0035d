-- ===== src/Metatask/Pools/Agree.antt =====
-- The holder of a node in the main view and in the guard view.
use metaso_p2p.Prelude.{
  ◌≡◌, refl, sym, ap, subst, ◌∙◌, arith, inl, inr, Bool, true, false, ◌||◌, Option, none, some,
  List, [], ◌∷◌, ◌++◌, if◌then◌else◌, Bool-cases, Option-cases, All,
}
use metaso_p2p.Prelude.Text.{Str, codes, str_eq, str_eq_iff, str_eq_refl, is_empty}
use metaso_p2p.Prelude.Assoc.{Assoc, lookup, insert, lookup-insert, lookup-without}
use metaso_p2p.Prelude.Int.{pos, ltb_ℤ}
use metaso_p2p.Prelude.Sort.{place, sort_stable}
use metaso_p2p.Prelude.Sort.Laws.{IsSorted, sort_stable-IsSorted}
use metaso_p2p.Metatask.Event.Order.{ord_less_asym, ord_less_trans, ord_less_cotrans}
use metaso_p2p.Metatask.Pools.{
  Pin, order_key, order_less, pin_timestamp, read, HolderRecord, keep_pins, Pools, in_task,
  is_claim, walk_claim, walk_claims_from, walk_claims, claims_timeline,
}
use metaso_p2p.Metatask.Pools.Guard.{of_node, guard_timeline, guard_walk}

-- A holder as the main view has it.
abbrev pub main_view : Option HolderRecord → Option HolderRecord
main_view none = none
main_view (some h) =
    some (record { pin = h.pin; claimant = h.claimant; t0 = h.t0; inflight = false })

on_node : Str → Pin → Bool
on_node node p = str_eq (read p (codes "node")) node

-- What a pin of the node leaves of its holder, in the main view.
held_after : Option HolderRecord → Pin → Option HolderRecord
held_after none p =
    if is_claim p.path
    then some
        (record { pin = p.id; claimant = p.global_meta_id; t0 = pin_timestamp p; inflight = false })
    else none
held_after (some h) p =
    if is_claim p.path
    then some h
    else if str_eq h.pin (read p (codes "claimid"))
    then none
    else some h

walk_claim_self :
    (holders : Assoc HolderRecord) (p : Pin)
    → is_empty (read p (codes "node")) ≡ false
    → lookup (read p (codes "node")) (walk_claim holders p)
      ≡ held_after (lookup (read p (codes "node")) holders) p
unfolding walk_claim held_after
walk_claim_self holders p ne = elim (Option-cases (lookup (read p (codes "node")) holders)) [
  | inl e ↦ elim (Bool-cases (is_claim p.path)) [
    | inl c ↦
        rw (walk_claim, held_after, ne, e, c)
          (lookup-insert (read p (codes "node")) (read p (codes "node")) _ holders
            ∙ rw (str_eq_refl (read p (codes "node"))) refl)
    | inr r ↦ rw (walk_claim, held_after, ne, e, r) e
  ]
  | inr (h, e) ↦ elim (Bool-cases (is_claim p.path)) [
    | inl c ↦ rw (walk_claim, held_after, ne, e, c) e
    | inr r ↦ elim (Bool-cases (str_eq h.pin (read p (codes "claimid")))) [
      | inl f ↦
          rw (walk_claim, held_after, ne, e, r, f)
            (lookup-without (read p (codes "node")) (read p (codes "node")) holders
              ∙ rw (str_eq_refl (read p (codes "node"))) refl)
      | inr f ↦ rw (walk_claim, held_after, ne, e, r, f) e
    ]
  ]
]

walk_claim-other :
    (node : Str) (holders : Assoc HolderRecord) (p : Pin)
    → str_eq (read p (codes "node")) node ≡ false
    → lookup node (walk_claim holders p) ≡ lookup node holders
unfolding walk_claim
walk_claim-other node holders p ne =
    let new : HolderRecord = record {
      pin = p.id;
      claimant = p.global_meta_id;
      t0 = pin_timestamp p;
      inflight = false;
    } in
    ground (arith, inserted new, lookup-without (read p (codes "node")) node holders, ne)
  where
    inserted :
        (h : HolderRecord)
        → lookup node (insert (read p (codes "node")) h holders) ≡ lookup node holders
    inserted h = lookup-insert (read p (codes "node")) node h holders ∙ rw ne refl

-- One step of the guard view.
guard_after :
    (held : Option HolderRecord) (unconfirmed : Bool) (p : Pin) (timeline : List Pin)
    → (next : Option HolderRecord) × (later : Bool) × (guard_walk held unconfirmed (p ∷ timeline)
        ≡ guard_walk next later timeline)
      × (main_view next ≡ held_after (main_view held) p)
unfolding guard_walk held_after
guard_after none u p timeline = elim (Bool-cases (is_claim p.path)) [
  | inl c ↦
      let unconfirmed = ltb_ℤ p.genesis_height (pos 0) in
      let taken : HolderRecord = record {
        pin = p.id;
        claimant = p.global_meta_id;
        t0 = pin_timestamp p;
        inflight = unconfirmed;
      } in
      (some taken, u || unconfirmed, rw (guard_walk, c) refl, rw (held_after, c) refl)
  | inr r ↦ (none, u, rw (guard_walk, r) refl, rw (held_after, r) refl)
]
guard_after (some h) u p timeline = elim (Bool-cases (is_claim p.path)) [
  | inl c ↦ (some h, u, rw (guard_walk, c) refl, rw (held_after, c) refl)
  | inr r ↦ elim (Bool-cases (str_eq h.pin (read p (codes "claimid")))) [
    | inl f ↦ (none, u, rw (guard_walk, r, f) refl, rw (held_after, r, f) refl)
    | inr f ↦ (some h, u, rw (guard_walk, r, f) refl, rw (held_after, r, f) refl)
  ]
]

walk_claims_from-guard :
    (node : Str) (holders : Assoc HolderRecord) (held : Option HolderRecord) (unconfirmed : Bool)
    (timeline : List Pin)
    → is_empty node ≡ false
    → lookup node holders ≡ main_view held
    → lookup node (walk_claims_from holders timeline)
      ≡ main_view (guard_walk held unconfirmed (keep_pins (on_node node) timeline)).0
unfolding walk_claims_from guard_walk keep_pins on_node
walk_claims_from-guard node holders held u [] ne e = e
walk_claims_from-guard node holders held u (p ∷ timeline) ne e =
    elim (Bool-cases (str_eq (read p (codes "node")) node)) [
      | inr other ↦
          rw (on_node, other)
            (walk_claims_from-guard node (walk_claim holders p) held u timeline ne
              (walk_claim-other node holders p other ∙ e))
      | inl same ↦
          let is : read p (codes "node") ≡ node =
            (str_eq_iff (read p (codes "node")) node).0 same in
          let stepped =
            subst
              (λ n.
                is_empty n ≡ false
                → lookup n (walk_claim holders p) ≡ held_after (lookup n holders) p)
              is (walk_claim_self holders p) ne in
          let (next, later, walk, view) =
            guard_after held u p (keep_pins (on_node node) timeline) in
          let ih =
            walk_claims_from-guard node (walk_claim holders p) next later timeline ne
              (stepped ∙ ap (λ o. held_after o p) e ∙ sym view) in
          rw (on_node, same) (ih ∙ ap (λ r. main_view r.0) (sym walk))
    ]

order_less_asym : (a b : Pin) → order_less a b ≡ true → order_less b a ≡ false
unfolding order_less
order_less_asym a b = ord_less_asym (order_key a) (order_key b)

order_less_trans :
    (a b c : Pin) → order_less a b ≡ true → order_less b c ≡ true → order_less a c ≡ true
unfolding order_less
order_less_trans a b c = ord_less_trans (order_key a) (order_key b) (order_key c)

order_less_cotrans :
    (a b c : Pin) → order_less b a ≡ false → order_less c b ≡ false → order_less c a ≡ false
unfolding order_less
order_less_cotrans a b c = ord_less_cotrans (order_key a) (order_key b) (order_key c)

place-front :
    (p : Pin) (ps : List Pin)
    → All (λ z. order_less z p ≡ false) ps
    → place order_less p ps ≡ p ∷ ps
unfolding place
place-front p [] h = refl
place-front p (q ∷ ps) h = rw h.0 refl

behind_first :
    (p q : Pin) (ps : List Pin)
    → order_less q p ≡ false
    → All (λ z. order_less z q ≡ false) ps
    → All (λ z. order_less z p ≡ false) ps
behind_first p q [] h hs = tt
behind_first p q (z ∷ ps) h hs = (order_less_cotrans p q z h hs.0, behind_first p q ps h hs.1)

module _ (keep : Pin → Bool) where
  keep_pins-All : (P : Pin → Type 0) (ps : List Pin) → All P ps → All P (keep_pins keep ps)
  unfolding keep_pins
  keep_pins-All P [] h = tt
  keep_pins-All P (p ∷ ps) h = elim (Bool-cases (keep p)) [
    | inl k ↦ rw (keep_pins, k) (h.0, keep_pins-All P ps h.1)
    | inr k ↦ rw (keep_pins, k) (keep_pins-All P ps h.1)
  ]

  place-keep_pins :
      (p : Pin) (ps : List Pin)
      → IsSorted order_less ps
      → keep_pins keep (place order_less p ps)
        ≡ (if keep p then place order_less p (keep_pins keep ps) else keep_pins keep ps)
  unfolding place keep_pins
  place-keep_pins p [] h = refl
  place-keep_pins p (q ∷ qs) h = elim (Bool-cases (order_less q p)) [
    | inl past ↦ elim (Bool-cases (keep q)) [
      | inl k ↦ elim (Bool-cases (keep p)) [
        | inl kp ↦ rw (past, kp, k, past) (ap (λ rs. q ∷ rs) (rw kp at (place-keep_pins p qs h.1)))
        | inr kp ↦ rw (past, kp, k) (ap (λ rs. q ∷ rs) (rw kp at (place-keep_pins p qs h.1)))
      ]
      | inr k ↦ rw (past, k) (place-keep_pins p qs h.1)
    ]
    | inr stop ↦ elim (Bool-cases (keep p)) [
      | inl kp ↦
          let behind =
            keep_pins-All (λ z. order_less z p ≡ false) (q ∷ qs)
              (stop, behind_first p q qs stop h.0) in
          rw (stop, kp) (sym (place-front p (keep_pins keep (q ∷ qs)) behind))
      | inr kp ↦ rw (stop, kp) refl
    ]
  ]

  sort_stable-keep_pins :
      (ps : List Pin)
      → keep_pins keep (sort_stable order_less ps) ≡ sort_stable order_less (keep_pins keep ps)
  unfolding sort_stable keep_pins
  sort_stable-keep_pins [] = refl
  sort_stable-keep_pins (p ∷ ps) =
      let sorted =
        sort_stable-IsSorted order_less order_less_asym order_less_trans order_less_cotrans ps in
      place-keep_pins p (sort_stable order_less ps) sorted ∙ elim (Bool-cases (keep p)) [
        | inl k ↦ rw k (ap (place order_less p) (sort_stable-keep_pins ps))
        | inr k ↦ rw k (sort_stable-keep_pins ps)
      ]

  keep_pins-append :
      (ps qs : List Pin) → keep_pins keep (ps ++ qs) ≡ keep_pins keep ps ++ keep_pins keep qs
  unfolding keep_pins
  keep_pins-append [] qs = refl
  keep_pins-append (p ∷ ps) qs = elim (Bool-cases (keep p)) [
    | inl e ↦ rw (keep_pins, e) (ap (λ rs. p ∷ rs) (keep_pins-append ps qs))
    | inr e ↦ rw (keep_pins, e) (keep_pins-append ps qs)
  ]

keep_pins-twice :
    (root node : Str) (ps : List Pin)
    → keep_pins (on_node node) (keep_pins (in_task root) ps) ≡ keep_pins (of_node root node) ps
unfolding keep_pins of_node on_node
keep_pins-twice root node [] = refl
keep_pins-twice root node (p ∷ ps) = elim (Bool-cases (in_task root p)) [
  | inl e ↦ elim (Bool-cases (str_eq (read p (codes "node")) node)) [
    | inl f ↦ rw (keep_pins, e, f) (ap (λ rs. p ∷ rs) (keep_pins-twice root node ps))
    | inr f ↦ rw (keep_pins, e, f) (keep_pins-twice root node ps)
  ]
  | inr e ↦ rw (keep_pins, e) (keep_pins-twice root node ps)
]

claims_timeline-guard :
    (s : Pools) (node : Str) → keep_pins (on_node node) (claims_timeline s) ≡ guard_timeline s node
unfolding claims_timeline guard_timeline
claims_timeline-guard s node =
    sort_stable-keep_pins (on_node node) _
    ∙ ap (sort_stable order_less) (
        keep_pins-append (on_node node) (keep_pins (in_task s.root) s.claims)
          (keep_pins (in_task s.root) s.releases)
        ∙ ap (λ rs. rs ++ keep_pins (on_node node) (keep_pins (in_task s.root) s.releases))
            (keep_pins-twice s.root node s.claims)
        ∙ ap (λ rs. keep_pins (of_node s.root node) s.claims ++ rs)
            (keep_pins-twice s.root node s.releases))

-- The guard view of a node, which walks the claims and the releases of that node alone, finds the
-- holder that the main view finds for it in the timeline of the whole task. The node is named.
pub walk_claims-guard :
    (s : Pools) (node : Str)
    → is_empty node ≡ false
    → lookup node (walk_claims s) ≡ main_view (guard_walk none false (guard_timeline s node)).0
unfolding walk_claims lookup
walk_claims-guard s node named =
    walk_claims_from-guard node [] none false (claims_timeline s) named refl
    ∙ ap (λ t. main_view (guard_walk none false t).0) (claims_timeline-guard s node)
