-- ===== src/Agentpedia/Editors/Target/Visits.antt =====
-- The target of an endorsement and the order in which the registrations are visited
-- (internal/agentpedia/replay.go).
use mathlib.Core.List.{Permᴰ}
use metaso_p2p.Prelude.{
  ◌≡◌, ◌≢◌, refl, sym, ap, subst, ◌∙◌, arith, ◌⊎◌, inl, inr, Bool, true, false, ◌&&◌, Option, none,
  some, List, [], ◌∷◌, All, Bool-cases, if◌then◌else◌,
}
use metaso_p2p.Prelude.Text.{
  Str, str_eq, str_eq_iff, is_empty, str_ltb_irrefl, str_ltb_trans, str_ltb_total,
}
use metaso_p2p.Prelude.Sort.Laws.{All-perm}
use metaso_p2p.Agentpedia.State.{RegChallenge}
use metaso_p2p.Agentpedia.Editors.Target.{
  is_register, declared_target, earlier, better, best_target, endorse_target,
}

earlier-asym : (a b : RegChallenge) → earlier a b ≡ true → earlier b a ≡ false
unfolding earlier
earlier-asym a b h = ground (
  arith,
  str_ltb_irrefl a.register_pin,
  str_ltb_trans a.register_pin b.register_pin a.register_pin,
)

earlier_trans :
    (a b c : RegChallenge) → earlier a b ≡ true → earlier b c ≡ true → earlier a c ≡ true
unfolding earlier
earlier_trans a b c p q = ground (arith, str_ltb_trans a.register_pin b.register_pin c.register_pin)

earlier_total :
    (a b : RegChallenge)
    → earlier a b ≡ false
    → earlier b a ≡ false
    → a.register_pin ≡ b.register_pin
unfolding earlier
earlier_total a b p q =
    str_ltb_total a.register_pin b.register_pin (ground (arith, p, q)) (ground (arith, p, q))

-- Two satisfied registrations of the applicant were made by different pins.
abbrev pub OtherPin : Str → Str × RegChallenge → Str × RegChallenge → Type 0
OtherPin applicant x y =
    is_register applicant x.1 ≡ true
    → is_register applicant y.1 ≡ true
    → x.1.register_pin ≢ y.1.register_pin

-- Any two satisfied registrations of the applicant were.
abbrev pub OtherPins : Str → List (Str × RegChallenge) → Type 0
OtherPins applicant [] = Unit
OtherPins applicant (x ∷ xs) = All (OtherPin applicant x) xs × OtherPins applicant xs

module _ (applicant : Str) where
  OtherPin-sym : (x y : Str × RegChallenge) → OtherPin applicant x y → OtherPin applicant y x
  OtherPin-sym x y h p q e = h q p (sym e)

  OtherPins-perm :
      {xs ys : List (Str × RegChallenge)}
      → Permᴰ xs ys
      → OtherPins applicant xs
      → OtherPins applicant ys
  OtherPins-perm Permᴰ.nil h = h
  OtherPins-perm (Permᴰ.cons {l₂ = l₂} e p) h =
      (subst (λ c. All (OtherPin applicant c) l₂) e (All-perm _ p h.0), OtherPins-perm p h.1)
  OtherPins-perm (Permᴰ.swap {a = a} {b = b} {a' = a'} {b' = b'} {l = l} e f) h =
      subst (λ u. OtherPins applicant (u ∷ b' ∷ l)) f
        (subst (λ u. OtherPins applicant (b ∷ u ∷ l)) e
          ((OtherPin-sym a b h.0.0, h.1.0), (h.0.1, h.1.1)))
  OtherPins-perm (Permᴰ.trans p q) h = OtherPins-perm q (OtherPins-perm p h)

  -- One round of the loop.
  abbrev pick : RegChallenge → Option RegChallenge → Option RegChallenge
  pick rc best = if is_register applicant rc && better rc best then some rc else best

  pick_comm_registers :
      (x y : RegChallenge) (best : Option RegChallenge)
      → is_register applicant x ≡ true
      → is_register applicant y ≡ true
      → (earlier x y ≡ true) ⊎ (earlier y x ≡ true)
      → pick y (pick x best) ≡ pick x (pick y best)
  unfolding better
  pick_comm_registers x y none p q h = ground (arith, p, q, earlier-asym x y, earlier-asym y x)
  pick_comm_registers x y (some b) p q h =
      ground
        (arith, p, q, earlier-asym x y, earlier-asym y x, earlier_trans x y b, earlier_trans y x b)

  told_apart :
      (x y : RegChallenge)
      → x.register_pin ≢ y.register_pin
      → (earlier x y ≡ true) ⊎ (earlier y x ≡ true)
  told_apart x y ne = elim (Bool-cases (earlier x y)) [
    | inl p ↦ inl p
    | inr p ↦ elim (Bool-cases (earlier y x)) [
      | inl q ↦ inr q
      | inr q ↦ absurd (ne (earlier_total x y p q))
    ]
  ]

  pick_comm :
      (x y : Str × RegChallenge) (best : Option RegChallenge)
      → OtherPin applicant x y
      → pick y.1 (pick x.1 best) ≡ pick x.1 (pick y.1 best)
  pick_comm x y best h = elim (Bool-cases (is_register applicant x.1)) [
    | inr p ↦ ground (arith, p)
    | inl p ↦ elim (Bool-cases (is_register applicant y.1)) [
      | inr q ↦ ground (arith, q)
      | inl q ↦ pick_comm_registers x.1 y.1 best p q (told_apart x.1 y.1 (h p q))
    ]
  ]

  best_target-perm :
      {xs ys : List (Str × RegChallenge)} (best : Option RegChallenge)
      → Permᴰ xs ys
      → OtherPins applicant xs
      → best_target applicant best xs ≡ best_target applicant best ys
  unfolding best_target
  best_target-perm best Permᴰ.nil h = refl
  best_target-perm best (Permᴰ.cons {a = a} {l₂ = l₂} e p) h =
      best_target-perm (pick a.1 best) p h.1
      ∙ ap (λ (c : Str × RegChallenge). best_target applicant (pick c.1 best) l₂) e
  best_target-perm best (Permᴰ.swap {a = a} {b = b} {a' = a'} {l = l} e f) h =
      ap (λ o. best_target applicant o l) (pick_comm a b best h.0.0)
      ∙ ap (λ (c : Str × RegChallenge). best_target applicant (pick a.1 (pick c.1 best)) l) f
      ∙ ap (λ (c : Str × RegChallenge). best_target applicant (pick c.1 (pick a'.1 best)) l) e
  best_target-perm best (Permᴰ.trans p q) h =
      best_target-perm best p h ∙ best_target-perm best q (OtherPins-perm p h)

  -- A satisfied registration of the applicant by the pin.
  abbrev is_declared : Str → RegChallenge → Bool
  is_declared pin rc = is_register applicant rc && str_eq rc.register_pin pin

  two_declared :
      (pin : Str) (x y : Str × RegChallenge)
      → OtherPin applicant x y
      → is_declared pin x.1 ≡ true
      → is_declared pin y.1 ≡ true
      → ⊥
  two_declared pin x y h p q = h (ground (arith, p)) (ground (arith, q)) (
      (str_eq_iff x.1.register_pin pin).0 (ground (arith, p))
      ∙ sym ((str_eq_iff y.1.register_pin pin).0 (ground (arith, q))))

  declared_swap :
      (pin : Str) (x y : Str × RegChallenge) (l : List (Str × RegChallenge))
      → OtherPin applicant x y
      → declared_target applicant pin (x ∷ y ∷ l) ≡ declared_target applicant pin (y ∷ x ∷ l)
  unfolding declared_target
  declared_swap pin x y l h = elim (Bool-cases (is_declared pin x.1)) [
    | inr p ↦ rw p refl
    | inl p ↦ elim (Bool-cases (is_declared pin y.1)) [
      | inr q ↦ rw (p, q) refl
      | inl q ↦ absurd (two_declared pin x y h p q)
    ]
  ]

  declared_target-perm :
      {xs ys : List (Str × RegChallenge)} (pin : Str)
      → Permᴰ xs ys
      → OtherPins applicant xs
      → declared_target applicant pin xs ≡ declared_target applicant pin ys
  unfolding declared_target
  declared_target-perm pin Permᴰ.nil h = refl
  declared_target-perm pin (Permᴰ.cons {a = a} {l₂ = l₂} e p) h =
      ap (λ o. if is_declared pin a.1 then some a.1 else o) (declared_target-perm pin p h.1)
      ∙ ap (λ (c : Str × RegChallenge). declared_target applicant pin (c ∷ l₂)) e
  declared_target-perm pin (Permᴰ.swap {a = a} {b = b} {a' = a'} {l = l} e f) h =
      declared_swap pin a b l h.0.0
      ∙ ap (λ (c : Str × RegChallenge). declared_target applicant pin (c ∷ a ∷ l)) f
      ∙ ap (λ (c : Str × RegChallenge). declared_target applicant pin (a' ∷ c ∷ l)) e
  declared_target-perm pin (Permᴰ.trans p q) h =
      declared_target-perm pin p h ∙ declared_target-perm pin q (OtherPins-perm p h)

  -- Where the satisfied registrations of the applicant were made by different pins, the one that
  -- an endorsement is for, the declared one or else the earliest, does not depend on the order in
  -- which the registrations are visited.
  pub endorse_target-eq_of_perm :
      {xs ys : List (Str × RegChallenge)} (declared : Str)
      → Permᴰ xs ys
      → OtherPins applicant xs
      → endorse_target applicant declared xs ≡ endorse_target applicant declared ys
  unfolding endorse_target
  endorse_target-eq_of_perm {xs} {ys} declared p h =
      let either : Option RegChallenge → Option RegChallenge → Option RegChallenge =
        λ d b. elim (if is_empty declared then none else d) [ some rc ↦ some rc | none ↦ b ] in
      ap (λ d. either d (best_target applicant none xs)) (declared_target-perm declared p h)
      ∙ ap (λ b. either (declared_target applicant declared ys) b) (best_target-perm none p h)
