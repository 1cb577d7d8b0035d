-- ===== src/Prelude/Sort/Laws.antt =====
-- What a stable sort by a strict order gives: the elements of the list, in order, in a list that
-- does not depend on the order of arrival where any two elements are told apart.
use mathlib.Core.Path.{◌≡◌, refl, sym, ap, subst, ◌∙◌}
use mathlib.Core.Logic.{◌⊎◌, inl, inr}
use mathlib.Core.Bool.{Bool, true, false}
use mathlib.Core.List.{List, [], ◌∷◌, Permᴰ}
use native.Mathlib.Omega.{arith}
use metaso_p2p.Prelude.Tests.{Bool-cases}
use metaso_p2p.Prelude.Lists.{All}
use metaso_p2p.Prelude.Sort.{place, sort_stable}

module _ {ℓ} {A : Type ℓ} where
  perm_refl : (xs : List A) → Permᴰ xs xs
  perm_refl [] = Permᴰ.nil
  perm_refl (x ∷ xs) = Permᴰ.cons refl (perm_refl xs)

  pub All-perm {κ} : (P : A → Type κ) {xs ys : List A} → Permᴰ xs ys → All P xs → All P ys
  All-perm P Permᴰ.nil h = h
  All-perm P (Permᴰ.cons e p) h = (subst P e h.0, All-perm P p h.1)
  All-perm P (Permᴰ.swap e f) h = (subst P f h.1.0, (subst P e h.0, h.1.1))
  All-perm P (Permᴰ.trans p q) h = All-perm P q (All-perm P p h)

module _ {ℓ} {A : Type ℓ} (less : A → A → Bool) where
  place-perm : (x : A) (xs : List A) → Permᴰ (place less x xs) (x ∷ xs)
  unfolding place
  place-perm x [] = perm_refl _
  place-perm x (y ∷ ys) = elim (Bool-cases (less y x)) [
    | inl past ↦ rw past (Permᴰ.trans (Permᴰ.cons refl (place-perm x ys)) (Permᴰ.swap refl refl))
    | inr stop ↦ rw stop (perm_refl _)
  ]

  -- The sorted list has the elements of the list.
  pub sort_stable-perm : (xs : List A) → Permᴰ (sort_stable less xs) xs
  unfolding sort_stable
  sort_stable-perm [] = Permᴰ.nil
  sort_stable-perm (x ∷ xs) =
      Permᴰ.trans (place-perm x (sort_stable less xs)) (Permᴰ.cons refl (sort_stable-perm xs))

  -- No element is less than one before it.
  abbrev pub IsSorted : List A → Type ℓ
  IsSorted [] = Unit
  IsSorted (x ∷ xs) = All (λ y. less y x ≡ false) xs × IsSorted xs

  -- Any two elements are told apart.
  abbrev pub Apart : List A → Type ℓ
  Apart [] = Unit
  Apart (x ∷ xs) = All (λ y. (less x y ≡ true) ⊎ (less y x ≡ true)) xs × Apart xs

module _ {ℓ} {A : Type ℓ} (less : A → A → Bool)
    (asym : (a b : A) → less a b ≡ true → less b a ≡ false)
    (trans : (a b c : A) → less a b ≡ true → less b c ≡ true → less a c ≡ true)
    (cotrans : (a b c : A) → less b a ≡ false → less c b ≡ false → less c a ≡ false) where
  place-All :
      (x y : A) (ys : List A)
      → less y x ≡ false
      → All (λ z. less z x ≡ false) ys
      → All (λ z. less z x ≡ false) (place less y ys)
  unfolding place
  place-All x y [] h hs = (h, tt)
  place-All x y (z ∷ zs) h hs = elim (Bool-cases (less z y)) [
    | inl past ↦ rw past (hs.0, place-All x y zs h hs.1)
    | inr stop ↦ rw stop (h, (hs.0, hs.1))
  ]

  All-cotrans :
      (x y : A) (ys : List A)
      → less y x ≡ false
      → All (λ z. less z y ≡ false) ys
      → All (λ z. less z x ≡ false) ys
  All-cotrans x y [] h hs = tt
  All-cotrans x y (z ∷ zs) h hs = (cotrans x y z h hs.0, All-cotrans x y zs h hs.1)

  place-IsSorted : (x : A) (xs : List A) → IsSorted less xs → IsSorted less (place less x xs)
  unfolding place
  place-IsSorted x [] h = (tt, tt)
  place-IsSorted x (y ∷ ys) h = elim (Bool-cases (less y x)) [
    | inl past ↦ rw past (place-All y x ys (asym y x past) h.0, place-IsSorted x ys h.1)
    | inr stop ↦ rw stop ((stop, All-cotrans x y ys stop h.0), h)
  ]

  pub sort_stable-IsSorted : (xs : List A) → IsSorted less (sort_stable less xs)
  unfolding sort_stable
  sort_stable-IsSorted [] = tt
  sort_stable-IsSorted (x ∷ xs) = place-IsSorted x (sort_stable less xs) (sort_stable-IsSorted xs)

  place_swap_lt :
      (a b : A) (l : List A)
      → less a b ≡ true
      → place less a (place less b l) ≡ place less b (place less a l)
  unfolding place
  place_swap_lt a b [] h = rw (h, asym a b h)
  place_swap_lt a b (y ∷ ys) h =
      ground (arith, place_swap_lt a b ys h, asym a b h, trans y a b, asym b y, asym a y)

  place_swap :
      (a b : A) (l : List A)
      → (less a b ≡ true) ⊎ (less b a ≡ true)
      → place less a (place less b l) ≡ place less b (place less a l)
  place_swap a b l (inl h) = place_swap_lt a b l h
  place_swap a b l (inr h) = sym (place_swap_lt b a l h)

  Cmp-sym :
      (a : A) (l : List A)
      → All (λ y. (less a y ≡ true) ⊎ (less y a ≡ true)) l
      → All (λ y. (less y a ≡ true) ⊎ (less a y ≡ true)) l
  Cmp-sym a [] h = tt
  Cmp-sym a (y ∷ ys) h = (elim h.0 [ inl p ↦ inr p | inr q ↦ inl q ], Cmp-sym a ys h.1)

  Apart-perm : {xs ys : List A} → Permᴰ xs ys → Apart less xs → Apart less ys
  Apart-perm Permᴰ.nil h = h
  Apart-perm (Permᴰ.cons {l₂ = l₂} e p) h = (
    subst (λ c. All (λ y. (less c y ≡ true) ⊎ (less y c ≡ true)) l₂) e (All-perm _ p h.0),
    Apart-perm p h.1,
  )
  Apart-perm (Permᴰ.swap {a = a} {b = b} {a' = a'} {b' = b'} {l = l} e f) h =
      subst (λ u. Apart less (u ∷ b' ∷ l)) f
        (subst (λ u. Apart less (b ∷ u ∷ l)) e
          ((elim h.0.0 [ inl p ↦ inr p | inr q ↦ inl q ], h.1.0), (h.0.1, h.1.1)))
  Apart-perm (Permᴰ.trans p q) h = Apart-perm q (Apart-perm p h)

  -- Lists with the same elements, any two told apart, sort to one list.
  pub sort_stable-eq_of_perm :
      {xs ys : List A} → Permᴰ xs ys → Apart less xs → sort_stable less xs ≡ sort_stable less ys
  unfolding sort_stable
  sort_stable-eq_of_perm Permᴰ.nil h = refl
  sort_stable-eq_of_perm (Permᴰ.cons {a = a} {l₂ = l₂} e p) h =
      ap (place less a) (sort_stable-eq_of_perm p h.1)
      ∙ ap (λ c. place less c (sort_stable less l₂)) e
  sort_stable-eq_of_perm (Permᴰ.swap {a = a} {b = b} {a' = a'} {l = l} e f) h =
      place_swap a b (sort_stable less l) h.0.0
      ∙ ap (λ c. place less c (place less a (sort_stable less l))) f
      ∙ ap (λ c. place less a' (place less c (sort_stable less l))) e
  sort_stable-eq_of_perm (Permᴰ.trans p q) h =
      sort_stable-eq_of_perm p h ∙ sort_stable-eq_of_perm q (Apart-perm p h)
