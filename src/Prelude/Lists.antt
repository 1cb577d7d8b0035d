-- ===== src/Prelude/Lists.antt =====
-- Lists measured and indexed by native numbers, and predicates on lists, under the library's names.
use Prim.Native.Nat.{ℕ, zero, suc, ◌+◌}
use mathlib.Core.Path.{◌≡◌, refl, ap}
use mathlib.Core.Logic.{◌≢◌, ◌⊎◌, inl, inr}
use mathlib.Core.List.{List, [], ◌∷◌, ◌++◌, Memᴰ}
use mathlib.Core.Option.{Option, none, some}
use native.Mathlib.Omega.{arith}

module _ {ℓ} {A : Type ℓ} where
  abbrev pub length : List A → ℕ
  length [] = 0
  length (x ∷ xs) = suc (length xs)

  abbrev pub get_elem? : List A → ℕ → Option A
  get_elem? [] i = none
  get_elem? (x ∷ xs) zero = some x
  get_elem? (x ∷ xs) (suc i) = get_elem? xs i

  -- A write out of bounds changes nothing.
  abbrev pub modify : (A → A) → List A → ℕ → List A
  modify f [] i = []
  modify f (x ∷ xs) zero = f x ∷ xs
  modify f (x ∷ xs) (suc i) = x ∷ modify f xs i

  abbrev pub replicate : ℕ → A → List A
  replicate zero a = []
  replicate (suc n) a = a ∷ replicate n a

  -- The first elements of a list, and what follows them.
  abbrev pub take : ℕ → List A → List A
  take zero xs = []
  take (suc n) [] = []
  take (suc n) (x ∷ xs) = x ∷ take n xs

  abbrev pub drop : ℕ → List A → List A
  drop zero xs = xs
  drop (suc n) [] = []
  drop (suc n) (x ∷ xs) = drop n xs

  pub length-append : (xs ys : List A) → length (xs ++ ys) ≡ length xs + length ys
  length-append [] ys = omega arith
  length-append (x ∷ xs) ys = omega (arith, length-append xs ys)

  pub length-modify : (f : A → A) (xs : List A) (i : ℕ) → length (modify f xs i) ≡ length xs
  length-modify f [] i = refl
  length-modify f (x ∷ xs) zero = refl
  length-modify f (x ∷ xs) (suc i) = ap suc (length-modify f xs i)

module _ {ℓ κ} {A : Type ℓ} (P : A → Type κ) where
  abbrev pub All : List A → Type κ
  All [] = Unit
  All (x ∷ xs) = P x × All xs

  pub All-append : (xs ys : List A) → All xs → All ys → All (xs ++ ys)
  All-append [] ys _ hy = hy
  All-append (x ∷ xs) ys (px, hx) hy = (px, All-append xs ys hx hy)

module _ {ℓ κ μ} {A : Type ℓ} (P : A → Type κ) (Q : A → Type μ) (f : (a : A) → P a → Q a) where
  pub All-map : (xs : List A) → All P xs → All Q xs
  All-map [] h = tt
  All-map (x ∷ xs) h = (f x h.0, All-map xs h.1)

module _ {ℓ} {A : Type ℓ} where
  -- No element occurs twice.
  abbrev pub Distinct : List A → Type ℓ
  Distinct [] = Unit
  Distinct (x ∷ xs) = All (λ y. x ≢ y) xs × Distinct xs

  pub get_elem?-modify_self :
      (f : A → A) (xs : List A) (i : ℕ) (x : A)
      → get_elem? xs i ≡ some x
      → get_elem? (modify f xs i) i ≡ some (f x)
  get_elem?-modify_self f [] i x h = cc
  get_elem?-modify_self f (y ∷ ys) zero x h = cc
  get_elem?-modify_self f (y ∷ ys) (suc i) x h = get_elem?-modify_self f ys i x h

  pub get_elem?-modify_ne :
      (f : A → A) (xs : List A) (i j : ℕ) → i ≢ j → get_elem? (modify f xs i) j ≡ get_elem? xs j
  get_elem?-modify_ne f [] i j h = refl
  get_elem?-modify_ne f (y ∷ ys) zero zero h = absurd (h refl)
  get_elem?-modify_ne f (y ∷ ys) zero (suc j) h = refl
  get_elem?-modify_ne f (y ∷ ys) (suc i) zero h = refl
  get_elem?-modify_ne f (y ∷ ys) (suc i) (suc j) h =
      get_elem?-modify_ne f ys i j (λ e. h (ap suc e))

  -- An element of a changed list is an element of the list, or the changed one.
  pub get_elem?-modify_cases :
      (f : A → A) (xs : List A) (i j : ℕ) (y : A)
      → get_elem? (modify f xs i) j ≡ some y
      → (get_elem? xs j ≡ some y) ⊎ ((x : A) × (get_elem? xs i ≡ some x) × (y ≡ f x))
  get_elem?-modify_cases f [] i j y h = inl h
  get_elem?-modify_cases f (x ∷ xs) zero zero y h = inr (x, refl, cc)
  get_elem?-modify_cases f (x ∷ xs) zero (suc j) y h = inl h
  get_elem?-modify_cases f (x ∷ xs) (suc i) zero y h = inl h
  get_elem?-modify_cases f (x ∷ xs) (suc i) (suc j) y h = get_elem?-modify_cases f xs i j y h

  pub get_elem?-append_left :
      (xs ys : List A) (i : ℕ) (x : A) → get_elem? xs i ≡ some x → get_elem? (xs ++ ys) i ≡ some x
  get_elem?-append_left [] ys i x h = cc
  get_elem?-append_left (y ∷ xs) ys zero x h = h
  get_elem?-append_left (y ∷ xs) ys (suc i) x h = get_elem?-append_left xs ys i x h

  pub get_elem?-append_length :
      (xs : List A) (x : A) → get_elem? (xs ++ x ∷ []) (length xs) ≡ some x
  get_elem?-append_length [] x = refl
  get_elem?-append_length (y ∷ xs) x = get_elem?-append_length xs x

  pub get_elem?-append_cases :
      (xs : List A) (x : A) (i : ℕ) (y : A)
      → get_elem? (xs ++ x ∷ []) i ≡ some y
      → (get_elem? xs i ≡ some y) ⊎ (y ≡ x)
  get_elem?-append_cases [] x zero y h = inr cc
  get_elem?-append_cases [] x (suc i) y h = cc
  get_elem?-append_cases (z ∷ xs) x zero y h = inl h
  get_elem?-append_cases (z ∷ xs) x (suc i) y h = get_elem?-append_cases xs x i y h

module _ {ℓ} {A : Type ℓ} where
  pub Memᴰ-append_left : (x : A) (xs ys : List A) → Memᴰ x xs → Memᴰ x (xs ++ ys)
  Memᴰ-append_left x xs ys (Memᴰ.head e) = Memᴰ.head e
  Memᴰ-append_left x xs ys (Memᴰ.tail {xs = zs} m) = Memᴰ.tail (Memᴰ-append_left x zs ys m)

  pub Memᴰ-append_last : (x : A) (xs : List A) → Memᴰ x (xs ++ x ∷ [])
  Memᴰ-append_last x [] = Memᴰ.head refl
  Memᴰ-append_last x (y ∷ ys) = Memᴰ.tail (Memᴰ-append_last x ys)
