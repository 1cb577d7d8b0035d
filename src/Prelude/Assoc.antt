-- ===== src/Prelude/Assoc.antt =====
-- A Go map with string keys, as an association list. A missing key reads as `none`.
use Prim.Native.Nat.{suc, ◌≤◌}
use mathlib.Core.Path.{◌≡◌, refl, sym, ap, subst, ◌∙◌}
use mathlib.Core.Logic.{◌≢◌, inl, inr}
use mathlib.Core.Bool.{Bool, true, false, ◌||◌}
use mathlib.Core.List.{List, [], ◌∷◌}
use mathlib.Core.Option.{Option, none, some}
use native.Mathlib.Omega.{arith}
use metaso_p2p.Prelude.Tests.{if◌then◌else◌, Bool-cases}
use metaso_p2p.Prelude.Lists.{length, All, Distinct}
use metaso_p2p.Prelude.Text.{Str, str_eq, str_eq_iff}

abbrev pub Assoc {ℓ} : Type ℓ → Type ℓ
Assoc V = List (Str × V)

module _ {ℓ} {V : Type ℓ} where
  unfoldable pub lookup : Str → Assoc V → Option V
  lookup k [] = none
  lookup k ((j, v) ∷ m) = if str_eq j k then some v else lookup k m

  -- m[k] = v
  unfoldable pub insert : Str → V → Assoc V → Assoc V
  insert k v [] = (k, v) ∷ []
  insert k v ((j, w) ∷ m) = if str_eq j k then (k, v) ∷ m else (j, w) ∷ insert k v m

  -- delete(m, k)
  unfoldable pub without : Str → Assoc V → Assoc V
  without k [] = []
  without k ((j, w) ∷ m) = let rest = without k m in if str_eq j k then rest else (j, w) ∷ rest

  pub lookup-insert :
      (k j : Str) (v : V) (m : Assoc V)
      → lookup j (insert k v m) ≡ (if str_eq k j then some v else lookup j m)
  unfolding lookup insert
  lookup-insert k j v [] = refl
  lookup-insert k j v ((i, w) ∷ m) =
      ground (arith, str_eq_iff k j, str_eq_iff i k, str_eq_iff i j, lookup-insert k j v m)

  pub lookup-without :
      (k j : Str) (m : Assoc V) → lookup j (without k m) ≡ (if str_eq k j then none else lookup j m)
  unfolding lookup without
  lookup-without k j [] = ground arith
  lookup-without k j ((i, w) ∷ m) =
      ground (arith, str_eq_iff k j, str_eq_iff i k, str_eq_iff i j, lookup-without k j m)

  pub lookup-cons :
      (k j : Str) (v : V) (m : Assoc V)
      → lookup j ((k, v) ∷ m) ≡ (if str_eq k j then some v else lookup j m)
  unfolding lookup
  lookup-cons k j v m = refl

pub ruleset map_laws = (lookup-insert, lookup-without)

-- `m[k]` on a `map[string]bool` and on a `map[string]int`: the zero value on a missing key.
abbrev pub flag : Str → Assoc Bool → Bool
flag k m = elim (lookup k m) [ none ↦ false | some b ↦ b ]

pub flag-insert : (k j : Str) (m : Assoc Bool) → flag j (insert k true m) ≡ (str_eq k j || flag j m)
flag-insert k j m = ground (arith, lookup-insert k j true m)

module _ {ℓ} {V : Type ℓ} where
  -- The keys of the map, and that no key has two entries.
  unfoldable pub keys : Assoc V → List Str
  keys [] = []
  keys ((k, v) ∷ m) = k ∷ keys m

  abbrev pub DistinctKeys : Assoc V → Type ℓ
  DistinctKeys [] = Unit
  DistinctKeys ((k, v) ∷ m) = (lookup k m ≡ none) × DistinctKeys m

  pub DistinctKeys-insert :
      (k : Str) (v : V) (m : Assoc V) → DistinctKeys m → DistinctKeys (insert k v m)
  unfolding insert lookup
  DistinctKeys-insert k v [] h = (refl, tt)
  DistinctKeys-insert k v ((j, w) ∷ m) h = elim (Bool-cases (str_eq j k)) [
    | inl e ↦ rw e (subst (λ i. lookup i m ≡ none) ((str_eq_iff j k).0 e) h.0, h.1)
    | inr e ↦ rw e (
      ground (arith, lookup-insert k j v m, str_eq_iff k j, str_eq_iff j k, h.0),
      DistinctKeys-insert k v m h.1,
    )
  ]

  pub All-insert {κ} :
      (P : Str × V → Type κ) (k : Str) (v : V) (m : Assoc V)
      → P (k, v)
      → All P m
      → All P (insert k v m)
  unfolding insert
  All-insert P k v [] p h = (p, tt)
  All-insert P k v ((j, w) ∷ m) p h = elim (Bool-cases (str_eq j k)) [
    | inl e ↦ rw e (p, h.1)
    | inr e ↦ rw e (h.0, All-insert P k v m p h.1)
  ]

  lookup-none-keys : (k : Str) (m : Assoc V) → lookup k m ≡ none → All (λ j. k ≢ j) (keys m)
  unfolding lookup keys
  lookup-none-keys k [] h = tt
  lookup-none-keys k ((j, w) ∷ m) h =
      (ground (arith, str_eq_iff j k, h), lookup-none-keys k m (ground (arith, h)))

  pub Distinct-keys : (m : Assoc V) → DistinctKeys m → Distinct (keys m)
  unfolding keys
  Distinct-keys [] h = tt
  Distinct-keys ((k, v) ∷ m) h = (lookup-none-keys k m h.0, Distinct-keys m h.1)

  pub length-keys : (m : Assoc V) → length (keys m) ≡ length m
  unfolding keys
  length-keys [] = refl
  length-keys ((k, v) ∷ m) = ap suc (length-keys m)

  pub All-keys {κ} : (P : Str → Type κ) (m : Assoc V) → All (λ e. P e.0) m → All P (keys m)
  unfolding keys
  All-keys P [] h = tt
  All-keys P ((k, v) ∷ m) h = (h.0, All-keys P m h.1)

  pub All-lookup {κ} :
      (P : Str × V → Type κ) (k : Str) (v : V) (m : Assoc V)
      → All P m
      → lookup k m ≡ some v
      → P (k, v)
  unfolding lookup
  All-lookup P k v [] h e = cc
  All-lookup P k v ((j, w) ∷ m) h e = elim (Bool-cases (str_eq j k)) [
    | inl q ↦
        let r : lookup k ((j, w) ∷ m) ≡ some w = rw (lookup, q) refl in
        subst (λ i. P (i, v)) ((str_eq_iff j k).0 q) (subst (λ u. P (j, u)) (cc r) h.0)
    | inr q ↦
        let r : lookup k ((j, w) ∷ m) ≡ lookup k m = rw (lookup, q) refl in
        All-lookup P k v m h.1 (sym r ∙ e)
  ]

  pub length-insert :
      (k : Str) (v : V) (m : Assoc V)
      → length (insert k v m) ≡ (elim (lookup k m) [ none ↦ suc (length m) | some w ↦ length m ])
  unfolding insert lookup
  length-insert k v [] = refl
  length-insert k v ((j, w) ∷ m) = elim (Bool-cases (str_eq j k)) [
    | inl q ↦ rw q refl
    | inr q ↦ ground (arith, length-insert k v m)
  ]

  pub length-le-insert : (k : Str) (v : V) (m : Assoc V) → length m ≤ length (insert k v m)
  length-le-insert k v m = ground (arith, length-insert k v m)
