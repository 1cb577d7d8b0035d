-- ===== src/Prelude/Text.antt =====
-- Go strings: their bytes, compared as Go compares them.
use Prim.Native.Nat.{ℕ}
use Prim.Native.Char.{code}
use Prim.Native.String.{String}
use mathlib.Core.Path.{◌≡◌, refl, ap, sym, ◌∙◌}
use mathlib.Core.Logic.{◌↔◌, inl, inr}
use mathlib.Core.Bool.{Bool, true, false, ◌&&◌}
use mathlib.Core.List.{List, [], ◌∷◌}
use native.Mathlib.Omega.{arith}
use metaso_p2p.Prelude.Tests.{ltb, ◌==◌, if◌then◌else◌, Bool-cases}

abbrev pub Str : Type 0
Str = List ℕ

-- The bytes of an ASCII literal.
abbrev pub codes : String → Str
codes String.[] = []
codes (String.◌∷◌ c s) = code c ∷ codes s

unfoldable pub str_eq : Str → Str → Bool
str_eq [] [] = true
str_eq [] (b ∷ t) = false
str_eq (a ∷ s) [] = false
str_eq (a ∷ s) (b ∷ t) = a == b && str_eq s t

-- `s < t` on Go strings: bytewise lexicographic.
unfoldable pub str_ltb : Str → Str → Bool
str_ltb s [] = false
str_ltb [] (b ∷ t) = true
str_ltb (a ∷ s) (b ∷ t) = let rest = str_ltb s t in if ltb a b then true else a == b && rest

abbrev pub is_empty : Str → Bool
is_empty [] = true
is_empty (a ∷ s) = false

str_eq→ : (s t : Str) → str_eq s t ≡ true → s ≡ t
unfolding str_eq
str_eq→ [] [] h = refl
str_eq→ [] (b ∷ t) h = cc
str_eq→ (a ∷ s) [] h = cc
str_eq→ (a ∷ s) (b ∷ t) h = ground (arith, str_eq→ s t)

pub str_eq_refl : (s : Str) → str_eq s s ≡ true
unfolding str_eq
str_eq_refl [] = refl
str_eq_refl (a ∷ s) = ground (arith, str_eq_refl s)

-- The test of equality decides equality.
pub str_eq_iff : (s t : Str) → (str_eq s t ≡ true) ↔ (s ≡ t)
str_eq_iff s t = (str_eq→ s t, λ e. ap (λ u. str_eq s u) (sym e) ∙ str_eq_refl s)

pub str_ltb_irrefl : (s : Str) → str_ltb s s ≡ false
unfolding str_ltb
str_ltb_irrefl [] = refl
str_ltb_irrefl (a ∷ s) = ground (arith, str_ltb_irrefl s)

pub str_ltb_trans : (s t u : Str) → str_ltb s t ≡ true → str_ltb t u ≡ true → str_ltb s u ≡ true
unfolding str_ltb
str_ltb_trans s t [] p q = cc
str_ltb_trans s [] (c ∷ u) p q = cc
str_ltb_trans [] (b ∷ t) (c ∷ u) p q = refl
str_ltb_trans (a ∷ s) (b ∷ t) (c ∷ u) p q = ground (arith, str_ltb_trans s t u)

-- Two strings of which neither is the smaller are one string.
pub str_ltb_total : (s t : Str) → str_ltb s t ≡ false → str_ltb t s ≡ false → s ≡ t
unfolding str_ltb
str_ltb_total [] [] p q = refl
str_ltb_total [] (b ∷ t) p q = cc
str_ltb_total (a ∷ s) [] p q = cc
str_ltb_total (a ∷ s) (b ∷ t) p q = ground (arith, str_ltb_total s t)

pub str_ltb_cotrans :
    (s t u : Str) → str_ltb t s ≡ false → str_ltb u t ≡ false → str_ltb u s ≡ false
str_ltb_cotrans s t u p q = elim (Bool-cases (str_ltb u s)) [
  | inr r ↦ r
  | inl r ↦ elim (Bool-cases (str_ltb s t)) [
    | inl k ↦ cc (str_ltb_trans u s t r k)
    | inr k ↦ cc (str_ltb_total s t k p)
  ]
]
