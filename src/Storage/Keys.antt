-- ===== src/Storage/Keys.antt =====
-- Bounds of key ranges (internal/storage/pebble.go: prefixUpperBound, and the lower bound of
-- ScanAfter). A key is its bytes.
use metaso_p2p.Prelude.{
  ℕ, zero, suc, ◌+◌, ◌%◌, ◌<◌, ◌≡◌, refl, ap, ◌∙◌, Bool, true, false, not, ◌&&◌, arith, Option,
  none, some, [], ◌∷◌, ◌++◌, if◌then◌else◌, length, All, modify, get_elem?, take, ◌==◌, Bool-cases,
  inl, inr, Option-cases,
}
use metaso_p2p.Prelude.Text.{Str, str_ltb, str_ltb_trans}

-- Every element is a byte.
abbrev pub IsBytes : Str → Type 0
IsBytes = All (λ b. b < 256)

-- `bytes.HasPrefix(key, prefix)`
unfoldable pub has_prefix : Str → Str → Bool
has_prefix [] k = true
has_prefix (a ∷ p) [] = false
has_prefix (a ∷ p) (c ∷ k) = a == c && has_prefix p k

-- end[i]++ on a byte
increment : ℕ → ℕ
increment b = (b + 1) % 256

byte_at : Str → ℕ → ℕ
byte_at end i = elim (get_elem? end i) [ none ↦ 0 | some b ↦ b ]

-- The loop, from the index below `i` down to 0.
unfoldable pub upper_loop : ℕ → Str → Option Str
unfolding increment byte_at
upper_loop zero end = none
upper_loop (suc i) end =
    let bumped = modify increment end i in
    let rest = upper_loop i bumped in
    if byte_at bumped i == 0 then rest else some (take (suc i) bumped)

-- `prefixUpperBound`: none is an absent bound.
unfoldable pub prefix_upper_bound : Str → Option Str
unfolding upper_loop
prefix_upper_bound prefix = upper_loop (length prefix) prefix

-- k is at or above a lower bound, and below an upper bound.
unfoldable pub at_least : Option Str → Str → Bool
at_least none k = true
at_least (some lower) k = not (str_ltb k lower)

unfoldable pub below : Option Str → Str → Bool
below none k = true
below (some upper) k = str_ltb k upper

-- `lower`, in ScanAfter
unfoldable pub after_bound : Str → Option Str
after_bound [] = none
after_bound (a ∷ after) = some ((a ∷ after) ++ 0 ∷ [])

onto : ℕ → Option Str → Option Str
onto b none = if increment b == 0 then none else some (increment b ∷ [])
onto b (some u) = some (b ∷ u)

-- The least string above all that start with the prefix, by recursion on the prefix.
next : Str → Option Str
unfolding onto
next [] = none
next (b ∷ p) = onto b (next p)

upper_loop-cons : (n b : ℕ) (e : Str) → upper_loop (suc n) (b ∷ e) ≡ onto b (upper_loop n e)
unfolding upper_loop byte_at onto
upper_loop-cons zero b e = refl
upper_loop-cons (suc i) b e = elim (Bool-cases (byte_at (modify increment e i) i == 0)) [
  | inl q ↦ rw (q, upper_loop-cons i b (modify increment e i)) refl
  | inr q ↦ rw q refl
]

prefix_upper_bound_lem : (p : Str) → prefix_upper_bound p ≡ next p
unfolding prefix_upper_bound upper_loop next
prefix_upper_bound_lem [] = refl
prefix_upper_bound_lem (b ∷ p) =
    upper_loop-cons (length p) b p ∙ ap (onto b) (prefix_upper_bound_lem p)

range_iff :
    (p k : Str) → IsBytes p → IsBytes k → (not (str_ltb k p) && below (next p) k) ≡ has_prefix p k
unfolding next onto increment below has_prefix str_ltb
range_iff [] k hp hk = refl
range_iff (a ∷ p) [] hp hk = refl
range_iff (a ∷ p) (c ∷ k) hp hk = elim (Option-cases (next p)) [
  | inl e ↦ rw e (ground (arith, range_iff p k hp.1 hk.1, hp.0, hk.0, e))
  | inr (u, e) ↦ rw e (ground (arith, range_iff p k hp.1 hk.1, hp.0, hk.0, e))
]

-- The range of a scan by a prefix of bytes: a key of bytes is at or above the prefix and below
-- prefixUpperBound of it exactly if it starts with the prefix. A prefix with no upper bound, of
-- bytes 255 only or empty, is no exception.
pub prefix_upper_bound-range :
    (p k : Str)
    → IsBytes p
    → IsBytes k
    → (at_least (some p) k && below (prefix_upper_bound p) k) ≡ has_prefix p k
unfolding at_least
prefix_upper_bound-range p k hp hk = rw (prefix_upper_bound_lem p) (range_iff p k hp hk)

after_lem : (a k : Str) → not (str_ltb k (a ++ 0 ∷ [])) ≡ str_ltb a k
unfolding str_ltb
after_lem [] [] = refl
after_lem [] (c ∷ k) = ground arith
after_lem (b ∷ a) [] = refl
after_lem (b ∷ a) (c ∷ k) = ground (arith, after_lem a k)

-- A key of which only the lower bound of ScanPrefixAfter is known.
pub at_least-after : (a k : Str) → at_least (some (a ++ 0 ∷ [])) k ≡ str_ltb a k
unfolding at_least
at_least-after a k = after_lem a k

prefix_least : (p a : Str) → has_prefix p a ≡ true → str_ltb a p ≡ false
unfolding has_prefix str_ltb
prefix_least [] a h = refl
prefix_least (b ∷ p) [] h = cc
prefix_least (b ∷ p) (c ∷ a) h = ground (arith, prefix_least p a)

above_least : (p a k : Str) → has_prefix p a ≡ true → str_ltb a k ≡ true → str_ltb k p ≡ false
above_least p a k h l = elim (Bool-cases (str_ltb k p)) [
  | inl e ↦ ground (arith, str_ltb_trans a k p l e, prefix_least p a h)
  | inr e ↦ e
]

-- What starts with the prefix is below the upper bound, and what follows such a key and is below
-- the bound starts with it.
pub after-range :
    (p a k : Str)
    → IsBytes p
    → IsBytes k
    → has_prefix p a ≡ true
    → (str_ltb a k && below (prefix_upper_bound p) k) ≡ (str_ltb a k && has_prefix p k)
after-range p a k hp hk h = elim (Bool-cases (str_ltb a k)) [
  | inr e ↦ rw e refl
  | inl e ↦
      rw (e, prefix_upper_bound_lem p) (ground (arith, range_iff p k hp hk, above_least p a k h e))
]
