-- ===== src/Metatask/Amend/Acyclic.antt =====
-- The way up from a node in the test for cycles, and its fuel.
use metaso_p2p.Prelude.{
  ℕ, zero, suc, ◌+◌, ◌≤◌, ◌<◌, ◌≡◌, ◌≢◌, refl, arith, inl, inr, Bool, false, none, some, List, [],
  ◌∷◌, length, All, Distinct, Bool-cases, Option-cases,
}
use metaso_p2p.Prelude.Text.{Str, str_eq, str_eq_iff, is_empty}
use metaso_p2p.Prelude.Assoc.{Assoc, lookup, without, lookup-without}
use metaso_p2p.Metatask.Shares.{TreeNode}
use metaso_p2p.Metatask.Amend.{seen_before, climb}

abbrev Present : Assoc TreeNode → Str → Type 0
Present m k = lookup k m ≢ none

length-without-le : (k : Str) (m : Assoc TreeNode) → length (without k m) ≤ length m
unfolding without
length-without-le k [] = omega arith
length-without-le k ((j, t) ∷ m) = ground (arith, length-without-le k m)

length-without : (k : Str) (m : Assoc TreeNode) → Present m k → length (without k m) < length m
unfolding lookup without
length-without k [] h = absurd (h refl)
length-without k ((j, t) ∷ m) h = elim (Bool-cases (str_eq j k)) [
  | inl e ↦ rw (without, e) (omega (arith, length-without-le k m))
  | inr e ↦ rw (without, e) (omega (arith, length-without k m (rw (lookup, e) at h)))
]

without-Present :
    (k : Str) (m : Assoc TreeNode) (ks : List Str)
    → All (λ j. k ≢ j) ks
    → All (Present m) ks
    → All (Present (without k m)) ks
without-Present k m [] d h = tt
without-Present k m (j ∷ ks) d h =
    (ground (arith, lookup-without k j m, str_eq_iff k j, d.0, h.0), without-Present k m ks d.1 h.1)

-- Different keys of a map are at most as many as its entries.
Distinct-le :
    (ks : List Str) (m : Assoc TreeNode) → Distinct ks → All (Present m) ks → length ks ≤ length m
Distinct-le [] m d h = omega arith
Distinct-le (k ∷ ks) m d h = omega (
  arith,
  Distinct-le ks (without k m) d.1 (without-Present k m ks d.0 h.1),
  length-without k m h.0,
)

seen_before-All : (seen : List Str) (k : Str) → seen_before seen k ≡ false → All (λ s. k ≢ s) seen
unfolding seen_before
seen_before-All [] k e = tt
seen_before-All (s ∷ seen) k e =
    (ground (arith, str_eq_iff s k, e), seen_before-All seen k (ground (arith, e)))

climb-some_from :
    (m : Assoc TreeNode) (fuel : ℕ) (seen : List Str) (cursor : Str)
    → Distinct seen
    → All (Present m) seen
    → length m < fuel + length seen
    → climb m fuel seen cursor ≢ none
unfolding climb
climb-some_from m zero seen cursor d h lt = omega (arith, Distinct-le seen m d h)
climb-some_from m (suc fuel) seen cursor d h lt = elim (Bool-cases (is_empty cursor)) [
  | inl top ↦ rw (climb, top) (λ e. absurd (cc e))
  | inr below ↦ elim (Bool-cases (seen_before seen cursor)) [
    | inl again ↦ rw (climb, below, again) (λ e. absurd (cc e))
    | inr fresh ↦ elim (Option-cases (lookup cursor m)) [
      | inl gone ↦ rw (climb, below, fresh, gone) (λ e. absurd (cc e))
      | inr (n, there) ↦ elim (Option-cases n.parent) [
        | inl root ↦ rw (climb, below, fresh, there, root) (λ e. absurd (cc e))
        | inr (parent, up) ↦
            rw (climb, below, fresh, there, up)
              (climb-some_from m fuel (cursor ∷ seen) parent (seen_before-All seen cursor fresh, d)
                ((λ e. absurd (cc (e, there))), h) (omega arith))
      ]
    ]
  ]
]

-- The way up from a node of the tree has its answer, that it ends or comes back to a node, within
-- two more steps than the tree has nodes.
pub climb-decides :
    (m : Assoc TreeNode) (start : Str) → (b : Bool) × (climb m (length m + 2) [] start ≡ some b)
climb-decides m start = elim (Option-cases (climb m (length m + 2) [] start)) [
  | inl e ↦ absurd (climb-some_from m (length m + 2) [] start tt tt (omega arith) e)
  | inr found ↦ found
]
