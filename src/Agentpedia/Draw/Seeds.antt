-- ===== src/Agentpedia/Draw/Seeds.antt =====
-- What the draw of arbiters depends on, and how many it draws (internal/agentpedia/replay.go).
use mathlib.Core.List.{Permᴰ}
use metaso_p2p.Prelude.{
  ℕ, ◌≡◌, ◌≢◌, refl, ap, arith, inl, inr, ◌⊎◌, true, false, some, List, [], ◌∷◌, ◌++◌, map, take,
  ltb, none, if◌then◌else◌, All, Distinct, Bool-cases,
}
use metaso_p2p.Prelude.Int.{ℤ, pos, negsuc}
use metaso_p2p.Prelude.Text.{Str, str_ltb_irrefl, str_ltb_trans, str_ltb_total, str_ltb_cotrans}
use metaso_p2p.Prelude.Sort.Laws.{Apart, sort_stable-eq_of_perm}
use metaso_p2p.Agentpedia.Draw.{Scored, scored_less, arbiter_draw}

scored_less-asym : (a b : Scored) → scored_less a b ≡ true → scored_less b a ≡ false
unfolding scored_less
scored_less-asym a b h = ground (arith, str_ltb_irrefl a.id, str_ltb_trans a.id b.id a.id)

scored_less_trans :
    (a b c : Scored) → scored_less a b ≡ true → scored_less b c ≡ true → scored_less a c ≡ true
unfolding scored_less
scored_less_trans a b c p q = ground (arith, str_ltb_trans a.id b.id c.id)

scored_less-cotrans :
    (a b c : Scored) → scored_less b a ≡ false → scored_less c b ≡ false → scored_less c a ≡ false
unfolding scored_less
scored_less-cotrans a b c p q = ground (arith, str_ltb_cotrans a.id b.id c.id)

-- A candidate with its key for a seed.
abbrev scored : (Str → ℕ) → Str → Str → Scored
scored sort_key seed id = record { id = id; key = sort_key (seed ++ id) }

-- No id occurs twice.
scored_less-cases :
    (a b : Scored) → a.id ≢ b.id → (scored_less a b ≡ true) ⊎ (scored_less b a ≡ true)
unfolding scored_less
scored_less-cases a b ne = elim (Bool-cases (scored_less a b)) [
  | inl p ↦ inl p
  | inr p ↦ elim (Bool-cases (scored_less b a)) [
    | inl q ↦ inr q
    | inr q ↦ absurd (ne (str_ltb_total a.id b.id (ground (arith, p, q)) (ground (arith, p, q))))
  ]
]

module _ (sort_key : Str → ℕ) (seed : Str) where
  scored-cases :
      (id : Str) (ids : List Str)
      → All (λ j. id ≢ j) ids
      → All
          (λ b.
            (scored_less (scored sort_key seed id) b ≡ true)
            ⊎ (scored_less b (scored sort_key seed id) ≡ true))
          (map (scored sort_key seed) ids)
  scored-cases id [] h = tt
  scored-cases id (j ∷ ids) h = (
    scored_less-cases (scored sort_key seed id) (scored sort_key seed j) h.0,
    scored-cases id ids h.1,
  )

  scored-Apart :
      (ids : List Str) → Distinct ids → Apart scored_less (map (scored sort_key seed) ids)
  scored-Apart [] h = tt
  scored-Apart (id ∷ ids) h = (scored-cases id ids h.0, scored-Apart ids h.1)

  map-perm : {A B : Type 0} (f : A → B) {xs ys : List A} → Permᴰ xs ys → Permᴰ (map f xs) (map f ys)
  map-perm f Permᴰ.nil = Permᴰ.nil
  map-perm f (Permᴰ.cons e p) = Permᴰ.cons (ap f e) (map-perm f p)
  map-perm f (Permᴰ.swap e g) = Permᴰ.swap (ap f e) (ap f g)
  map-perm f (Permᴰ.trans p q) = Permᴰ.trans (map-perm f p) (map-perm f q)

  -- The draw from different candidates does not depend on the order in which they are listed.
  pub arbiter_draw-eq_of_perm :
      (max_cap : ℕ) (ids jds : List Str) (n : ℤ)
      → Permᴰ ids jds
      → Distinct ids
      → arbiter_draw sort_key max_cap seed ids n ≡ arbiter_draw sort_key max_cap seed jds n
  unfolding arbiter_draw
  arbiter_draw-eq_of_perm max_cap ids jds (negsuc n) p d = refl
  arbiter_draw-eq_of_perm max_cap ids jds (pos n) p d =
      ap (λ l. if ltb max_cap n then none else some (take n (map (λ (a : Scored). a.id) l)))
        (sort_stable-eq_of_perm scored_less scored_less-asym scored_less_trans scored_less-cotrans
          (map-perm (scored sort_key seed) p) (scored-Apart ids d))
