-- ===== src/Agentpedia/Draw.antt =====
-- The draw of arbiters (internal/agentpedia/replay.go).
pub mod Seeds
use metaso_p2p.Prelude.{
  ℕ, zero, suc, Bool, true, false, Option, none, some, List, [], ◌∷◌, ◌++◌, map, take, ltb, ◌==◌,
  not, if◌then◌else◌,
}
use metaso_p2p.Prelude.Int.{ℤ, pos, negsuc}
use metaso_p2p.Prelude.Text.{Str, codes, str_ltb}
use metaso_p2p.Prelude.Assoc.{Assoc, lookup}
use metaso_p2p.Prelude.Sort.{sort_stable}
use metaso_p2p.Agentpedia.State.{Editor, Proposal, State}
use metaso_p2p.Agentpedia.Access.{Context, is_t2, tier_of, pint}

-- A candidate with its sort key.
pub record Scored : Type 0 where
  pub id : Str
  pub key : ℕ

unfoldable pub scored_less : Scored → Scored → Bool
scored_less a b = if not (a.key == b.key) then ltb a.key b.key else str_ltb a.id b.id

abbrev id_of : Scored → Str
id_of a = a.id

-- `ArbiterDraw`: the n first candidates by the key of the seed and the id. `make` panics, `none`, for
-- a negative capacity n and for one above what it can serve of strings, `max_cap`.
unfoldable pub arbiter_draw : (Str → ℕ) → ℕ → Str → List Str → ℤ → Option (List Str)
unfolding scored_less sort_stable
arbiter_draw sort_key max_cap seed candidates (pos n) =
    let scored =
      λ (id : Str). (let a : Scored = record { id = id; key = sort_key (seed ++ id) } in a) in
    if ltb max_cap n
    then none
    else some (take n (map id_of (sort_stable scored_less (map scored candidates))))
arbiter_draw sort_key max_cap seed candidates (negsuc n) = none

module _ (ctx : Context) where
  -- The ids of tier T2, in the order of the map.
  t2_ids : State → ℤ → Assoc Editor → List Str
  t2_ids s h [] = []
  t2_ids s h ((id, ed) ∷ m) =
      let rest = t2_ids s h m in if is_t2 (tier_of ctx s id h) then id ∷ rest else rest

  unfoldable pub arbiter_candidates : State → ℤ → List Str
  unfolding t2_ids sort_stable
  arbiter_candidates s h = sort_stable str_ltb (t2_ids s h s.editors)

  unfoldable pub drawn : State → ℤ → Str → Option (List Str)
  unfolding arbiter_draw arbiter_candidates
  drawn s h seed =
      arbiter_draw ctx.sort_key ctx.max_cap seed (arbiter_candidates s h)
        (pint s (codes "arbiterDrawN") 7)

  unfoldable pub snapshot_arbiters : State → ℤ → Str → Str → Option (List Str)
  unfolding drawn
  snapshot_arbiters s h pin challenge_pin = elim (lookup pin ctx.opts.arbiter_overrides) [
    | some ids ↦ some ids
    | none ↦ drawn s h challenge_pin
  ]
