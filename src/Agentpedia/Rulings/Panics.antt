-- ===== src/Agentpedia/Rulings/Panics.antt =====
-- Where the opening of a proposal panics (internal/agentpedia/replay.go).
use metaso_p2p.Prelude.{ℕ, List, ◌≡◌, ◌⊎◌, inl, ◌↔◌, refl, arith, none}
use metaso_p2p.Prelude.Int.{ℤ, pos, negsuc, ◌<ℤ◌}
use metaso_p2p.Prelude.Text.{Str, codes}
use metaso_p2p.Prelude.Assoc.{lookup}
use metaso_p2p.Agentpedia.State.{Event, Outcome, State}
use metaso_p2p.Agentpedia.Access.{Context, pint}
use metaso_p2p.Agentpedia.Draw.{arbiter_draw, drawn, snapshot_arbiters, arbiter_candidates}
use metaso_p2p.Agentpedia.Rulings.{open_proposal}

arbiter_draw-panics :
    (n : ℤ) (k : Str → ℕ) (cap : ℕ) (seed : Str) (ids : List Str)
    → (arbiter_draw k cap seed ids n ≡ none) ↔ ((n <ℤ pos 0) ⊎ (pos cap <ℤ n))
unfolding arbiter_draw
arbiter_draw-panics (pos n) k cap seed ids = ground arith
arbiter_draw-panics (negsuc n) k cap seed ids = (λ e. inl (omega arith), λ l. refl)

-- Of a proposal whose arbiters no option injects, the opening panics exactly where the parameter
-- `arbiterDrawN`, as an integer, is negative or above the capacity that `make` can serve.
pub open_proposal-panics :
    (ctx : Context) (ev : Event) (challenge_pin key : Str) (outcome : Outcome) (s : State)
    → lookup ev.pin ctx.opts.arbiter_overrides ≡ none
    → (open_proposal ctx ev challenge_pin key outcome s ≡ none) ↔ (
        (pint s (codes "arbiterDrawN") 7 <ℤ pos 0)
        ⊎ (pos ctx.max_cap <ℤ pint s (codes "arbiterDrawN") 7))
unfolding open_proposal snapshot_arbiters drawn
open_proposal-panics ctx ev cp key o s e =
    let n = pint s (codes "arbiterDrawN") 7 in
    let iff =
      arbiter_draw-panics n ctx.sort_key ctx.max_cap cp (arbiter_candidates ctx s ev.height) in
    ground (arith, iff, e)
