-- ===== src/Metatask/Walk/Supersede/Steps.antt =====
-- What a submission may do to a cycle that has one (internal/metatask/v121.go).

use metaso_p2p.Prelude.{ℕ, ◌≡◌, ◌⊎◌, some, get_elem?}
use metaso_p2p.Metatask.Event.{ChainEvent}
use metaso_p2p.Metatask.Walk.State.{Cycle, CycleSubmission, WalkState, WalkContext}
use metaso_p2p.Metatask.Walk.Submissions.{submission_of}
use metaso_p2p.Metatask.Walk.Supersede.{OnLive, Supersedes, IsMoved}

-- A submission on the cycle that its holder's claim leads to.
Superseded : WalkContext → WalkState → ChainEvent → ℕ → Cycle → CycleSubmission → WalkState → Type 0
Superseded ctx w pin i c e v =
    (get_elem? v.cycles i ≡ some c)
    ⊎ ((d : Cycle) × (get_elem? v.cycles i ≡ some d)
        × OnLive w pin i c
        × Supersedes ctx c e (submission_of pin)
        × IsMoved c (submission_of pin) d)
