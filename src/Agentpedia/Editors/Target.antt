-- ===== src/Agentpedia/Editors/Target.antt =====
-- The registration that an endorsement is for (internal/agentpedia/replay.go).
pub mod Visits
use metaso_p2p.Prelude.{Bool, true, ◌&&◌, ◌||◌, Option, none, some, List, [], ◌∷◌, if◌then◌else◌}
use metaso_p2p.Prelude.Int.{ltb_ℤ, eqb_ℤ}
use metaso_p2p.Prelude.Text.{Str, str_eq, str_ltb, is_empty}
use metaso_p2p.Agentpedia.State.{RegChallenge}

-- A satisfied registration of the applicant.
abbrev pub is_register : Str → RegChallenge → Bool
is_register applicant rc = str_eq rc.applicant applicant && rc.stake_ok

-- The first visited registration with the declared pin.
unfoldable pub declared_target : Str → Str → List (Str × RegChallenge) → Option RegChallenge
declared_target applicant pin [] = none
declared_target applicant pin ((k, rc) ∷ rcs) =
    if is_register applicant rc && str_eq rc.register_pin pin
    then some rc
    else declared_target applicant pin rcs

-- Earlier on the chain, then by the smaller pin.
unfoldable pub earlier : RegChallenge → RegChallenge → Bool
earlier a b =
    ltb_ℤ a.register_h b.register_h
    || eqb_ℤ a.register_h b.register_h && ltb_ℤ a.register_t b.register_t
    || eqb_ℤ a.register_h b.register_h
      && eqb_ℤ a.register_t b.register_t
      && str_ltb a.register_pin b.register_pin

-- `better`, for the best so far.
unfoldable pub better : RegChallenge → Option RegChallenge → Bool
unfolding earlier
better rc none = true
better rc (some best) = earlier rc best

-- The loop that keeps the best registration of the applicant.
unfoldable pub best_target :
    Str → Option RegChallenge → List (Str × RegChallenge) → Option RegChallenge
unfolding better
best_target applicant best [] = best
best_target applicant best ((k, rc) ∷ rcs) =
    best_target applicant (if is_register applicant rc && better rc best then some rc else best) rcs

unfoldable pub endorse_target : Str → Str → List (Str × RegChallenge) → Option RegChallenge
unfolding declared_target best_target
endorse_target applicant declared rcs =
    elim (if is_empty declared then none else declared_target applicant declared rcs) [
      | some rc ↦ some rc
      | none ↦ best_target applicant none rcs
    ]
