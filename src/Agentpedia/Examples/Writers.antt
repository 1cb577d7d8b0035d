-- ===== src/Agentpedia/Examples/Writers.antt =====
-- An edit by a founder of an entry that is there, and the target of an endorsement.
use mathlib.Core.List.{Permᴰ}
use metaso_p2p.Prelude.{ℕ, ◌≡◌, refl, arith, true, some, List, [], ◌∷◌, get_elem?}
use metaso_p2p.Prelude.Int.{pos}
use metaso_p2p.Prelude.Text.{Str, codes, str_eq}
use metaso_p2p.Agentpedia.Value.{end}
use metaso_p2p.Agentpedia.State.{Event, RegChallenge, State, new_state}
use metaso_p2p.Agentpedia.Store.{entry_of, record_at}
use metaso_p2p.Agentpedia.Revisions.{key_of, apply_rev}
use metaso_p2p.Agentpedia.Revisions.Refused.{Settled, apply_rev-Settled}
use metaso_p2p.Agentpedia.Editors.Target.{endorse_target}
use metaso_p2p.Agentpedia.Editors.Target.Visits.{endorse_target-eq_of_perm}
use metaso_p2p.Agentpedia.Replay.{apply_all}
use metaso_p2p.Agentpedia.Examples.{
  pair, genesis_event, rev_of, context, in_order, run, is_some, or_else, eq_some,
}

written : State
written =
    or_else
      (apply_all context in_order 0
        (genesis_event ∷ rev_of "r1" "create" 11 "f1" (pair "contentHash" "h1" end) ∷ []) new_state)
      new_state

abbrev edit_event : Event
edit_event = rev_of "r2" "edit" 12 "f2" (pair "contentHash" "h2" end)

-- The state with the entry, and its place.
abbrev looked_up : State × ℕ
looked_up = entry_of (key_of context edit_event) written

rewritten : State
rewritten = or_else (apply_rev context edit_event written) new_state

stored_at :
    (i : ℕ) (s : State)
    → is_some (get_elem? s.records i) ≡ true
    → get_elem? s.records i ≡ some (record_at i s)
stored_at i s h = ground (arith, h)

stored : is_some (get_elem? looked_up.0.records looked_up.1) ≡ true
unfolding run written entry_of
stored = refl

accepted : is_some (apply_rev context edit_event written) ≡ true
unfolding run written
accepted = refl

apply_rev-Settled_example :
    Settled context edit_event looked_up.1 (record_at looked_up.1 looked_up.0) looked_up.0 rewritten
unfolding rewritten
apply_rev-Settled_example =
    apply_rev-Settled context edit_event written rewritten
      (stored_at looked_up.1 looked_up.0 stored)
      (eq_some (apply_rev context edit_event written) new_state accepted)

-- Two registrations of one applicant, made by different pins.
abbrev register_of : ℕ → Str → RegChallenge
register_of h pin = record {
  applicant = codes "n";
  challenger = codes "f1";
  h = pos 12;
  poc_ok = true;
  stake_ok = true;
  register_h = pos h;
  register_t = pos 0;
  register_pin = pin;
}

abbrev registers : List (Str × RegChallenge)
registers = (codes "c1", register_of 15 (1 ∷ [])) ∷ (codes "c2", register_of 14 (2 ∷ [])) ∷ []

abbrev registers_turned : List (Str × RegChallenge)
registers_turned =
    (codes "c2", register_of 14 (2 ∷ [])) ∷ (codes "c1", register_of 15 (1 ∷ [])) ∷ []

earliest : endorse_target (codes "n") [] registers ≡ some (register_of 14 (2 ∷ []))
unfolding endorse_target str_eq
earliest = refl

endorse_target-eq_of_perm_example :
    endorse_target (codes "n") (1 ∷ []) registers
    ≡ endorse_target (codes "n") (1 ∷ []) registers_turned
endorse_target-eq_of_perm_example =
    endorse_target-eq_of_perm (codes "n") {xs = registers} {ys = registers_turned} (1 ∷ [])
      (Permᴰ.swap refl refl) ((λ p q e. cc e, tt), (tt, tt))
