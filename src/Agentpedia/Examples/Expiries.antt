-- ===== src/Agentpedia/Examples/Expiries.antt =====
-- Two proposals of a frozen entry that expire at one event: the first was opened before the
-- freeze, the second after it.
use mathlib.Core.List.{Permᴰ, reverse}
use metaso_p2p.Prelude.{
  ℕ, ◌≡◌, ◌≢◌, refl, arith, true, false, Option, none, some, List, [], ◌∷◌, ◌++◌, get_elem?, All,
  Bool-cases, Option-cases, inl, inr, ap, sym, ◌∙◌,
}
use metaso_p2p.Prelude.Int.{ℤ, pos}
use metaso_p2p.Prelude.Text.{Str, codes, str_eq, is_empty}
use metaso_p2p.Prelude.Assoc.{Assoc, lookup, All-lookup}
use Prim.Native.String.{String}
use metaso_p2p.Agentpedia.Value.{Fields, end}
use metaso_p2p.Agentpedia.State.{Event, EntryRec, frozen, Proposal, State, new_entry, new_state}
use metaso_p2p.Agentpedia.Expiry.{is_expired, close_expired}
use metaso_p2p.Agentpedia.Expiry.Visits.{effect, InHarmony, close_expired-eq_of_perm}
use metaso_p2p.Agentpedia.Expiry.Races.{head_at, Expires, close_expired_races}
use metaso_p2p.Agentpedia.Replay.{path_challenge, path_ruling, apply_all}
use metaso_p2p.Agentpedia.Examples.{
  event, pair, genesis_event, rev_of, run, context, in_order, no_proposal, is_some, or_else,
  eq_some,
}

abbrev pub proposal_event : String → ℕ → Fields → Event
proposal_event pin h rest = event pin path_ruling h "f2" (
    pair "action" "proposal"
      (pair "challengePin" "d1" (pair "seed" "d1" (pair "outcome" "dismiss" rest))))

abbrev war : List Event
war =
    genesis_event
    ∷ rev_of "r1" "create" 11 "f1" (pair "contentHash" "h1" end)
    ∷ rev_of "r2" "edit" 12 "f2" (pair "contentHash" "h2" end)
    ∷ event "d1" path_challenge 12 "f2" (pair "targetRev" "r1" end)
    ∷ proposal_event "p1" 13 end
    ∷ rev_of "r3" "revert" 14 "f2" (pair "revertTo" "r1" (pair "contentHash" "h1" end))
    ∷ proposal_event "p2" 15 (pair "baselineRev" "r2" end)
    ∷ []

-- Any event past the two windows.
abbrev late : Event
late = event "z" (codes "/other") 400 "f1" end

abbrev backwards : ℕ → List Str → List Str
backwards n ks = reverse ks

head_after : (ℕ → List Str → List Str) → Option Str
unfolding run
head_after orders = elim (run orders (war ++ late ∷ [])) [ none ↦ none | some s ↦ head_at 0 s ]

-- Whole replays of the same events end with different heads.
heads_differ :
    (head_after in_order ≡ some (codes "r3::eq")) × (head_after backwards ≡ some (codes "r2"))
unfolding head_after
heads_differ = (refl, refl)

-- The proposals of the entry before they expire.
at_war : State
at_war = or_else (apply_all context in_order 0 war new_state) new_state

without_baseline : Proposal
without_baseline = or_else (lookup (codes "p1") at_war.proposals) no_proposal

with_baseline : Proposal
with_baseline = or_else (lookup (codes "p2") at_war.proposals) no_proposal

frozen_entry : EntryRec
frozen_entry = or_else (get_elem? at_war.records 0) (new_entry [])

stored_both :
    (is_some (lookup (codes "p1") at_war.proposals) ≡ true)
    × (is_some (lookup (codes "p2") at_war.proposals) ≡ true)
unfolding run at_war
stored_both = (refl, refl)

first_runs_out : Expires (pos 400) at_war 0 (codes "p1") without_baseline
unfolding run at_war without_baseline
first_runs_out = record {
  stored = eq_some (lookup (codes "p1") at_war.proposals) no_proposal stored_both.0;
  expired = refl;
  keyed = refl;
  placed = refl;
}

second_runs_out : Expires (pos 400) at_war 0 (codes "p2") with_baseline
unfolding run at_war with_baseline
second_runs_out = record {
  stored = eq_some (lookup (codes "p2") at_war.proposals) no_proposal stored_both.1;
  expired = refl;
  keyed = refl;
  placed = refl;
}

entry_stored : is_some (get_elem? at_war.records 0) ≡ true
unfolding run at_war
entry_stored = refl

entry_found : get_elem? at_war.records 0 ≡ some frozen_entry
unfolding frozen_entry
entry_found = eq_some (get_elem? at_war.records 0) (new_entry []) entry_stored

entry_frozen : frozen_entry.status ≡ frozen
unfolding run at_war frozen_entry
entry_frozen = refl

baselines_at_war :
    (is_empty without_baseline.baseline_rev ≡ true) × (is_empty with_baseline.baseline_rev ≡ false)
unfolding run at_war without_baseline with_baseline
baselines_at_war = (refl, refl)

other_pin : codes "p1" ≢ codes "p2"
unfolding str_eq
other_pin e = cc (ap (λ s. str_eq s (codes "p2")) e)

close_expired_races_example :
    (head_at 0 (close_expired (pos 400) (codes "p1" ∷ codes "p2" ∷ []) at_war)
      ≡ some frozen_entry.head)
    × (head_at 0 (close_expired (pos 400) (codes "p2" ∷ codes "p1" ∷ []) at_war)
        ≡ some with_baseline.baseline_rev)
close_expired_races_example =
    close_expired_races (pos 400) at_war 0 (codes "p1") (codes "p2") without_baseline with_baseline
      frozen_entry other_pin first_runs_out second_runs_out entry_found entry_frozen
      baselines_at_war.0 baselines_at_war.1

-- The rulings of an entry, opened while it is frozen, have its baseline.
effect-baseline :
    (h : ℤ) (ens : Assoc ℕ) (p : Proposal) (i : ℕ) (c : Str)
    → effect h ens (some p) ≡ some (i, c)
    → p.baseline_rev ≡ c
effect-baseline h ens p i c e = elim (Bool-cases (is_expired h p)) [
  | inr f ↦ ground (arith, e, f)
  | inl f ↦ elim (Bool-cases (is_empty p.entry_key)) [
    | inl g ↦ ground (arith, e, f, g)
    | inr g ↦ elim (Option-cases (lookup p.entry_key ens)) [
      | inl k ↦ ground (arith, e, f, g, k)
      | inr (j, k) ↦ ground (arith, e, f, g, k)
    ]
  ]
]

InHarmony-one_baseline :
    (h : ℤ) (s : State) (base : Str)
    → All (λ e. e.1.baseline_rev ≡ base) s.proposals
    → InHarmony h s
InHarmony-one_baseline h s base k a b i c d p q = sym (at_base a c p) ∙ at_base b d q
  where
    at_base :
        (a : Str) (c : Str) → effect h s.entries (lookup a s.proposals) ≡ some (i, c) → base ≡ c
    at_base a c e = elim (Option-cases (lookup a s.proposals)) [
      | inl f ↦ ground (arith, e, f)
      | inr (p, f) ↦
          sym (All-lookup (λ e. e.1.baseline_rev ≡ base) a p s.proposals k f)
          ∙ effect-baseline h s.entries p i c (ap (effect h s.entries) (sym f) ∙ e)
    ]

-- The two proposals with the one baseline.
settled_war : State
settled_war = record at_war {
  proposals =
      (codes "p1", record with_baseline { pin = codes "p1" }) ∷ (codes "p2", with_baseline) ∷ [];
}

close_expired-eq_of_perm_example :
    close_expired (pos 400) (codes "p1" ∷ codes "p2" ∷ []) settled_war
    ≡ close_expired (pos 400) (codes "p2" ∷ codes "p1" ∷ []) settled_war
unfolding settled_war
close_expired-eq_of_perm_example =
    close_expired-eq_of_perm (pos 400) settled_war (Permᴰ.swap refl refl)
      (InHarmony-one_baseline (pos 400) settled_war with_baseline.baseline_rev (refl, (refl, tt)))
