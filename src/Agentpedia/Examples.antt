-- ===== src/Agentpedia/Examples.antt =====
-- A replay from the genesis to a ruling, and the theorems at its states.
pub mod Expiries
pub mod Writers
use metaso_p2p.Prelude.{
  ℕ, zero, suc, ◌+◌, ◌≡◌, refl, arith, Bool, true, false, Option, none, some, List, [], ◌∷◌, ◌++◌,
  ◌↔◌, ◌⊎◌, ◌^◌,
}
use Prim.Native.String.{String}
use mathlib.Core.List.{Permᴰ}
use metaso_p2p.Prelude.Int.{ℤ, pos, negsuc, ◌<ℤ◌, ◌+ℤ◌, ◌-ℤ◌, ◌*ℤ◌, wrap64}
use metaso_p2p.Prelude.Text.{Str, codes, str_eq, str_ltb}
use metaso_p2p.Prelude.Assoc.{Assoc, lookup, insert, keys, flag}
use metaso_p2p.Prelude.Sort.{place}
use metaso_p2p.Agentpedia.Value.{
  Float, float_of, get, trunc, object_of, ltb_float, leb_float, add_float, Value, number, text,
  array, object, bool, Items, nil, item, Fields, end, field,
}
use metaso_p2p.Agentpedia.State.{
  Event, Options, Editor, new_editor, Outcome, opened, Proposal, ProposalState, effective, State,
  new_state, EntryRec, frozen,
}
use metaso_p2p.Agentpedia.Store.{editor_at, pfloat, ranged}
use metaso_p2p.Agentpedia.Access.{Context, pint, global_key, count_root, slug_key, day_of}
use metaso_p2p.Agentpedia.Draw.{arbiter_draw}
use metaso_p2p.Agentpedia.Expiry.{apply_outcome}
use metaso_p2p.Agentpedia.Draw.Seeds.{arbiter_draw-eq_of_perm}
use metaso_p2p.Agentpedia.Rulings.{open_proposal}
use metaso_p2p.Agentpedia.Rulings.Panics.{open_proposal-panics}
use metaso_p2p.Agentpedia.Valid.{IsEndorsed, IsCounted}
use metaso_p2p.Agentpedia.Valid.Replays.{replay_state-IsEndorsed, replay_state-IsCounted}
use metaso_p2p.Agentpedia.Replay.{
  path_rev, path_challenge, path_ruling, path_review, path_editor, path_constitution, apply_all,
  replay_state, replay,
}

abbrev pub num_of : ℕ → Value
num_of n = number (float_of (pos n))

abbrev pub text_value : String → Value
text_value s = text (codes s)

abbrev pub event : String → Str → ℕ → String → Fields → Event
event pin path h sender payload = record {
  pin = codes pin;
  path = path;
  height = pos h;
  tx_index = pos 0;
  sender = codes sender;
  payload = payload;
}

abbrev pub pair : String → String → Fields → Fields
pair k v fs = field (codes k) (text_value v) fs

abbrev pub genesis_event : Event
genesis_event = event "g" path_constitution 10 "f1" (
    field (codes "revision") (num_of 0) (
      field (codes "params")
        (object (
          field (codes "rulingQuorum") (num_of 2)
            (field (codes "revertWarThreshold") (num_of 1) end)))
        (field (codes "founders")
          (array (
            item (text_value "f1")
              (item (text_value "f2") (item (text_value "f3") (item (text_value "f4") nil)))))
          end)))

abbrev pub rev_of : String → String → ℕ → String → Fields → Event
rev_of pin type h sender rest =
    event pin path_rev h sender (pair "type" type (pair "lang" "en" (pair "slug" "x" rest)))

abbrev editor_event : String → String → ℕ → String → Fields → Event
editor_event pin action h sender rest =
    event pin path_editor h sender (pair "action" action (pair "editor" "n" rest))

abbrev endorsement : String → String → Event
endorsement pin sender = editor_event pin "endorse" 17 sender end

abbrev vote_event : String → String → Event
vote_event pin sender =
    event pin path_ruling 16 sender
      (pair "action" "vote" (pair "proposalPin" "p" (field (codes "approve") (bool true) end)))

-- The newcomer answers the challenge, registers with a stake and is endorsed by the founders.
abbrev pub events : List Event
events =
    genesis_event
    ∷ rev_of "r1" "create" 11 "f1" (pair "contentHash" "h1" end)
    ∷ editor_event "c1" "challenge" 12 "f1" end
    ∷ event "w1" path_review 13 "n" (pair "targetRev" "r1" end)
    ∷ editor_event "a1" "poc-response" 14 "n"
        (pair "challengePin" "c1" (pair "responsePin" "w1" end))
    ∷ editor_event "s1" "register" 15 "n" (
        pair "challengePin" "c1" (
          field (codes "stake")
            (object (pair "txid" "t" (field (codes "amountSat") (num_of 1) end))) end))
    ∷ event "d1" path_challenge 15 "f2" (pair "targetRev" "r1" end)
    ∷ event "p" path_ruling 15 "f2" (
        pair "action" "proposal"
          (pair "challengePin" "d1" (pair "seed" "d1" (pair "outcome" "dismiss" end))))
    ∷ vote_event "v1" "f1"
    ∷ vote_event "v2" "f2"
    ∷ endorsement "e1" "f1"
    ∷ endorsement "e2" "f2"
    ∷ endorsement "e3" "f3"
    ∷ endorsement "e4" "f4"
    ∷ []

abbrev pub options : Options
options = record {
  blocks_per_hour = pos 0;
  blocks_per_day = pos 0;
  arbiter_overrides = [];
  frozen_arbiter_overrides = [];
  editors_rep = [];
  cluster_aliases = [];
}

-- A key for the tests, in place of the one from SHA-256.
abbrev pub test_key : Str → ℕ
test_key [] = 7
test_key (c ∷ s) = c + test_key s

abbrev pub in_order : ℕ → List Str → List Str
in_order n ks = ks

abbrev pub context : Context
context = record { opts = options; bph = 6; bpd = 144; sort_key = test_key; max_cap = 2 ^ 44 }

abbrev pub no_proposal : Proposal
no_proposal = record {
  pin = [];
  challenge_pin = [];
  outcome = Outcome.dismiss;
  params = end;
  proposer = [];
  height = pos 0;
  expiry_h = pos 0;
  arbiters = [];
  approves = [];
  approve_count = 0;
  state = opened;
  entry_key = [];
  baseline_rev = [];
  voters = [];
}

-- A replay with what its parts call opened, so that a test computes.
unfoldable pub run : (ℕ → List Str → List Str) → List Event → Option State
unfolding replay_state place str_eq get keys lookup insert wrap64 ◌+ℤ◌ ◌-ℤ◌ ◌*ℤ◌ trunc pfloat
    object_of ranged ltb_float leb_float add_float str_ltb apply_outcome global_key count_root
    slug_key day_of
run orders es = replay_state context orders es

abbrev pub is_some : {A : Type 0} → Option A → Bool
is_some none = false
is_some (some a) = true

abbrev pub or_else : {A : Type 0} → Option A → A → A
or_else none d = d
or_else (some a) d = a

pub eq_some : {A : Type 0} (o : Option A) (d : A) → is_some o ≡ true → o ≡ some (or_else o d)
eq_some none d h = cc
eq_some (some a) d h = refl

final : State
final = or_else (replay_state context in_order events) new_state

finished : is_some (run in_order events) ≡ true
unfolding run
finished = refl

final_state : replay_state context in_order events ≡ some final
unfolding final
final_state = eq_some (replay_state context in_order events) new_state (unfold run in finished)

newcomer : Editor
newcomer = or_else (lookup (codes "n") final.editors) new_editor

dismissal : Proposal
dismissal = or_else (lookup (codes "p") final.proposals) no_proposal

newcomer_listed : is_some (lookup (codes "n") final.editors) ≡ true
unfolding run final
newcomer_listed = refl

dismissal_listed : is_some (lookup (codes "p") final.proposals) ≡ true
unfolding run final
dismissal_listed = refl

-- The newcomer is registered, and the dismissal effective.
events_work :
    (newcomer.registered_at ≡ some (pos 15))
    × (newcomer.founder ≡ false)
    × (dismissal.state ≡ effective)
    × (dismissal.approve_count ≡ 2)
unfolding run final newcomer dismissal
events_work = (refl, refl, refl, refl)

newcomer_found : lookup (codes "n") final.editors ≡ some newcomer
unfolding newcomer
newcomer_found = eq_some (lookup (codes "n") final.editors) new_editor newcomer_listed

dismissal_found : lookup (codes "p") final.proposals ≡ some dismissal
unfolding dismissal
dismissal_found = eq_some (lookup (codes "p") final.proposals) no_proposal dismissal_listed

replay_state-IsEndorsed_example : IsEndorsed (codes "n", newcomer)
replay_state-IsEndorsed_example =
    replay_state-IsEndorsed context in_order events final (codes "n") newcomer final_state
      newcomer_found

replay_state-IsCounted_example : IsCounted (codes "p", dismissal)
replay_state-IsCounted_example =
    replay_state-IsCounted context in_order events final (codes "p") dismissal final_state
      dismissal_found

-- The parameters ask for -1 arbiters.
negative : State
negative = record final {
  params = some ((codes "arbiterDrawN", record { num = negsuc 0; den = 1 }) ∷ []);
}

no_override : lookup (codes "q") context.opts.arbiter_overrides ≡ none
unfolding lookup
no_override = refl

open_proposal-panics_example :
    (open_proposal context
        (vote_event "q" "f1")
        (codes "d1")
        (codes "en:x")
        Outcome.dismiss
        negative
      ≡ none)
    ↔ ((pint negative (codes "arbiterDrawN") 7 <ℤ pos 0)
        ⊎ (pos context.max_cap <ℤ pint negative (codes "arbiterDrawN") 7))
open_proposal-panics_example =
    open_proposal-panics context (vote_event "q" "f1") (codes "d1") (codes "en:x") Outcome.dismiss
      negative no_override

negative_draw : pint negative (codes "arbiterDrawN") 7 ≡ negsuc 0
unfolding run negative
negative_draw = refl

arbiter_draw-eq_of_perm_example :
    arbiter_draw test_key 9 (codes "s") ((1 ∷ []) ∷ (2 ∷ []) ∷ []) (pos 1)
    ≡ arbiter_draw test_key 9 (codes "s") ((2 ∷ []) ∷ (1 ∷ []) ∷ []) (pos 1)
arbiter_draw-eq_of_perm_example =
    arbiter_draw-eq_of_perm test_key (codes "s") 9 ((1 ∷ []) ∷ (2 ∷ []) ∷ [])
      ((2 ∷ []) ∷ (1 ∷ []) ∷ []) (pos 1) (Permᴰ.swap refl refl) ((λ e. cc e, tt), (tt, tt))
