-- ===== src/Agentpedia/Replay.antt =====
-- `apply` and `Replay` (internal/agentpedia/replay.go): one event, and the stream of all.
--
-- Go visits a map in an order that it does not say. Each event has its own: `orders n` puts the
-- keys of a map into the order of the loops of the n-th event.
pub mod Projection
use metaso_p2p.Prelude.{
  ℕ, zero, suc, ◌+◌, Bool, true, false, ◌&&◌, ◌||◌, not, Option, none, some, List, [], ◌∷◌, ◌++◌,
  length, if◌then◌else◌,
}
use metaso_p2p.Prelude.Int.{ℤ, pos, ◌+ℤ◌, ltb_ℤ, eqb_ℤ, wrap64}
use metaso_p2p.Prelude.Text.{Str, codes, str_eq, str_ltb}
use metaso_p2p.Prelude.Assoc.{Assoc, lookup, insert, keys}
use metaso_p2p.Prelude.Sort.{sort_stable}
use metaso_p2p.Agentpedia.Value.{
  Float, Value, Fields, get, number_of, or_zero, str, sub, fields_of, as_string_slice, put_numbers,
}
use metaso_p2p.Agentpedia.State.{
  Event, Options, duplicate_genesis, constitution_without_effective_proposal, no_genesis,
  unknown_path, Reason, Editor, State, new_state,
}
use metaso_p2p.Agentpedia.Store.{grave, change_editor}
use metaso_p2p.Agentpedia.Access.{Context, pint, times64}
use metaso_p2p.Agentpedia.Expiry.{close_expired}
use metaso_p2p.Agentpedia.Rulings.{apply_ruling, apply_param_proposal}
use metaso_p2p.Agentpedia.Editors.{apply_editor}
use metaso_p2p.Agentpedia.Reviews.{apply_review, apply_challenge}
use metaso_p2p.Agentpedia.Revisions.{apply_rev}
use metaso_p2p.Agentpedia.Replay.Projection.{View, show}

-- The protocol paths.
abbrev pub path_rev : Str
path_rev = codes "/protocols/agentpedia/rev"

abbrev pub path_challenge : Str
path_challenge = codes "/protocols/agentpedia/challenge"

abbrev pub path_ruling : Str
path_ruling = codes "/protocols/agentpedia/ruling"

abbrev pub path_review : Str
path_review = codes "/protocols/agentpedia/review"

abbrev pub path_editor : Str
path_editor = codes "/protocols/agentpedia/editor"

abbrev pub path_constitution : Str
path_constitution = codes "/protocols/agentpedia/constitution"

abbrev pub path_param_proposal : Str
path_param_proposal = codes "/protocols/agentpedia/param-proposal"

-- The loop over the founders.
unfoldable pub found : ℤ → List Str → State → State
unfolding change_editor
found h [] s = s
found h (f ∷ fs) s =
    found h fs (change_editor f (λ ed. record ed { founder = true; registered_at = some h }) s)

-- The loop over the reputations of the scenario.
unfoldable pub give_reputations : Assoc Float → State → State
unfolding change_editor
give_reputations [] s = s
give_reputations ((id, rep) ∷ reps) s =
    give_reputations reps (change_editor id (λ ed. record ed { reputation = rep }) s)

abbrev pub params_field : Event → Fields
params_field ev = fields_of (sub ev.payload (codes "params"))

module _ (ctx : Context) where
  abbrev pub founders_field : Event → List Str
  founders_field ev = as_string_slice (get ev.payload (codes "founders"))

  -- The parameters, the founders and the heights that the genesis sets.
  unfoldable pub constituted : Event → State → State
  unfolding put_numbers
  constituted ev s =
      let t : State = record s {
        params = some (put_numbers (params_field ev) []);
        genesis_height = ev.height;
        founders = founders_field ev;
      } in
      record t {
        bootstrap_end_h =
            wrap64 (ev.height +ℤ times64 (pint t (codes "bootstrapWindowDays") 30) ctx.bpd);
      }

  unfoldable pub genesis : Event → State → State
  unfolding as_string_slice constituted found give_reputations
  genesis ev s =
      give_reputations ctx.opts.editors_rep (found ev.height (founders_field ev) (constituted ev s))

  -- A parameter proposal that is effective allows the event.
  unfoldable pub amendable : Event → State → Bool
  amendable ev s = elim (lookup (str ev.payload (codes "proposalPin")) s.param_proposals) [
    | none ↦ false
    | some pp ↦ pp.effective
  ]

  -- A revision of the parameters. Writing into the nil map is a panic, `none`.
  unfoldable pub amend : Event → State → Option State
  unfolding amendable put_numbers
  amend ev s =
      if not (amendable ev s)
      then some (grave ev.pin constitution_without_effective_proposal s)
      else elim s.params [
        | some ps ↦ some (record s { params = some (put_numbers (params_field ev) ps) })
        | none ↦ elim (put_numbers (params_field ev) []) [ [] ↦ some s | _ ↦ none ]
      ]

  unfoldable pub constitution : Event → State → Option State
  unfolding number_of genesis amend
  constitution ev s =
      let revision = or_zero (number_of (get ev.payload (codes "revision"))) in
      if eqb_ℤ revision.num (pos 0)
      then elim s.params [
        | some ps ↦ some (grave ev.pin duplicate_genesis s)
        | none ↦ some (genesis ev s)
      ]
      else amend ev s

  -- The second `switch` on the path.
  unfoldable pub dispatch : (List Str → List Str) → Event → State → Option State
  unfolding apply_editor apply_review apply_challenge apply_ruling apply_param_proposal apply_rev
  dispatch order ev s =
      if str_eq ev.path path_editor
      then some (apply_editor ctx order ev s)
      else if str_eq ev.path path_review
      then some (apply_review order ev s)
      else if str_eq ev.path path_challenge
      then some (apply_challenge ctx order ev s)
      else if str_eq ev.path path_ruling
      then apply_ruling ctx ev s
      else if str_eq ev.path path_param_proposal
      then some (apply_param_proposal ctx ev s)
      else if str_eq ev.path path_rev
      then apply_rev ctx ev s
      else some (grave ev.pin unknown_path s)

  -- What follows `closeExpired` in `apply`.
  unfoldable pub handle : (List Str → List Str) → Event → State → Option State
  unfolding constitution dispatch
  handle order ev s =
      if str_eq ev.path path_constitution
      then constitution ev s
      else elim s.params [ none ↦ some (grave ev.pin no_genesis s) | some ps ↦ dispatch order ev s ]

  unfoldable pub apply : (List Str → List Str) → Event → State → Option State
  unfolding handle close_expired
  apply order ev s = handle order ev (close_expired ev.height (order (keys s.proposals)) s)

  -- The loop over the ordered events; a panic ends it.
  unfoldable pub apply_all : (ℕ → List Str → List Str) → ℕ → List Event → State → Option State
  unfolding apply
  apply_all orders n [] s = some s
  apply_all orders n (ev ∷ evs) s = elim (apply (orders n) ev s) [
    | none ↦ none
    | some t ↦ apply_all orders (suc n) evs t
  ]

-- The pins of the mempool, and the events of the chain.
unfoldable pub pending_pins : List Event → List Str
pending_pins [] = []
pending_pins (e ∷ es) =
    let rest = pending_pins es in if ltb_ℤ e.height (pos 0) then e.pin ∷ rest else rest

unfoldable pub confirmed : List Event → List Event
confirmed [] = []
confirmed (e ∷ es) = let rest = confirmed es in if ltb_ℤ e.height (pos 0) then rest else e ∷ rest

unfoldable pub chain_less : Event → Event → Bool
chain_less a b =
    if not (eqb_ℤ a.height b.height) then ltb_ℤ a.height b.height else ltb_ℤ a.tx_index b.tx_index

unfoldable pub ordered : List Event → List Event
unfolding confirmed chain_less sort_stable
ordered es = sort_stable chain_less (confirmed es)

unfoldable pub last_height : List Event → ℤ
last_height [] = pos 0
last_height (e ∷ []) = e.height
last_height (e ∷ f ∷ es) = last_height (f ∷ es)

-- The replay up to the projection: every event in order, then the expiries that are left.
unfoldable pub replay_state : Context → (ℕ → List Str → List Str) → List Event → Option State
unfolding pending_pins ordered apply_all last_height close_expired
replay_state ctx orders es =
    let evs = ordered es in
    elim (apply_all ctx orders 0 evs (record new_state { pending = pending_pins es })) [
      | none ↦ none
      | some s ↦ some (
          close_expired (wrap64 (last_height evs +ℤ pos 1)) (orders (length evs) (keys s.proposals))
            s)
    ]

-- A number of blocks, or its default.
unfoldable pub or_default : ℤ → ℕ → ℕ
or_default (pos (suc n)) d = suc n
or_default _ d = d

-- The context of a replay with the options.
unfoldable pub context_of : (Str → ℕ) → ℕ → Options → Context
unfolding or_default
context_of sort_key max_cap opts = record {
  opts = opts;
  bph = or_default opts.blocks_per_hour 6;
  bpd = or_default opts.blocks_per_day 144;
  sort_key = sort_key;
  max_cap = max_cap;
}

abbrev pub last_of : List Event → Option ℤ
last_of [] = none
last_of (e ∷ es) = some (last_height (e ∷ es))

-- `Replay`; `none` is a panic.
unfoldable pub replay :
    (Str → ℕ) → ℕ → Options → (ℕ → List Str → List Str) → List Event → Option View
unfolding context_of replay_state show
replay sort_key max_cap opts orders es =
    elim (replay_state (context_of sort_key max_cap opts) orders es) [
      | none ↦ none
      | some s ↦ some (show (context_of sort_key max_cap opts) (last_of (ordered es)) s)
    ]
