-- ===== src/Agentpedia/Replay/Projection.antt =====
-- The view that `Replay` returns (internal/agentpedia/replay.go).
use metaso_p2p.Prelude.{ℕ, Bool, false, Option, none, some, List, [], ◌∷◌, if◌then◌else◌}
use metaso_p2p.Prelude.Int.{ℤ, pos, eqb_ℤ}
use metaso_p2p.Prelude.Text.{Str, str_ltb, is_empty}
use metaso_p2p.Prelude.Assoc.{Assoc, lookup, keys}
use metaso_p2p.Prelude.Sort.{sort_stable}
use metaso_p2p.Agentpedia.Value.{Float}
use metaso_p2p.Agentpedia.State.{
  Version, Contest, Grave, EntryStatus, EntryRec, Editor, Outcome, ProposalState, Proposal, State,
}
use metaso_p2p.Agentpedia.Store.{record_at}
use metaso_p2p.Agentpedia.Access.{Context, Tier, no_tier, tier_of}

pub record Entry : Type 0 where
  pub head : Str
  pub status : EntryStatus
  pub history : List Str
  pub disputed : List Str
  pub contests : List Contest
  pub redirect : Option Str
  pub frozen_at : Str
  pub baseline_rev : Str
  pub versions : Assoc Version

pub data EditorStatus : Type 0 where
  active pending unlisted : EditorStatus

pub record EditorState : Type 0 where
  pub status : EditorStatus
  pub tier : Tier
  pub reputation : Float
  pub valid_revs : ℕ
  pub registered_at : Option ℤ
  pub revoked : Bool
  pub banned : Bool

pub record ProposalView : Type 0 where
  pub state : ProposalState
  pub outcome : Outcome
  pub approve_count : ℕ
  pub arbiters : List Str
  pub entry_key : Str
  pub baseline_rev : Str

pub record View : Type 0 where
  pub entries : Assoc Entry
  pub graveyard : List Grave
  pub pending : List Str
  pub editors : Assoc EditorState
  pub proposals : Assoc ProposalView
  pub params : Option (Assoc Float)
  pub founders : List Str

-- `plateOf`, with `transferSlugAliasPlate` set as the code sets it.
unfoldable pub plate_of : State → Str → EntryRec → Option Str
plate_of s key en =
    let own = (if is_empty en.redirect then none else some en.redirect) in
    elim (lookup key s.alias_of) [ none ↦ own | some to ↦ if is_empty to then own else some to ]

unfoldable pub show_entry : State → Str → EntryRec → Entry
unfolding plate_of sort_stable
show_entry s key en = record {
  head = en.head;
  status = en.status;
  history = en.history;
  disputed = sort_stable str_ltb (keys en.disputed);
  contests = en.contests;
  redirect = plate_of s key en;
  frozen_at = en.frozen_at;
  baseline_rev = en.baseline_rev;
  versions = en.versions;
}

abbrev is_blank : EntryRec → Bool
is_blank en = elim en.history [ [] ↦ is_empty en.head | _ ↦ false ]

unfoldable pub show_entries : State → Assoc ℕ → Assoc Entry
unfolding show_entry
show_entries s [] = []
show_entries s ((key, i) ∷ ens) =
    let rest = show_entries s ens in
    if is_blank (record_at i s) then rest else (key, show_entry s key (record_at i s)) ∷ rest

unfoldable pub status_of : Editor → EditorStatus
status_of ed = elim ed.registered_at [
  | some at ↦ active
  | none ↦ if eqb_ℤ ed.register_h (pos 0) then unlisted else pending
]

-- The tier is that at the last height, and `no_tier`, the null, where no event is ordered.
unfoldable pub show_editors : Context → State → Option ℤ → Assoc Editor → Assoc EditorState
unfolding status_of tier_of
show_editors ctx s last [] = []
show_editors ctx s last ((id, ed) ∷ eds) =
    (
      id,
      record {
        status = status_of ed;
        tier = elim last [ none ↦ no_tier | some h ↦ tier_of ctx s id h ];
        reputation = ed.reputation;
        valid_revs = ed.valid_revs;
        registered_at = ed.registered_at;
        revoked = ed.revoked;
        banned = ed.banned;
      },
    )
    ∷ show_editors ctx s last eds

unfoldable pub show_proposals : Assoc Proposal → Assoc ProposalView
show_proposals [] = []
show_proposals ((pin, p) ∷ ps) =
    (
      pin,
      record {
        state = p.state;
        outcome = p.outcome;
        approve_count = p.approve_count;
        arbiters = p.arbiters;
        entry_key = p.entry_key;
        baseline_rev = p.baseline_rev;
      },
    )
    ∷ show_proposals ps

unfoldable pub show : Context → Option ℤ → State → View
unfolding show_entries show_editors show_proposals
show ctx last s = record {
  entries = show_entries s s.entries;
  graveyard = s.graveyard;
  pending = s.pending;
  editors = show_editors ctx s last s.editors;
  proposals = show_proposals s.proposals;
  params = s.params;
  founders = s.founders;
}
