-- ===== src/Agentpedia/Expiry.antt =====
-- `closeExpired` and `applyOutcome` (internal/agentpedia/replay.go): how proposals leave the state
-- in which they are open.
pub mod Visits
pub mod Races
use metaso_p2p.Prelude.{
  ℕ, suc, Bool, true, false, ◌&&◌, not, Option, none, some, List, [], ◌∷◌, ◌++◌, get_elem?, ◌==◌,
  if◌then◌else◌,
}
use metaso_p2p.Prelude.Int.{ℤ, pos, negsuc, leb_ℤ}
use metaso_p2p.Prelude.Text.{Str, codes, is_empty}
use metaso_p2p.Prelude.Assoc.{lookup, insert, without}
use metaso_p2p.Agentpedia.Value.{Float, float_of, add_float, text_of, get, str}
use metaso_p2p.Agentpedia.State.{
  Version, no_version, Editor, EntryStatus, normal, protected, EntryRec, Challenge, Outcome,
  revert_to, transfer_slug, warn_editor, slash_stake_half, slash_stake_full, ban_editor,
  confirm_goodfaith, protect, unprotect, dismiss, unfreeze, ProposalState, opened, effective,
  voided, Proposal, State,
}
use metaso_p2p.Agentpedia.Store.{change_editor, change_record, version_at}
use metaso_p2p.Agentpedia.Access.{is_frozen}

abbrev pub is_opened : ProposalState → Bool
is_opened opened = true
is_opened _ = false

-- What the expiry of a proposal does to its entry: a frozen one returns to the baseline.
unfoldable pub thaw : Str → EntryRec → EntryRec
thaw baseline en =
    if is_frozen en.status
    then record en { head = if is_empty baseline then en.head else baseline; status = normal }
    else en

-- The entry of a proposal that expired.
unfoldable pub thaw_entry : Proposal → State → State
unfolding thaw change_record
thaw_entry p s = if is_empty p.entry_key then s else elim (lookup p.entry_key s.entries) [
  | none ↦ s
  | some i ↦ change_record i (thaw p.baseline_rev) s
]

abbrev pub is_expired : ℤ → Proposal → Bool
is_expired h p = is_opened p.state && leb_ℤ p.expiry_h h

-- The round of the loop at one proposal.
unfoldable pub close_one : ℤ → State → Str → State
unfolding thaw_entry
close_one h s pin = elim (lookup pin s.proposals) [
  | none ↦ s
  | some p ↦
      if is_expired h p
      then thaw_entry p
          (record s { proposals = insert pin (record p { state = voided }) s.proposals })
      else s
]

-- `closeExpired`, with the order in which the `range` visits the proposals.
unfoldable pub close_expired : ℤ → List Str → State → State
unfolding close_one
close_expired h [] s = s
close_expired h (pin ∷ pins) s = close_expired h pins (close_one h s pin)

-- `bareSlug`: what follows the first colon.
unfoldable pub bare_slug : Str → Str
bare_slug [] = []
bare_slug (c ∷ key) = let rest = bare_slug key in if c == 58 then key else rest

-- The change of reputation of an outcome.
unfoldable pub delta_of : Outcome → Option ℤ
delta_of confirm_goodfaith = some (pos 1)
delta_of warn_editor = some (negsuc 0)
delta_of slash_stake_half = some (negsuc 1)
delta_of slash_stake_full = some (negsuc 4)
delta_of ban_editor = some (negsuc 4)
delta_of _ = none

-- The suffix of the pin that an effective revert-to makes the head.
abbrev pub rev_suffix : Str
rev_suffix = codes "::rev"

unfoldable pub reverted : Proposal → EntryRec → EntryRec
reverted p en =
    let target = version_at (str p.params (codes "revertTo")) en in
    let eq = p.pin ++ rev_suffix in
    record en {
      versions =
          insert eq
            (record {
              content_hash = target.content_hash;
              author = p.proposer;
              parent_rev = en.head;
              based_on = [];
              summary = [];
              entry_key = p.entry_key;
              equivalent_of = p.pin;
            })
            en.versions;
      head = eq;
      history = en.history ++ eq ∷ [];
    }

-- transfer-slug: the target key gets the record of the source key.
unfoldable pub transfer : Proposal → State → State
unfolding bare_slug
transfer p s =
    let from = str p.params (codes "fromEntry") in
    let to = str p.params (codes "toEntry") in
    let slug = bare_slug to in
    elim (lookup from s.entries) [
      | none ↦ s
      | some i ↦ record s {
        entries = insert to i s.entries;
        alias_of = if is_empty slug then s.alias_of else insert from slug s.alias_of;
      }
    ]

unfoldable pub dismissed : Proposal → State → EntryRec → EntryRec
dismissed p s en = elim (lookup p.challenge_pin s.challenges) [
  | none ↦ en
  | some ch ↦ record en { disputed = without ch.target_rev en.disputed }
]

unfoldable pub unfrozen : EntryRec → EntryRec
unfrozen en = if is_frozen en.status then record en { status = normal } else en

-- The record of the proposal's key, changed; a missing record is a panic, `none`.
unfoldable pub on_entry : Proposal → (EntryRec → EntryRec) → State → Option State
unfolding change_record
on_entry p f s = elim (lookup p.entry_key s.entries) [
  | none ↦ none
  | some i ↦ some (change_record i f s)
]

-- The `switch` on the outcome.
unfoldable pub entry_outcome : Outcome → Proposal → State → Option State
unfolding on_entry reverted dismissed unfrozen transfer
entry_outcome dismiss p s = elim (lookup p.challenge_pin s.challenges) [
  | none ↦ some s
  | some ch ↦ on_entry p (dismissed p s) s
]
entry_outcome revert_to p s = on_entry p (reverted p) s
entry_outcome protect p s = on_entry p (λ en. record en { status = protected }) s
entry_outcome unprotect p s = on_entry p (λ en. record en { status = normal }) s
entry_outcome unfreeze p s = on_entry p unfrozen s
entry_outcome transfer_slug p s = some (transfer p s)
entry_outcome _ p s = some s

abbrev is_ban : Outcome → Bool
is_ban ban_editor = true
is_ban _ = false

unfoldable pub sanctioned : Outcome → ℤ → Editor → Editor
unfolding add_float
sanctioned o d ed = record ed {
  reputation = add_float ed.reputation (float_of d);
  banned = if is_ban o then true else ed.banned;
}

-- The reputation of the editor that the parameters name, and the ban.
unfoldable pub editor_outcome : Proposal → State → State
unfolding delta_of change_editor sanctioned
editor_outcome p s =
    let editor = str p.params (codes "editor") in
    elim (delta_of p.outcome) [
      | none ↦ s
      | some d ↦ if is_empty editor then s else change_editor editor (sanctioned p.outcome d) s
    ]

-- `applyOutcome`, for the proposal of a key.
unfoldable pub apply_outcome : Str → Proposal → State → Option State
unfolding entry_outcome editor_outcome
apply_outcome key p s =
    let s' : State = record s {
      proposals = insert key (record p { state = effective }) s.proposals;
    } in
    elim (if is_empty p.entry_key then some s' else entry_outcome p.outcome p s') [
      | none ↦ none
      | some t ↦ some (editor_outcome p t)
    ]
