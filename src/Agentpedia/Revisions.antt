-- ===== src/Agentpedia/Revisions.antt =====
-- `applyRev` (internal/agentpedia/replay.go): create, edit, revert and redirect.
pub mod Gates
pub mod Refused
use metaso_p2p.Prelude.{
  ℕ, ◌*◌, Bool, true, false, ◌&&◌, ◌||◌, not, Option, none, some, List, [], ◌∷◌, ◌++◌, get_elem?,
  if◌then◌else◌,
}
use metaso_p2p.Prelude.Int.{ℤ, pos, ◌-ℤ◌, ltb_ℤ, wrap64}
use metaso_p2p.Prelude.Text.{Str, codes, str_eq, is_empty}
use metaso_p2p.Prelude.Assoc.{Assoc, lookup, insert}
use metaso_p2p.Agentpedia.Value.{Float, float_of, add_float, str, sub, fields_of}
use metaso_p2p.Agentpedia.State.{
  Event, Reason, duplicate_create, edit_without_entry, revert_without_entry, revert_entry_mismatch,
  revert_target_unresolvable, revert_hash_mismatch, redirect_without_entry, redirect_target_missing,
  rev_type_unknown, Version, Contest, EntryStatus, normal, frozen, RevertWeight, EntryRec, State,
}
use metaso_p2p.Agentpedia.Store.{
  grave, entry_of, record_at, change_record, entry_at, version_at, has_version,
}
use metaso_p2p.Agentpedia.Access.{
  Context, count_root, check_rev_gates, count_rev, is_normal, pint, reaches, times64,
}
use metaso_p2p.Agentpedia.Draw.{drawn}
use metaso_p2p.Agentpedia.Versions.{
  put_head, created, edited, eq_pin, restored, redirected, is_fix, fixed_before, revert_weight_for,
  kept, cumulative, somewhere, freeze,
}

module _ (ctx : Context) where
  -- The weights of the entry with the one of this revert.
  unfoldable pub weighed : Event → State → EntryRec → EntryRec
  unfolding revert_weight_for kept is_fix
  weighed ev s en =
      let window = times64 (pint s (codes "revertWarWindowHours") 6) ctx.bph in
      let weight : RevertWeight = record {
        h = ev.height;
        editor = count_root ctx ev.sender;
        weight = revert_weight_for ctx en ev;
        vf = is_fix ev;
      } in
      record en {
        revert_weights = kept (wrap64 (ev.height -ℤ window)) en.revert_weights ++ weight ∷ [];
      }

  -- The set that may write a frozen entry.
  unfoldable pub freeze_writers : Event → Str → State → Option (List Str)
  unfolding drawn
  freeze_writers ev key s = elim (lookup key ctx.opts.frozen_arbiter_overrides) [
    | some ids ↦ some ids
    | none ↦ drawn ctx s ev.height ev.pin
  ]

  -- The edit-war accounting at the place of the entry, whose head before the revert is given.
  unfoldable pub account : Event → Str → ℕ → Str → State → Option State
  unfolding weighed cumulative freeze_writers freeze change_record
  account ev key i pre_head s =
      let en = weighed ev s (record_at i s) in
      let s' = change_record i (weighed ev s) s in
      if is_normal en.status
        && reaches s (codes "revertWarThreshold") 3
            (cumulative (float_of (pos 0)) en.revert_weights)
      then elim (freeze_writers ev key s) [
        | none ↦ none
        | some ids ↦ some (change_record i (freeze ev.pin pre_head ids) s')
      ]
      else some s'

  unfoldable pub create : Event → Str → ℕ → State → State
  unfolding created count_rev change_record
  create ev key i s =
      let en = record_at i s in
      if is_empty en.head
      then count_rev ctx ev en (change_record i (created ev key) s)
      else grave ev.pin duplicate_create s

  unfoldable pub edit : Event → Str → ℕ → State → State
  unfolding edited count_rev change_record
  edit ev key i s =
      let en = record_at i s in
      if is_empty en.head
      then grave ev.pin edit_without_entry s
      else count_rev ctx ev en (change_record i (edited ev key) s)

  -- Why a revert is refused, or `none`.
  unfoldable pub revert_fault : Event → Str → EntryRec → State → Option Reason
  unfolding somewhere
  revert_fault ev key en s =
      let rev = str ev.payload (codes "revertTo") in
      let target = version_at rev en in
      if is_empty en.head
      then some revert_without_entry
      else if not (has_version rev en)
      then some
          (if somewhere rev s s.entries then revert_entry_mismatch else revert_target_unresolvable)
      else if not (str_eq target.entry_key key)
      then some revert_entry_mismatch
      else if not (str_eq (str ev.payload (codes "contentHash")) target.content_hash)
      then some revert_hash_mismatch
      else none

  unfoldable pub revert : Event → Str → ℕ → State → Option State
  unfolding revert_fault restored account count_rev change_record
  revert ev key i s =
      let en = record_at i s in
      elim (revert_fault ev key en s) [
        | some reason ↦ some (grave ev.pin reason s)
        | none ↦
            account ev key i en.head (count_rev ctx ev en (change_record i (restored ev key) s))
      ]

  -- The head of the entry that a redirect names.
  abbrev pub target_head : Event → State → Str
  target_head ev s =
      let slug = str ev.payload (codes "redirectTo") in
      elim (entry_at (str ev.payload (codes "lang") ++ 58 ∷ slug) s) [
        | none ↦ []
        | some en ↦ en.head
      ]

  unfoldable pub redirect : Event → ℕ → State → State
  unfolding redirected count_rev change_record
  redirect ev i s =
      let en = record_at i s in
      if is_empty en.head
      then grave ev.pin redirect_without_entry s
      else if is_empty (target_head ev s)
      then grave ev.pin redirect_target_missing s
      else count_rev ctx ev en (change_record i (redirected ev) s)

  -- The `switch` on the type, past the gates.
  unfoldable pub revise : Event → Str → ℕ → State → Option State
  unfolding create edit revert redirect
  revise ev key i s =
      let type = str ev.payload (codes "type") in
      if str_eq type (codes "create")
      then some (create ev key i s)
      else if str_eq type (codes "edit")
      then some (edit ev key i s)
      else if str_eq type (codes "revert")
      then revert ev key i s
      else if str_eq type (codes "redirect")
      then some (redirect ev i s)
      else some (grave ev.pin rev_type_unknown s)

  -- lang + ":" + slug
  abbrev pub key_of : Event → Str
  key_of ev = str ev.payload (codes "lang") ++ 58 ∷ str ev.payload (codes "slug")

  -- `applyRev` at the record of the entry.
  unfoldable pub gated_rev : Event → ℕ → State → Option State
  unfolding check_rev_gates revise
  gated_rev ev i s = elim (check_rev_gates ctx s ev (record_at i s)) [
    | some reason ↦ some (grave ev.pin reason s)
    | none ↦ revise ev (key_of ev) i s
  ]

  unfoldable pub apply_rev : Event → State → Option State
  unfolding entry_of gated_rev
  apply_rev ev s = let (s', i) = entry_of (key_of ev) s in gated_rev ev i s'
