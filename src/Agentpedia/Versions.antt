-- ===== src/Agentpedia/Versions.antt =====
-- The versions of an entry and the weights of its reverts (internal/agentpedia/replay.go).
use metaso_p2p.Prelude.{ℕ, Bool, false, ◌&&◌, ◌||◌, not, List, [], ◌∷◌, ◌++◌, if◌then◌else◌}
use metaso_p2p.Prelude.Int.{ℤ, pos, ltb_ℤ}
use metaso_p2p.Prelude.Text.{Str, codes, str_eq, is_empty}
use metaso_p2p.Prelude.Assoc.{Assoc, insert}
use metaso_p2p.Agentpedia.Value.{Float, float_of, add_float, str, sub, fields_of}
use metaso_p2p.Agentpedia.State.{Event, frozen, RevertWeight, EntryRec, State}
use metaso_p2p.Agentpedia.Store.{record_at, version_at, has_version}
use metaso_p2p.Agentpedia.Access.{Context, count_root}

-- A revision becomes the head and ends the history.
unfoldable pub put_head : Str → EntryRec → EntryRec
put_head rev en = record en { head = rev; history = en.history ++ rev ∷ [] }

unfoldable pub created : Event → Str → EntryRec → EntryRec
unfolding put_head
created ev key en = record (put_head ev.pin en) {
  versions =
      insert ev.pin
        (record {
          content_hash = str ev.payload (codes "contentHash");
          author = ev.sender;
          parent_rev = [];
          based_on = [];
          summary = str ev.payload (codes "summary");
          entry_key = key;
          equivalent_of = [];
        })
        en.versions;
}

unfoldable pub edited : Event → Str → EntryRec → EntryRec
unfolding put_head
edited ev key en =
    let based_on = str ev.payload (codes "basedOn") in
    record (put_head ev.pin en) {
      contests =
          if is_empty based_on || str_eq based_on en.head
          then en.contests
          else en.contests ++ record { pin = ev.pin; expected = en.head; declared = based_on } ∷ [];
      versions =
          insert ev.pin
            (record {
              content_hash = str ev.payload (codes "contentHash");
              author = ev.sender;
              parent_rev = str ev.payload (codes "parentRev");
              based_on = based_on;
              summary = str ev.payload (codes "summary");
              entry_key = key;
              equivalent_of = [];
            })
            en.versions;
    }

-- The pin of the equivalent version that a revert makes.
abbrev pub eq_pin : Event → Str
eq_pin ev = ev.pin ++ codes "::eq"

unfoldable pub restored : Event → Str → EntryRec → EntryRec
unfolding put_head
restored ev key en = record (put_head (eq_pin ev) en) {
  versions =
      insert (eq_pin ev)
        (record {
          content_hash = (version_at (str ev.payload (codes "revertTo")) en).content_hash;
          author = ev.sender;
          parent_rev = en.head;
          based_on = [];
          summary = [];
          entry_key = key;
          equivalent_of = ev.pin;
        })
        en.versions;
}

unfoldable pub redirected : Event → EntryRec → EntryRec
unfolding put_head
redirected ev en = record (put_head ev.pin en) { redirect = str ev.payload (codes "redirectTo") }

-- The revert claims to fix vandalism.
unfoldable pub is_fix : Event → Bool
is_fix ev =
    str_eq (str (fields_of (sub ev.payload (codes "claim"))) (codes "changeType"))
      (codes "vandalism-fix")

-- The editor has a weight for a fix already.
unfoldable pub fixed_before : Str → List RevertWeight → Bool
fixed_before root [] = false
fixed_before root (w ∷ ws) = str_eq w.editor root && w.vf || fixed_before root ws

abbrev half : Float
half = record { num = pos 1; den = 2 }

-- `revertWeightFor`
unfoldable pub revert_weight_for : Context → EntryRec → Event → Float
unfolding is_fix fixed_before
revert_weight_for ctx en ev =
    if is_fix ev && not (fixed_before (count_root ctx ev.sender) en.revert_weights)
    then half
    else float_of (pos 1)

-- The weights of the window.
unfoldable pub kept : ℤ → List RevertWeight → List RevertWeight
kept floor [] = []
kept floor (w ∷ ws) = let rest = kept floor ws in if ltb_ℤ floor w.h then w ∷ rest else rest

unfoldable pub cumulative : Float → List RevertWeight → Float
unfolding add_float
cumulative acc [] = acc
cumulative acc (w ∷ ws) = cumulative (add_float acc w.weight) ws

-- An entry of the map has the version.
unfoldable pub somewhere : Str → State → Assoc ℕ → Bool
somewhere rev s [] = false
somewhere rev s ((key, i) ∷ ens) = has_version rev (record_at i s) || somewhere rev s ens

-- The entry, frozen with its baseline and its writers.
unfoldable pub freeze : Str → Str → List Str → EntryRec → EntryRec
freeze pin baseline ids en = record en {
  status = frozen;
  frozen_at = pin;
  baseline_rev = baseline;
  frozen_arbiters = ids;
}
