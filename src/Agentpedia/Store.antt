-- ===== src/Agentpedia/Store.antt =====
-- What the code reads and changes of the state through its maps and pointers
-- (internal/agentpedia/replay.go).
use metaso_p2p.Prelude.{
  ℕ, Bool, true, false, Option, none, some, List, [], ◌∷◌, ◌++◌, get_elem?, modify, length,
}
use metaso_p2p.Prelude.Text.{Str}
use metaso_p2p.Prelude.Assoc.{Assoc, lookup, insert}
use metaso_p2p.Agentpedia.Value.{Float}
use metaso_p2p.Agentpedia.State.{
  Reason, Version, no_version, Editor, new_editor, EntryRec, new_entry, State,
}

abbrev pub grave : Str → Reason → State → State
grave pin reason s = record s {
  graveyard = s.graveyard ++ record { pin = pin; reason = reason } ∷ [];
}

-- s.params[key], or the default
unfoldable pub pfloat : State → Str → Float → Float
pfloat s k d = elim s.params [ none ↦ d | some ps ↦ elim (lookup k ps) [ none ↦ d | some f ↦ f ] ]

-- *s.editorOf(id), whether or not the map has it
abbrev pub editor_at : Str → Assoc Editor → Editor
editor_at id m = elim (lookup id m) [ none ↦ new_editor | some ed ↦ ed ]

-- A change through the pointer that `editorOf` returns.
unfoldable pub change_editor : Str → (Editor → Editor) → State → State
change_editor id f s = record s { editors = insert id (f (editor_at id s.editors)) s.editors }

-- s.editorOf(id)
abbrev pub touch_editor : Str → State → State
touch_editor id s = change_editor id (λ ed. ed) s

-- s.entryOf(key): the state with the record, and the record's place.
unfoldable pub entry_of : Str → State → State × ℕ
entry_of k s = elim (lookup k s.entries) [
  | some i ↦ (s, i)
  | none ↦ (
    record s {
      entries = insert k (length s.records) s.entries;
      records = s.records ++ new_entry k ∷ [];
    },
    length s.records,
  )
]

-- The record at a place.
abbrev pub record_at : ℕ → State → EntryRec
record_at i s = elim (get_elem? s.records i) [ none ↦ new_entry [] | some en ↦ en ]

-- A change through a pointer to a record.
unfoldable pub change_record : ℕ → (EntryRec → EntryRec) → State → State
change_record i f s = record s { records = modify f s.records i }

-- *s.entries[key]
abbrev pub entry_at : Str → State → Option EntryRec
entry_at k s = elim (lookup k s.entries) [ none ↦ none | some i ↦ get_elem? s.records i ]

-- en.versions[rev]
abbrev pub version_at : Str → EntryRec → Version
version_at rev en = elim (lookup rev en.versions) [ none ↦ no_version | some v ↦ v ]

abbrev pub has_version : Str → EntryRec → Bool
has_version rev en = elim (lookup rev en.versions) [ none ↦ false | some v ↦ true ]

-- m[k] on a `map[string]int`
abbrev pub count_at : Str → Assoc ℕ → ℕ
count_at k m = elim (lookup k m) [ none ↦ 0 | some n ↦ n ]

-- The keys in the order in which a `range` visits them, with their values.
unfoldable pub ranged {ℓ} : {V : Type ℓ} → List Str → Assoc V → List (Str × V)
ranged [] m = []
ranged (k ∷ ks) m = elim (lookup k m) [ none ↦ ranged ks m | some v ↦ (k, v) ∷ ranged ks m ]
