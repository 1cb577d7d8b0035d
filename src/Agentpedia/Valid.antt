-- ===== src/Agentpedia/Valid.antt =====
-- What holds of the editors and the proposals of every replay (internal/agentpedia/replay.go).
pub mod Outcomes
pub mod Ballots
pub mod Registry
pub mod Records
pub mod Replays
use metaso_p2p.Prelude.{
  ℕ, ◌≤◌, ◌≡◌, refl, arith, ◌⊎◌, inl, inr, Bool, true, false, Option, none, some, List, [], ◌∷◌,
  length, All, option_either, subst,
}
use metaso_p2p.Prelude.Text.{Str}
use metaso_p2p.Prelude.Assoc.{Assoc, lookup, insert, flag, DistinctKeys, All-insert, All-lookup}
use metaso_p2p.Agentpedia.State.{Editor, new_editor, ProposalState, effective, Proposal, State}
use metaso_p2p.Agentpedia.Store.{editor_at, change_editor}
use metaso_p2p.Agentpedia.Access.{contains}

-- An editor has different endorsers, none of them himself, and is registered only as a founder or
-- with two of them at least.
pub record IsEndorsed (e : Str × Editor) : Type 0 where
  pub distinct : DistinctKeys e.1.endorsements
  pub not_self : lookup e.0 e.1.endorsements ≡ none
  pub earned : (e.1.founder ≡ true) ⊎ ((e.1.registered_at ≡ none) ⊎ (2 ≤ length e.1.endorsements))

-- The approvals of a proposal are by different arbiters who voted; their number is counted, and
-- is not zero if the proposal is effective.
pub record IsCounted (e : Str × Proposal) : Type 0 where
  pub distinct : DistinctKeys e.1.approves
  pub by_arbiters : All (λ a. contains e.1.arbiters a.0 ≡ true) e.1.approves
  pub by_voters : All (λ a. flag a.0 e.1.voters ≡ true) e.1.approves
  pub counted : e.1.approve_count ≡ length e.1.approves
  pub approved : e.1.state ≡ effective → 1 ≤ e.1.approve_count

abbrev pub IsValid : State → Type 0
IsValid s = All IsEndorsed s.editors × All IsCounted s.proposals

-- The same, as one fact.
pub record Kept (s : State) : Type 0 where
  pub at : IsValid s

abbrev pub kept : (s : State) → IsValid s → Kept s
kept s h = record { at = h }

-- The same of a state that is not a panic.
pub record Safe (o : Option State) : Type 0 where
  pub at : (s : State) → o ≡ some s → IsValid s

pub Safe-none : Safe none
Safe-none = record { at = λ s e. cc }

pub Safe-some : (s : State) → IsValid s → Safe (some s)
Safe-some s h = record {
  at = λ t e. subst (λ u. elim u [ none ↦ IsValid s | some v ↦ IsValid v ]) e h;
}

new_editor-IsEndorsed : (id : Str) → IsEndorsed (id, new_editor)
unfolding lookup
new_editor-IsEndorsed id = record { distinct = tt; not_self = refl; earned = inr (inl refl) }

pub editor_at-IsEndorsed :
    (id : Str) (m : Assoc Editor) → All IsEndorsed m → IsEndorsed (id, editor_at id m)
editor_at-IsEndorsed id m h =
    option_either (λ ed. IsEndorsed (id, ed)) (lookup id m) new_editor (λ ed. ed)
      (λ _. new_editor-IsEndorsed id) (λ ed. All-lookup IsEndorsed id ed m h)

pub change_editor-IsValid :
    (id : Str) (f : Editor → Editor) (s : State)
    → ((ed : Editor) → IsEndorsed (id, ed) → IsEndorsed (id, f ed))
    → IsValid s
    → IsValid (change_editor id f s)
unfolding change_editor
change_editor-IsValid id f s keep h = (
  All-insert IsEndorsed id (f (editor_at id s.editors)) s.editors
      (keep (editor_at id s.editors) (editor_at-IsEndorsed id s.editors h.0)) h.0,
  h.1,
)

-- A change that leaves the registration and the endorsements alone.
pub change_editor-same :
    (id : Str) (f : Editor → Editor) (s : State)
    → ((ed : Editor) → (f ed).founder ≡ ed.founder)
    → ((ed : Editor) → (f ed).registered_at ≡ ed.registered_at)
    → ((ed : Editor) → (f ed).endorsements ≡ ed.endorsements)
    → IsValid s
    → IsValid (change_editor id f s)
change_editor-same id f s p q r = change_editor-IsValid id f s (λ ed h. record {
  distinct = rw (r ed) h.distinct;
  not_self = rw (r ed) h.not_self;
  earned = rw (p ed, q ed, r ed) h.earned;
})

pub put_proposal-IsValid :
    (pin : Str) (p : Proposal) (s : State)
    → IsCounted (pin, p)
    → IsValid s
    → IsValid (record s { proposals = insert pin p s.proposals })
put_proposal-IsValid pin p s c h = (h.0, All-insert IsCounted pin p s.proposals c h.1)
