-- ===== src/Agentpedia/Expiry/Races.antt =====
-- Two proposals of one frozen entry that expire together (internal/agentpedia/replay.go).
use metaso_p2p.Prelude.{
  ℕ, ◌≡◌, ◌≢◌, ap, ◌∙◌, arith, true, false, Option, none, some, [], ◌∷◌, get_elem?, modify,
  get_elem?-modify_self,
}
use metaso_p2p.Prelude.Int.{ℤ}
use metaso_p2p.Prelude.Text.{Str, str_eq, str_eq_iff, is_empty}
use metaso_p2p.Prelude.Assoc.{lookup}
use metaso_p2p.Agentpedia.State.{EntryRec, frozen, Proposal, State}
use metaso_p2p.Agentpedia.Expiry.{is_expired, thaw, close_one, close_expired}
use metaso_p2p.Agentpedia.Expiry.Visits.{round_effect, lookup-close_one, entries-close_one}

-- The head of a record.
abbrev pub head_at : ℕ → State → Option Str
head_at i s = elim (get_elem? s.records i) [ none ↦ none | some en ↦ some en.head ]

-- A proposal that expires at the height, and whose key has the record at the place.
pub record Expires (h : ℤ) (s : State) (i : ℕ) (pin : Str) (p : Proposal) : Type 0 where
  pub stored : lookup pin s.proposals ≡ some p
  pub expired : is_expired h p ≡ true
  pub keyed : is_empty p.entry_key ≡ false
  pub placed : lookup p.entry_key s.entries ≡ some i

module _ (h : ℤ) (s : State) (i : ℕ) where
  two_rounds :
      (a b : Str) (p q : Proposal)
      → str_eq a b ≡ false
      → Expires h s i a p
      → Expires h s i b q
      → (close_expired h (a ∷ b ∷ []) s).records
        ≡ modify (thaw q.baseline_rev) (modify (thaw p.baseline_rev) s.records i) i
  unfolding close_expired
  two_rounds a b p q ne x y =
      round_effect h (close_one h s a) b q i (lookup-close_one h s a b ne ∙ y.stored) y.expired
        y.keyed (ap (lookup q.entry_key) (entries-close_one h s a) ∙ y.placed)
      ∙ ap (λ rs. modify (thaw q.baseline_rev) rs i)
          (round_effect h s a p i x.stored x.expired x.keyed x.placed)

  head-two_rounds :
      (a b : Str) (p q : Proposal) (en : EntryRec)
      → str_eq a b ≡ false
      → Expires h s i a p
      → Expires h s i b q
      → get_elem? s.records i ≡ some en
      → head_at i (close_expired h (a ∷ b ∷ []) s)
        ≡ some (thaw q.baseline_rev (thaw p.baseline_rev en)).head
  head-two_rounds a b p q en ne x y e =
      ap (λ rs. elim (get_elem? rs i) [ none ↦ none | some en ↦ some en.head ])
        (two_rounds a b p q ne x y)
      ∙ ap (λ o. elim o [ none ↦ none | some en ↦ some en.head ])
          (get_elem?-modify_self (thaw q.baseline_rev) (modify (thaw p.baseline_rev) s.records i) i
            (thaw p.baseline_rev en) (get_elem?-modify_self (thaw p.baseline_rev) s.records i en e))

  -- Two proposals that have expired, and whose keys have the record of one frozen entry, race if
  -- one has no baseline and the other has: visited first, the one without leaves the head of the
  -- entry as it is, and the one with moves it to its baseline.
  pub close_expired_races :
      (a b : Str) (p q : Proposal) (en : EntryRec)
      → a ≢ b
      → Expires h s i a p
      → Expires h s i b q
      → get_elem? s.records i ≡ some en
      → en.status ≡ frozen
      → is_empty p.baseline_rev ≡ true
      → is_empty q.baseline_rev ≡ false
      → (head_at i (close_expired h (a ∷ b ∷ []) s) ≡ some en.head)
        × (head_at i (close_expired h (b ∷ a ∷ []) s) ≡ some q.baseline_rev)
  unfolding thaw
  close_expired_races a b p q en ne x y e f l m =
      let ab : str_eq a b ≡ false = ground (arith, str_eq_iff a b, ne) in
      let ba : str_eq b a ≡ false = ground (arith, str_eq_iff b a, str_eq_iff a b, ab) in
      (
        head-two_rounds a b p q en ab x y e ∙ ground (arith, f, l, m),
        head-two_rounds b a q p en ba y x e ∙ ground (arith, f, l, m),
      )
