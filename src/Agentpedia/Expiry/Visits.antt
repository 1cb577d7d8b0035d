-- ===== src/Agentpedia/Expiry/Visits.antt =====
-- When the order in which `closeExpired` visits the proposals is seen, and when not
-- (internal/agentpedia/replay.go).
use mathlib.Core.List.{Permᴰ}
use metaso_p2p.Prelude.{
  ℕ, zero, suc, ◌≡◌, ◌≢◌, refl, sym, ap, subst, ◌∙◌, arith, inl, inr, true, false, Option, none,
  some, List, [], ◌∷◌, modify, if◌then◌else◌, Bool-cases, Option-cases, ◌==◌, ==_iff,
}
use metaso_p2p.Prelude.Int.{ℤ}
use metaso_p2p.Prelude.Text.{Str, str_eq, str_eq_iff, is_empty}
use metaso_p2p.Prelude.Assoc.{Assoc, lookup, insert, lookup-insert}
use metaso_p2p.Agentpedia.State.{EntryRec, Proposal, voided, State}
use metaso_p2p.Agentpedia.Store.{change_record}
use metaso_p2p.Agentpedia.Expiry.{is_expired, thaw, thaw_entry, close_one, close_expired}

insert_swap :
    {V : Type 0} (a b : Str) (x y v w : V) (m : Assoc V)
    → str_eq a b ≡ false
    → lookup a m ≡ some v
    → lookup b m ≡ some w
    → insert a x (insert b y m) ≡ insert b y (insert a x m)
unfolding insert lookup
insert_swap a b x y v w [] ne p q = cc
insert_swap a b x y v w ((k, u) ∷ m) ne p q = ground (
  arith,
  insert_swap a b x y v w m ne,
  str_eq_iff a b,
  str_eq_iff b a,
  str_eq_iff k a,
  str_eq_iff k b,
)

modify_swap :
    {A : Type 0} (f g : A → A) (xs : List A) (i j : ℕ)
    → i ≢ j
    → modify f (modify g xs j) i ≡ modify g (modify f xs i) j
modify_swap f g [] i j ne = refl
modify_swap f g (x ∷ xs) zero zero ne = absurd (ne refl)
modify_swap f g (x ∷ xs) zero (suc j) ne = refl
modify_swap f g (x ∷ xs) (suc i) zero ne = refl
modify_swap f g (x ∷ xs) (suc i) (suc j) ne =
    ap (λ ys. x ∷ ys) (modify_swap f g xs i j (λ e. ne (ap suc e)))

module _ (h : ℤ) where
  abbrev voided_at : Str → Option Proposal → Assoc Proposal → Assoc Proposal
  voided_at pin none ps = ps
  voided_at pin (some p) ps =
      if is_expired h p then insert pin (record p { state = voided }) ps else ps

  -- The record that the round at a proposal returns to a baseline.
  abbrev pub effect : Assoc ℕ → Option Proposal → Option (ℕ × Str)
  effect ens none = none
  effect ens (some p) =
      if is_expired h p
      then if is_empty p.entry_key
        then none
        else elim (lookup p.entry_key ens) [ none ↦ none | some i ↦ some (i, p.baseline_rev) ]
      else none

  abbrev thawed : Option (ℕ × Str) → List EntryRec → List EntryRec
  thawed none rs = rs
  thawed (some (i, b)) rs = modify (thaw b) rs i

  -- The round in its two parts.
  round : Str → Option Proposal → State → State
  round pin o s = record s {
    proposals = voided_at pin o s.proposals;
    records = thawed (effect s.entries o) s.records;
  }

  close_one-round :
      (s : State) (pin : Str) → close_one h s pin ≡ round pin (lookup pin s.proposals) s
  unfolding close_one round thaw_entry change_record
  close_one-round s pin = split (lookup pin s.proposals)
    where
      split :
          (o : Option Proposal)
          → (elim o [
            | none ↦ s
            | some p ↦
                if is_expired h p
                then thaw_entry p
                    (record s { proposals = insert pin (record p { state = voided }) s.proposals })
                else s
          ])
            ≡ round pin o s
      split none = refl
      split (some p) = elim (Bool-cases (is_expired h p)) [
        | inr e ↦ rw e refl
        | inl e ↦ rw e (elim (Bool-cases (is_empty p.entry_key)) [
          | inl f ↦ rw f refl
          | inr f ↦ rw f (elim (Option-cases (lookup p.entry_key s.entries)) [
            | inl g ↦ rw g refl
            | inr (i, g) ↦ rw g refl
          ])
        ])
      ]

  lookup-voided_at :
      (a b : Str) (o : Option Proposal) (ps : Assoc Proposal)
      → str_eq a b ≡ false
      → lookup b (voided_at a o ps) ≡ lookup b ps
  lookup-voided_at a b none ps ne = refl
  lookup-voided_at a b (some p) ps ne =
      ground (arith, ne, lookup-insert a b (record p { state = voided }) ps)

  voided_at_swap :
      (a b : Str) (oa ob : Option Proposal) (ps : Assoc Proposal)
      → str_eq a b ≡ false
      → lookup a ps ≡ oa
      → lookup b ps ≡ ob
      → voided_at b ob (voided_at a oa ps) ≡ voided_at a oa (voided_at b ob ps)
  voided_at_swap a b none ob ps ne p q = refl
  voided_at_swap a b (some x) none ps ne p q = refl
  voided_at_swap a b (some x) (some y) ps ne p q = ground (
    arith,
    insert_swap a b (record x { state = voided }) (record y { state = voided }) x y ps ne p q,
  )

  thawed_swap :
      (ea eb : Option (ℕ × Str)) (rs : List EntryRec)
      → ((i : ℕ) (c d : Str) → ea ≡ some (i, c) → eb ≡ some (i, d) → c ≡ d)
      → thawed eb (thawed ea rs) ≡ thawed ea (thawed eb rs)
  thawed_swap none eb rs k = refl
  thawed_swap (some x) none rs k = refl
  thawed_swap (some (i, c)) (some (j, d)) rs k = elim (Bool-cases (i == j)) [
    | inl e ↦
        let q : i ≡ j = (==_iff i j).0 e in
        let r : c ≡ d = k i c d refl (rw q refl) in rw (q, r) refl
    | inr e ↦ sym (modify_swap (thaw c) (thaw d) rs i j (λ q. cc (e, (==_iff i j).1 q)))
  ]

  -- Two proposals that have expired, and whose keys have one record, have one baseline.
  abbrev pub InHarmony : State → Type 0
  InHarmony s =
      (a b : Str) (i : ℕ) (c d : Str)
      → effect s.entries (lookup a s.proposals) ≡ some (i, c)
      → effect s.entries (lookup b s.proposals) ≡ some (i, d)
      → c ≡ d

  close_one_swap :
      (s : State) (a b : Str)
      → str_eq a b ≡ false
      → InHarmony s
      → close_one h (close_one h s a) b ≡ close_one h (close_one h s b) a
  unfolding round
  close_one_swap s a b ne k =
      let ps = s.proposals in
      let oa = lookup a ps in
      let ob = lookup b ps in
      let en : str_eq b a ≡ false = ground (arith, ne, str_eq_iff a b, str_eq_iff b a) in
      let p = voided_at_swap a b oa ob ps ne refl refl in
      let r =
        thawed_swap (effect s.entries oa) (effect s.entries ob) s.records (λ i c d. k a b i c d) in
      let ba : close_one h (round a oa s) b ≡ round b ob (round a oa s) =
        close_one-round (round a oa s) b
        ∙ ap (λ o. round b o (round a oa s)) (lookup-voided_at a b oa ps ne) in
      let ab : close_one h (round b ob s) a ≡ round a oa (round b ob s) =
        close_one-round (round b ob s) a
        ∙ ap (λ o. round a o (round b ob s)) (lookup-voided_at b a ob ps en) in
      let eq : round b ob (round a oa s) ≡ round a oa (round b ob s) =
        λ i. record s { proposals = p i; records = r i } in
      ap (λ t. close_one h t b) (close_one-round s a)
      ∙ ba
      ∙ eq
      ∙ sym ab
      ∙ sym (ap (λ t. close_one h t a) (close_one-round s b))

  effect-after :
      (x a : Str) (ens : Assoc ℕ) (ps : Assoc Proposal) (r : ℕ × Str)
      → effect ens (lookup a (voided_at x (lookup x ps) ps)) ≡ some r
      → effect ens (lookup a ps) ≡ some r
  effect-after x a ens ps r e = elim (Bool-cases (str_eq x a)) [
    | inr ne ↦ rw (← lookup-voided_at x a (lookup x ps) ps ne) e
    | inl q ↦ elim (Option-cases (lookup x ps)) [
      | inl f ↦ ground (arith, e, f)
      | inr (p, f) ↦ elim (Bool-cases (is_expired h p)) [
        | inr g ↦ ground (arith, e, f, g)
        | inl g ↦ ground (arith, e, f, g, q, lookup-insert x a (record p { state = voided }) ps)
      ]
    ]
  ]

  InHarmony-close_one : (s : State) (x : Str) → InHarmony s → InHarmony (close_one h s x)
  unfolding round
  InHarmony-close_one s x k = subst InHarmony (sym (close_one-round s x)) (λ a b i c d p q.
      k a b i c d (effect-after x a s.entries s.proposals (i, c) p)
        (effect-after x b s.entries s.proposals (i, d) q))

  close_one_comm :
      (s : State) (a b : Str)
      → InHarmony s
      → close_one h (close_one h s a) b ≡ close_one h (close_one h s b) a
  close_one_comm s a b k = elim (Bool-cases (str_eq a b)) [
    | inl e ↦
        let q : a ≡ b = (str_eq_iff a b).0 e in
        subst (λ c. close_one h (close_one h s a) c ≡ close_one h (close_one h s c) a) q refl
    | inr e ↦ close_one_swap s a b e k
  ]

  -- Where no two proposals that have expired, and whose keys have one record, differ in their
  -- baseline, the state after the expiries does not depend on the order in which the map of the
  -- proposals is visited.
  pub close_expired-eq_of_perm :
      {xs ys : List Str} (s : State)
      → Permᴰ xs ys
      → InHarmony s
      → close_expired h xs s ≡ close_expired h ys s
  unfolding close_expired
  close_expired-eq_of_perm s Permᴰ.nil k = refl
  close_expired-eq_of_perm s (Permᴰ.cons {a = a} {l₂ = l₂} e p) k =
      close_expired-eq_of_perm (close_one h s a) p (InHarmony-close_one s a k)
      ∙ ap (λ c. close_expired h l₂ (close_one h s c)) e
  close_expired-eq_of_perm s (Permᴰ.swap {a = a} {b = b} {a' = a'} {l = l} e f) k =
      ap (close_expired h l) (close_one_comm s a b k)
      ∙ ap (λ c. close_expired h l (close_one h (close_one h s c) a)) f
      ∙ ap (λ c. close_expired h l (close_one h (close_one h s a') c)) e
  close_expired-eq_of_perm s (Permᴰ.trans p q) k =
      close_expired-eq_of_perm s p k ∙ close_expired-eq_of_perm s q k

  pub round_effect :
      (s : State) (pin : Str) (p : Proposal) (i : ℕ)
      → lookup pin s.proposals ≡ some p
      → is_expired h p ≡ true
      → is_empty p.entry_key ≡ false
      → lookup p.entry_key s.entries ≡ some i
      → (close_one h s pin).records ≡ modify (thaw p.baseline_rev) s.records i
  unfolding round
  round_effect s pin p i l x n e =
      ap (λ (t : State). t.records) (close_one-round s pin)
      ∙ ap (λ o. thawed (effect s.entries o) s.records) l
      ∙ rw (x, n, e) refl

  pub lookup-close_one :
      (s : State) (a b : Str)
      → str_eq a b ≡ false
      → lookup b (close_one h s a).proposals ≡ lookup b s.proposals
  unfolding round
  lookup-close_one s a b ne =
      ap (λ (t : State). lookup b t.proposals) (close_one-round s a)
      ∙ lookup-voided_at a b (lookup a s.proposals) s.proposals ne

  pub entries-close_one : (s : State) (a : Str) → (close_one h s a).entries ≡ s.entries
  unfolding round
  entries-close_one s a = ap (λ (t : State). t.entries) (close_one-round s a)
