-- ===== src/Agentpedia/Valid/Ballots.antt =====
-- Proposals that are opened and voted on (internal/agentpedia/replay.go).
use metaso_p2p.Prelude.{
  ◌≤◌, ◌≡◌, refl, arith, Bool, true, false, ◌&&◌, ◌||◌, not, some, [], ◌∷◌, length, All, All-map,
  option_either, if_either,
}
use metaso_p2p.Prelude.Int.{ltb_ℤ}
use metaso_p2p.Prelude.Text.{Str, codes, str_eq, str_eq_refl}
use metaso_p2p.Prelude.Assoc.{
  Assoc, lookup, insert, flag, flag-insert, DistinctKeys-insert, All-insert, All-lookup,
}
use metaso_p2p.Agentpedia.Value.{get, str, sub, fields_of, bool_of, or_false}
use metaso_p2p.Agentpedia.State.{
  Event, EntryRec, Outcome, ProposalState, Proposal, opened, effective, voided, State,
  ruling_params_missing,
}
use metaso_p2p.Agentpedia.Store.{grave, entry_at}
use metaso_p2p.Agentpedia.Access.{Context, contains, is_active}
use metaso_p2p.Agentpedia.Draw.{snapshot_arbiters}
use metaso_p2p.Agentpedia.Expiry.{is_opened}
use metaso_p2p.Agentpedia.Rulings.{
  outcome_of, ok_params, baseline_fault, open_proposal, propose_on, propose, cast, quorate, vote,
  apply_ruling,
}
use metaso_p2p.Agentpedia.Valid.{
  IsCounted, IsValid, Safe, Safe-none, Safe-some, put_proposal-IsValid,
}
use metaso_p2p.Agentpedia.Valid.Outcomes.{apply_outcome-Safe}

voters_after :
    (sender : Str) (vs bs : Assoc Bool)
    → All (λ a. flag a.0 vs ≡ true) bs
    → All (λ a. flag a.0 (insert sender true vs) ≡ true) bs
voters_after sender vs bs =
    All-map (λ (a : Str × Bool). flag a.0 vs ≡ true) _
      (λ a h. rw (flag-insert sender a.0 vs, h) (ground arith)) bs

-- A vote counts for an arbiter who approves.
abbrev approves_with : Event → Proposal → Bool
approves_with ev p =
    or_false (bool_of (get ev.payload (codes "approve"))) && contains p.arbiters ev.sender

cast-IsCounted :
    (pin : Str) (ev : Event) (p : Proposal)
    → p.state ≡ opened
    → IsCounted (pin, p)
    → IsCounted (pin, cast ev p)
unfolding cast
cast-IsCounted pin ev p o c =
    let vs = voters_after ev.sender p.voters p.approves c.by_voters in
    if_either (λ q. IsCounted (pin, q)) (approves_with ev p) _ _
      (λ e. record {
        distinct = DistinctKeys-insert ev.sender true p.approves c.distinct;
        by_arbiters =
            All-insert (λ a. contains p.arbiters a.0 ≡ true) ev.sender true p.approves
              (ground (arith, e)) c.by_arbiters;
        by_voters =
            All-insert (λ a. flag a.0 (insert ev.sender true p.voters) ≡ true) ev.sender true
              p.approves (rw (flag-insert ev.sender ev.sender p.voters, str_eq_refl ev.sender) refl)
              vs;
        counted = refl;
        approved = λ q. cc (o, q);
      })
      (λ _. record {
        distinct = c.distinct;
        by_arbiters = c.by_arbiters;
        by_voters = vs;
        counted = c.counted;
        approved = c.approved;
      })

length-insert_pos : (k : Str) (v : Bool) (m : Assoc Bool) → 1 ≤ length (insert k v m)
unfolding insert
length-insert_pos k v [] = omega arith
length-insert_pos k v ((j, w) ∷ m) = ground arith

-- A vote after which the proposal is put into effect was counted.
cast-approved :
    (ev : Event) (p : Proposal) → approves_with ev p ≡ true → 1 ≤ (cast ev p).approve_count
unfolding cast
cast-approved ev p e =
    if_either (λ (q : Proposal). 1 ≤ q.approve_count) (approves_with ev p) _ _
      (λ _. length-insert_pos ev.sender true p.approves) (λ f. cc (e, f))

opened_of : (st : ProposalState) (late : Bool) → (not (is_opened st) || late) ≡ false → st ≡ opened
opened_of opened late e = refl
opened_of effective late e = cc
opened_of voided late e = cc

module _ (ctx : Context) where
  vote-Safe : (ev : Event) (s : State) → IsValid s → Safe (vote ctx ev s)
  unfolding vote
  vote-Safe ev s h =
      let pin = str ev.payload (codes "proposalPin") in
      option_either Safe (lookup pin s.proposals) _ _ (λ _. Safe-some _ h)
        (λ p e.
          if_either Safe (not (is_opened p.state) || ltb_ℤ p.expiry_h ev.height) _ _
            (λ _. Safe-some _ h)
            (λ o.
              if_either Safe (flag ev.sender p.voters) _ _ (λ _. Safe-some _ h)
                (λ _.
                  let opens : p.state ≡ opened = opened_of p.state _ o in
                  let c =
                    cast-IsCounted pin ev p opens (All-lookup IsCounted pin p s.proposals h.1 e) in
                  let v = put_proposal-IsValid pin (cast ev p) s c h in
                  let s' : State = record s { proposals = insert pin (cast ev p) s.proposals } in
                  if_either Safe
                    (or_false (bool_of (get ev.payload (codes "approve")))
                      && contains p.arbiters ev.sender
                      && quorate s' (cast ev p))
                    _ _
                    (λ t.
                      apply_outcome-Safe pin (cast ev p) s'
                        (record {
                          distinct = c.distinct;
                          by_arbiters = c.by_arbiters;
                          by_voters = c.by_voters;
                          counted = c.counted;
                          approved = λ _. cast-approved ev p (ground (arith, t));
                        })
                        v)
                    (λ _. Safe-some _ v))))

  open_proposal-Safe :
      (ev : Event) (cp key : Str) (o : Outcome) (s : State)
      → IsValid s
      → Safe (open_proposal ctx ev cp key o s)
  unfolding open_proposal
  open_proposal-Safe ev cp key o s h =
      option_either Safe (snapshot_arbiters ctx s ev.height ev.pin cp) _ _ (λ _. Safe-none)
        (λ ids _. Safe-some _ (
          put_proposal-IsValid ev.pin _ s
            (record {
              distinct = tt;
              by_arbiters = tt;
              by_voters = tt;
              counted = refl;
              approved = λ q. cc q;
            })
            h))

  propose_on-Safe :
      (ev : Event) (cp key : Str) (en : EntryRec) (s : State)
      → IsValid s
      → Safe (propose_on ctx ev cp key en s)
  unfolding propose_on
  propose_on-Safe ev cp key en s h =
      option_either Safe (baseline_fault (str ev.payload (codes "baselineRev")) en) _ _
        (λ _.
          option_either Safe (outcome_of (str ev.payload (codes "outcome"))) _ _
            (λ _. Safe-some _ h)
            (λ o _.
              if_either Safe (ok_params o (fields_of (sub ev.payload (codes "params"))) en)
                (open_proposal ctx ev cp key o s) (some (grave ev.pin ruling_params_missing s))
                (λ _. open_proposal-Safe ev cp key o s h) (λ _. Safe-some _ h)))
        (λ _ _. Safe-some _ h)

  propose-Safe : (ev : Event) (s : State) → IsValid s → Safe (propose ctx ev s)
  unfolding propose
  propose-Safe ev s h =
      if_either Safe (not (is_active ctx s ev.sender ev.height)) _ _ (λ _. Safe-some _ h)
        (λ _.
          option_either Safe (lookup (str ev.payload (codes "challengePin")) s.challenges) _ _
            (λ _. Safe-some _ h)
            (λ ch _.
              if_either Safe
                (not
                  (str_eq (str ev.payload (codes "seed")) (str ev.payload (codes "challengePin"))))
                _ _ (λ _. Safe-some _ h)
                (λ _.
                  option_either Safe (entry_at ch.entry_key s) _ _ (λ _. Safe-none)
                    (λ en _. propose_on-Safe ev _ ch.entry_key en s h))))

  pub apply_ruling-Safe : (ev : Event) (s : State) → IsValid s → Safe (apply_ruling ctx ev s)
  unfolding apply_ruling
  apply_ruling-Safe ev s h =
      if_either Safe (str_eq (str ev.payload (codes "action")) (codes "proposal")) _ _
        (λ _. propose-Safe ev s h)
        (λ _.
          if_either Safe (str_eq (str ev.payload (codes "action")) (codes "vote")) _ _
            (λ _. vote-Safe ev s h) (λ _. Safe-some _ h))
