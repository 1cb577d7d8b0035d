-- ===== src/Agentpedia/Valid/Outcomes.antt =====
-- Proposals that expire and that take effect (internal/agentpedia/replay.go).
use metaso_p2p.Prelude.{
  refl, Option, none, some, List, [], ◌∷◌, option_either, if_either, if◌then◌else◌,
}
use metaso_p2p.Prelude.Int.{ℤ}
use metaso_p2p.Prelude.Text.{Str, codes, is_empty}
use metaso_p2p.Prelude.Assoc.{lookup, insert, All-lookup}
use metaso_p2p.Agentpedia.Value.{str}
use metaso_p2p.Agentpedia.State.{EntryRec, Outcome, Proposal, effective, voided, State}
use metaso_p2p.Agentpedia.Store.{change_record}
use metaso_p2p.Agentpedia.Expiry.{
  is_expired, thaw_entry, close_one, close_expired, on_entry, entry_outcome, transfer,
  editor_outcome, sanctioned, delta_of, apply_outcome, dismissed, reverted, unfrozen,
}
use metaso_p2p.Agentpedia.Rulings.{}
use metaso_p2p.Agentpedia.Valid.{
  IsCounted, IsValid, Safe, Safe-none, Safe-some, change_editor-same, put_proposal-IsValid,
}

thaw_entry-IsValid : (p : Proposal) (s : State) → IsValid s → IsValid (thaw_entry p s)
unfolding thaw_entry change_record
thaw_entry-IsValid p s h =
    if_either IsValid (is_empty p.entry_key) s _ (λ _. h)
      (λ _. option_either IsValid (lookup p.entry_key s.entries) _ _ (λ e. h) (λ i e. h))

close_one-IsValid : (h : ℤ) (s : State) (pin : Str) → IsValid s → IsValid (close_one h s pin)
unfolding close_one
close_one-IsValid h s pin v =
    option_either IsValid (lookup pin s.proposals) _ _ (λ e. v)
      (λ p e.
        (if_either IsValid (is_expired h p) _ s
          (λ _.
            let c = All-lookup IsCounted pin p s.proposals v.1 e in
            thaw_entry-IsValid p _ (
              put_proposal-IsValid pin (record p { state = voided }) s
                (record {
                  distinct = c.distinct;
                  by_arbiters = c.by_arbiters;
                  by_voters = c.by_voters;
                  counted = c.counted;
                  approved = λ q. cc;
                })
                v))
          (λ _. v)))

pub close_expired-IsValid :
    (h : ℤ) (pins : List Str) (s : State) → IsValid s → IsValid (close_expired h pins s)
unfolding close_expired
close_expired-IsValid h [] s v = v
close_expired-IsValid h (pin ∷ pins) s v =
    close_expired-IsValid h pins (close_one h s pin) (close_one-IsValid h s pin v)

on_entry-Safe :
    (p : Proposal) (f : EntryRec → EntryRec) (s : State) → IsValid s → Safe (on_entry p f s)
unfolding on_entry change_record
on_entry-Safe p f s h =
    option_either Safe (lookup p.entry_key s.entries) _ _ (λ _. Safe-none) (λ i _. Safe-some _ h)

transfer-IsValid : (p : Proposal) (s : State) → IsValid s → IsValid (transfer p s)
unfolding transfer
transfer-IsValid p s h =
    option_either IsValid (lookup (str p.params (codes "fromEntry")) s.entries) _ _ (λ e. h)
      (λ i e. h)

entry_outcome-Safe :
    (o : Outcome) (p : Proposal) (s : State) → IsValid s → Safe (entry_outcome o p s)
unfolding entry_outcome
entry_outcome-Safe Outcome.dismiss p s h =
    option_either Safe (lookup p.challenge_pin s.challenges) _ _ (λ _. Safe-some s h)
      (λ ch _. on_entry-Safe p (dismissed p s) s h)
entry_outcome-Safe Outcome.revert_to p s h = on_entry-Safe p (reverted p) s h
entry_outcome-Safe Outcome.protect p s h = on_entry-Safe p _ s h
entry_outcome-Safe Outcome.unprotect p s h = on_entry-Safe p _ s h
entry_outcome-Safe Outcome.unfreeze p s h = on_entry-Safe p unfrozen s h
entry_outcome-Safe Outcome.transfer_slug p s h = Safe-some _ (transfer-IsValid p s h)
entry_outcome-Safe Outcome.warn_editor p s h = Safe-some s h
entry_outcome-Safe Outcome.slash_stake_half p s h = Safe-some s h
entry_outcome-Safe Outcome.slash_stake_full p s h = Safe-some s h
entry_outcome-Safe Outcome.ban_editor p s h = Safe-some s h
entry_outcome-Safe Outcome.confirm_goodfaith p s h = Safe-some s h

editor_outcome-IsValid : (p : Proposal) (s : State) → IsValid s → IsValid (editor_outcome p s)
unfolding editor_outcome sanctioned
editor_outcome-IsValid p s h =
    option_either IsValid (delta_of p.outcome) _ _ (λ _. h)
      (λ d _.
        if_either IsValid (is_empty (str p.params (codes "editor"))) s _ (λ _. h)
          (λ _.
            change_editor-same (str p.params (codes "editor")) (sanctioned p.outcome d) s
              (λ ed. refl) (λ ed. refl) (λ ed. refl) h))

pub apply_outcome-Safe :
    (key : Str) (p : Proposal) (s : State)
    → IsCounted (key, record p { state = effective })
    → IsValid s
    → Safe (apply_outcome key p s)
unfolding apply_outcome
apply_outcome-Safe key p s c h =
    let s' : State = record s {
      proposals = insert key (record p { state = effective }) s.proposals;
    } in
    let v : IsValid s' = put_proposal-IsValid key (record p { state = effective }) s c h in
    let o = if is_empty p.entry_key then some s' else entry_outcome p.outcome p s' in
    let w : Safe o =
      if_either Safe (is_empty p.entry_key) (some s') _ (λ _. Safe-some s' v)
        (λ _. entry_outcome-Safe p.outcome p s' v) in
    after o w
  where
    after :
        (o : Option State)
        → Safe o
        → Safe (elim o [ none ↦ none | some t ↦ some (editor_outcome p t) ])
    after none w = Safe-none
    after (some t) w = Safe-some _ (editor_outcome-IsValid p t (w.at t refl))
