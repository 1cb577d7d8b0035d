-- ===== src/Agentpedia/Valid/Records.antt =====
-- Revisions, reviews and challenges leave the registry and the ballots alone, but for the count of
-- valid revisions (internal/agentpedia/replay.go).
use metaso_p2p.Prelude.{ℕ, refl, ◌&&◌, not, List, ◌+◌, option_either, if_either}
use metaso_p2p.Prelude.Int.{pos}
use metaso_p2p.Prelude.Text.{Str, codes, str_eq, is_empty}
use metaso_p2p.Prelude.Assoc.{lookup}
use metaso_p2p.Agentpedia.Value.{str, float_of}
use metaso_p2p.Agentpedia.State.{Event, EntryRec, State}
use metaso_p2p.Agentpedia.Store.{entry_of, record_at, change_record}
use metaso_p2p.Agentpedia.Access.{
  Context, is_active, is_normal, check_rev_gates, count_rev, reaches,
}
use metaso_p2p.Agentpedia.Reviews.{
  entry_key_of_rev, author_of, dispute, apply_review, apply_challenge,
}
use metaso_p2p.Agentpedia.Revisions.{
  weighed, freeze_writers, account, create, edit, revert_fault, revert, target_head, redirect,
  revise, key_of, gated_rev, apply_rev,
}
use metaso_p2p.Agentpedia.Versions.{created, edited, restored, redirected, cumulative}
use metaso_p2p.Agentpedia.Valid.{
  IsValid, Kept, kept, Safe, Safe-none, Safe-some, change_editor-same,
}

apply_review-Kept :
    (order : List Str → List Str) (ev : Event) (s : State)
    → IsValid s
    → Kept (apply_review order ev s)
unfolding apply_review
apply_review-Kept order ev s h =
    let rev = str ev.payload (codes "targetRev") in
    let key = entry_key_of_rev order rev s in
    if_either Kept (is_empty key) _ _ (λ _. kept _ h)
      (λ _.
        if_either Kept (str_eq (author_of key rev s) ev.sender) _ _ (λ _. kept _ h) (λ _. kept _ h))

pub apply_review-IsValid :
    (order : List Str → List Str) (ev : Event) (s : State)
    → IsValid s
    → IsValid (apply_review order ev s)
apply_review-IsValid order ev s h = (apply_review-Kept order ev s h).at

dispute-IsValid : (key rev : Str) (s : State) → IsValid s → IsValid (dispute key rev s)
unfolding dispute change_record
dispute-IsValid key rev s h =
    let k : Kept (dispute key rev s) =
      option_either Kept (lookup key s.entries) _ _ (λ _. kept _ h) (λ i _. kept _ h) in
    k.at

pub count_rev-IsValid :
    (ctx : Context) (ev : Event) (en : EntryRec) (s : State)
    → IsValid s
    → IsValid (count_rev ctx ev en s)
unfolding count_rev
count_rev-IsValid ctx ev en s h =
    change_editor-same ev.sender (λ ed. record ed { valid_revs = ed.valid_revs + 1 }) s (λ ed. refl)
      (λ ed. refl) (λ ed. refl) h

module _ (ctx : Context) where
  pub apply_challenge-IsValid :
      (order : List Str → List Str) (ev : Event) (s : State)
      → IsValid s
      → IsValid (apply_challenge ctx order ev s)
  unfolding apply_challenge
  apply_challenge-IsValid order ev s h =
      let rev = str ev.payload (codes "targetRev") in
      let key = entry_key_of_rev order rev s in
      let k : Kept (apply_challenge ctx order ev s) =
        if_either Kept (is_empty key) _ _ (λ _. kept _ h)
          (λ _.
            if_either Kept (not (is_active ctx s ev.sender ev.height)) _ _ (λ _. kept _ h)
              (λ _.
                if_either Kept (str_eq (author_of key rev s) ev.sender) _ _ (λ _. kept _ h)
                  (λ _. kept _ (dispute-IsValid key rev s h)))) in
      k.at

  account-Safe :
      (ev : Event) (key : Str) (i : ℕ) (pre : Str) (s : State)
      → IsValid s
      → Safe (account ctx ev key i pre s)
  unfolding account change_record
  account-Safe ev key i pre s h =
      let en = weighed ctx ev s (record_at i s) in
      if_either Safe
        (is_normal en.status
          && reaches s (codes "revertWarThreshold") 3
              (cumulative (float_of (pos 0)) en.revert_weights))
        _ _
        (λ _.
          option_either Safe (freeze_writers ctx ev key s) _ _ (λ _. Safe-none)
            (λ ids _. Safe-some _ h))
        (λ _. Safe-some _ h)

  create-IsValid :
      (ev : Event) (key : Str) (i : ℕ) (s : State) → IsValid s → IsValid (create ctx ev key i s)
  unfolding create change_record
  create-IsValid ev key i s h =
      let k : Kept (create ctx ev key i s) =
        if_either Kept (is_empty (record_at i s).head) _ _
          (λ _.
            kept _
              (count_rev-IsValid ctx ev (record_at i s) (change_record i (created ev key) s) h))
          (λ _. kept _ h) in
      k.at

  edit-IsValid :
      (ev : Event) (key : Str) (i : ℕ) (s : State) → IsValid s → IsValid (edit ctx ev key i s)
  unfolding edit change_record
  edit-IsValid ev key i s h =
      let k : Kept (edit ctx ev key i s) =
        if_either Kept (is_empty (record_at i s).head) _ _ (λ _. kept _ h)
          (λ _.
            kept _
              (count_rev-IsValid ctx ev (record_at i s) (change_record i (edited ev key) s) h)) in
      k.at

  revert-Safe :
      (ev : Event) (key : Str) (i : ℕ) (s : State) → IsValid s → Safe (revert ctx ev key i s)
  unfolding revert change_record
  revert-Safe ev key i s h =
      let en = record_at i s in
      option_either Safe (revert_fault ctx ev key en s) _ _
        (λ _.
          account-Safe ev key i en.head _
            (count_rev-IsValid ctx ev en (change_record i (restored ev key) s) h))
        (λ reason _. Safe-some _ h)

  redirect-IsValid : (ev : Event) (i : ℕ) (s : State) → IsValid s → IsValid (redirect ctx ev i s)
  unfolding redirect change_record
  redirect-IsValid ev i s h =
      let k : Kept (redirect ctx ev i s) =
        if_either Kept (is_empty (record_at i s).head) _ _ (λ _. kept _ h)
          (λ _.
            if_either Kept (is_empty (target_head ctx ev s)) _ _ (λ _. kept _ h)
              (λ _. kept _ (
                count_rev-IsValid ctx ev (record_at i s) (change_record i (redirected ev) s) h))) in
      k.at

  revise-Safe :
      (ev : Event) (key : Str) (i : ℕ) (s : State) → IsValid s → Safe (revise ctx ev key i s)
  unfolding revise
  revise-Safe ev key i s h =
      let a = str ev.payload (codes "type") in
      if_either Safe (str_eq a (codes "create")) _ _
        (λ _. Safe-some _ (create-IsValid ev key i s h))
        (λ _.
          if_either Safe (str_eq a (codes "edit")) _ _
            (λ _. Safe-some _ (edit-IsValid ev key i s h))
            (λ _.
              if_either Safe (str_eq a (codes "revert")) _ _ (λ _. revert-Safe ev key i s h)
                (λ _.
                  if_either Safe (str_eq a (codes "redirect")) _ _
                    (λ _. Safe-some _ (redirect-IsValid ev i s h)) (λ _. Safe-some _ h))))

  gated_rev-Safe : (ev : Event) (i : ℕ) (s : State) → IsValid s → Safe (gated_rev ctx ev i s)
  unfolding gated_rev
  gated_rev-Safe ev i s h =
      option_either Safe (check_rev_gates ctx s ev (record_at i s)) _ _
        (λ _. revise-Safe ev (key_of ctx ev) i s h) (λ reason _. Safe-some _ h)

  entry_of-IsValid : (key : Str) (s : State) → IsValid s → IsValid (entry_of key s).0
  unfolding entry_of
  entry_of-IsValid key s h =
      let k : Kept (entry_of key s).0 =
        option_either (λ (q : State × ℕ). Kept q.0) (lookup key s.entries) _ _ (λ _. kept _ h)
          (λ i _. kept _ h) in
      k.at

  pub apply_rev-Safe : (ev : Event) (s : State) → IsValid s → Safe (apply_rev ctx ev s)
  unfolding apply_rev
  apply_rev-Safe ev s h =
      gated_rev-Safe ev (entry_of (key_of ctx ev) s).1 (entry_of (key_of ctx ev) s).0
        (entry_of-IsValid (key_of ctx ev) s h)
