-- ===== src/Agentpedia/Revisions/Refused.antt =====
-- A revision is refused whole or made whole (internal/agentpedia/replay.go).
use metaso_p2p.Prelude.{
  ℕ, ◌+◌, ◌≡◌, ◌≢◌, refl, sym, ap, ◌∙◌, inl, inr, ◌⊎◌, ◌&&◌, Option, none, some, [], ◌∷◌, ◌++◌,
  get_elem?, get_elem?-modify_self, get_elem?-modify_ne, option_either, if_either, subst,
}
use metaso_p2p.Prelude.Int.{pos}
use metaso_p2p.Prelude.Text.{Str, codes, str_eq, is_empty}
use metaso_p2p.Prelude.Assoc.{insert}
use metaso_p2p.Agentpedia.Value.{str, float_of}
use metaso_p2p.Agentpedia.State.{Event, EntryRec, State, Reason}
use metaso_p2p.Agentpedia.Store.{grave, entry_of, record_at, change_record, count_at, change_editor}
use metaso_p2p.Agentpedia.Access.{
  Context, is_normal, day_of, gk_of, sk_of, check_rev_gates, count_rev, reaches,
}
use metaso_p2p.Agentpedia.Revisions.{
  weighed, freeze_writers, account, create, edit, revert_fault, revert, target_head, redirect,
  revise, key_of, gated_rev, apply_rev,
}
use metaso_p2p.Agentpedia.Versions.{
  put_head, created, edited, restored, redirected, cumulative, freeze,
}
use metaso_p2p.Agentpedia.Revisions.Gates.{MayRevise, check_rev_gates-MayRevise}

-- From s to t the record `en` at the place i got one revision, its head and the last of its
-- history; no other record changed; both daily counts grew by one; and nothing was graved.
pub record IsRevised (ctx : Context) (ev : Event) (i : ℕ) (en : EntryRec) (s t : State)
    : Type 0 where
  pub made :
      (en' : EntryRec) × (get_elem? t.records i ≡ some en')
      × (en'.history ≡ en.history ++ en'.head ∷ [])
  pub others : (j : ℕ) → i ≢ j → get_elem? t.records j ≡ get_elem? s.records j
  pub global_count :
      t.day_global
      ≡ insert (gk_of ctx s ev) (count_at (gk_of ctx s ev) s.day_global + 1) s.day_global
  pub slug_count :
      t.day_slug
      ≡ insert (sk_of ctx s ev en) (count_at (sk_of ctx s ev en) s.day_slug + 1) s.day_slug
  pub graves : t.graveyard ≡ s.graveyard

-- The two results of a revision at a place.
abbrev pub Settled : Context → Event → ℕ → EntryRec → State → State → Type 0
Settled ctx ev i en s t =
    ((reason : Reason) × (t ≡ grave ev.pin reason s))
    ⊎ (MayRevise ctx s ev en × IsRevised ctx ev i en s t)

-- The same of a result that is not a panic.
record Ends (ctx : Context) (ev : Event) (i : ℕ) (en : EntryRec) (s : State) (o : Option State)
    : Type 0 where
  at : (t : State) → o ≡ some t → Settled ctx ev i en s t

module _ (ctx : Context) (ev : Event) (i : ℕ) (en : EntryRec) (s : State) where
  Ends-none : Ends ctx ev i en s none
  Ends-none = record { at = λ t e. cc }

  Ends-some : (t : State) → Settled ctx ev i en s t → Ends ctx ev i en s (some t)
  Ends-some t h = record { at = λ u e. subst (Settled ctx ev i en s) (cc e) h }

  refused : (reason : Reason) → Ends ctx ev i en s (some (grave ev.pin reason s))
  refused reason = Ends-some (grave ev.pin reason s) (inl (reason, refl))

module _ (ctx : Context) (ev : Event) (i : ℕ) (s : State)
    (found : get_elem? s.records i ≡ some (record_at i s)) where
  revised :
      (f : EntryRec → EntryRec)
      → (f (record_at i s)).history ≡ (record_at i s).history ++ (f (record_at i s)).head ∷ []
      → IsRevised ctx ev i
          (record_at i s)
          s
          (count_rev ctx ev (record_at i s) (change_record i f s))
  unfolding change_record count_rev change_editor day_of
  revised f e = record {
    made = (f (record_at i s), get_elem?-modify_self f s.records i (record_at i s) found, e);
    others = λ j ne. get_elem?-modify_ne f s.records i j ne;
    global_count = refl;
    slug_count = refl;
    graves = refl;
  }

  -- A further change that keeps the head and the history.
  IsRevised-change_record :
      (f : EntryRec → EntryRec) (t : State)
      → ((e : EntryRec) → ((f e).history ≡ e.history) × ((f e).head ≡ e.head))
      → IsRevised ctx ev i (record_at i s) s t
      → IsRevised ctx ev i (record_at i s) s (change_record i f t)
  unfolding change_record
  IsRevised-change_record f t k r =
      let (en', at, e) = r.made in
      record {
        made = (
          f en',
          get_elem?-modify_self f t.records i en' at,
          (k en').0 ∙ e ∙ ap (λ x. (record_at i s).history ++ x ∷ []) (sym (k en').1),
        );
        others = λ j ne. get_elem?-modify_ne f t.records i j ne ∙ r.others j ne;
        global_count = r.global_count;
        slug_count = r.slug_count;
        graves = r.graves;
      }

  module _ (may : MayRevise ctx s ev (record_at i s)) where
    made :
        (t : State)
        → IsRevised ctx ev i (record_at i s) s t
        → Ends ctx ev i (record_at i s) s (some t)
    made t r = Ends-some ctx ev i (record_at i s) s t (inr (may, r))

    account-Ends :
        (key pre : Str) (t : State)
        → IsRevised ctx ev i (record_at i s) s t
        → Ends ctx ev i (record_at i s) s (account ctx ev key i pre t)
    unfolding account weighed freeze
    account-Ends key pre t r =
        let en = weighed ctx ev t (record_at i t) in
        let r' = IsRevised-change_record (weighed ctx ev t) t (λ e. (refl, refl)) r in
        if_either (Ends ctx ev i (record_at i s) s)
          (is_normal en.status
            && reaches t (codes "revertWarThreshold") 3
                (cumulative (float_of (pos 0)) en.revert_weights))
          _ _
          (λ _.
            option_either (Ends ctx ev i (record_at i s) s) (freeze_writers ctx ev key t) _ _
              (λ _. Ends-none ctx ev i (record_at i s) s)
              (λ ids _.
                made _ (IsRevised-change_record (freeze ev.pin pre ids) _ (λ e. (refl, refl)) r')))
          (λ _. made _ r')

    created_or_grave : (key : Str) → Ends ctx ev i (record_at i s) s (some (create ctx ev key i s))
    unfolding create created put_head
    created_or_grave key =
        if_either (λ t. Ends ctx ev i (record_at i s) s (some t)) (is_empty (record_at i s).head) _
          _ (λ _. made _ (revised (created ev key) refl))
          (λ _. refused ctx ev i (record_at i s) s Reason.duplicate_create)

    edited_or_grave : (key : Str) → Ends ctx ev i (record_at i s) s (some (edit ctx ev key i s))
    unfolding edit edited put_head
    edited_or_grave key =
        if_either (λ t. Ends ctx ev i (record_at i s) s (some t)) (is_empty (record_at i s).head) _
          _ (λ _. refused ctx ev i (record_at i s) s Reason.edit_without_entry)
          (λ _. made _ (revised (edited ev key) refl))

    redirected_or_grave : Ends ctx ev i (record_at i s) s (some (redirect ctx ev i s))
    unfolding redirect redirected put_head
    redirected_or_grave =
        let P = λ (t : State). Ends ctx ev i (record_at i s) s (some t) in
        if_either P (is_empty (record_at i s).head) _ _
          (λ _. refused ctx ev i (record_at i s) s Reason.redirect_without_entry)
          (λ _.
            if_either P (is_empty (target_head ctx ev s)) _ _
              (λ _. refused ctx ev i (record_at i s) s Reason.redirect_target_missing)
              (λ _. made _ (revised (redirected ev) refl)))

    revise-Ends : (key : Str) → Ends ctx ev i (record_at i s) s (revise ctx ev key i s)
    unfolding revise revert restored put_head
    revise-Ends key =
        let en = record_at i s in
        let P = Ends ctx ev i en s in
        let grave_by = refused ctx ev i en s in
        let type = str ev.payload (codes "type") in
        if_either P (str_eq type (codes "create")) _ _ (λ _. created_or_grave key)
          (λ _.
            if_either P (str_eq type (codes "edit")) _ _ (λ _. edited_or_grave key)
              (λ _.
                if_either P (str_eq type (codes "revert")) _ _
                  (λ _.
                    option_either P (revert_fault ctx ev key en s) _ _
                      (λ _. account-Ends key en.head _ (revised (restored ev key) refl))
                      (λ reason _. grave_by reason))
                  (λ _.
                    if_either P (str_eq type (codes "redirect")) _ _ (λ _. redirected_or_grave)
                      (λ _. grave_by Reason.rev_type_unknown))))

  gated_rev-Ends : Ends ctx ev i (record_at i s) s (gated_rev ctx ev i s)
  unfolding gated_rev
  gated_rev-Ends =
      let en = record_at i s in
      option_either (Ends ctx ev i en s) (check_rev_gates ctx s ev en) _ _
        (λ e. revise-Ends (check_rev_gates-MayRevise ctx s ev en e) (key_of ctx ev))
        (λ reason _. refused ctx ev i en s reason)

-- Where the place of the entry is one of the store, a revision that does not panic is refused or
-- made. Refused, it leaves the state with the entry looked up or added as it is, but for one grave
-- of its pin. Made, its sender is registered, past tier T0, an arbiter of the entry if that is
-- frozen and of tier T2 if that is protected; both daily counts grow by one and stay within the
-- limits; the entry's record gets one revision, its head and the last of its history; no other
-- record changes, and nothing is graved.
pub apply_rev-Settled :
    (ctx : Context) (ev : Event) (s t : State)
    → get_elem? (entry_of (key_of ctx ev) s).0.records (entry_of (key_of ctx ev) s).1
      ≡ some (record_at (entry_of (key_of ctx ev) s).1 (entry_of (key_of ctx ev) s).0)
    → apply_rev ctx ev s ≡ some t
    → Settled ctx ev
        (entry_of (key_of ctx ev) s).1
        (record_at (entry_of (key_of ctx ev) s).1 (entry_of (key_of ctx ev) s).0)
        (entry_of (key_of ctx ev) s).0
        t
unfolding apply_rev
apply_rev-Settled ctx ev s t found e =
    (gated_rev-Ends ctx ev (entry_of (key_of ctx ev) s).1 (entry_of (key_of ctx ev) s).0 found).at t
      e
