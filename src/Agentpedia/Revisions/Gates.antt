-- ===== src/Agentpedia/Revisions/Gates.antt =====
-- What the gates of a revision let through (internal/agentpedia/replay.go).
use metaso_p2p.Prelude.{◌+◌, ◌≡◌, arith, true, false, none}
use metaso_p2p.Prelude.Int.{pos, ◌≤ℤ◌}
use metaso_p2p.Prelude.Text.{codes}
use metaso_p2p.Agentpedia.State.{Event, EntryRec, State}
use metaso_p2p.Agentpedia.Store.{count_at}
use metaso_p2p.Agentpedia.Access.{
  Context, is_active, is_t0, is_t2, tier_of, is_frozen, is_protected, contains, may_protect, pint,
  gk_of, sk_of, check_rev_gates,
}

-- The sender is registered and past tier T0, an arbiter of the entry if it is frozen, of tier T2 if
-- it is protected, and this revision stays within both daily limits.
pub record MayRevise (ctx : Context) (s : State) (ev : Event) (en : EntryRec) : Type 0 where
  pub active : is_active ctx s ev.sender ev.height ≡ true
  pub past_t0 : is_t0 (tier_of ctx s ev.sender ev.height) ≡ false
  pub arbiter : is_frozen en.status ≡ true → contains en.frozen_arbiters ev.sender ≡ true
  pub protector : is_protected en.status ≡ true → is_t2 (tier_of ctx s ev.sender ev.height) ≡ true
  pub global_limit :
      pos (count_at (gk_of ctx s ev) s.day_global + 1) ≤ℤ pint s (codes "rateGlobalDaily") 20
  pub slug_limit :
      pos (count_at (sk_of ctx s ev en) s.day_slug + 1) ≤ℤ pint s (codes "ratePerSlugDaily") 10

module _ (ctx : Context) where
  may_protect-t2 :
      (s : State) (ev : Event)
      → may_protect ctx s ev.sender ev.height ≡ true
      → is_t2 (tier_of ctx s ev.sender ev.height) ≡ true
  unfolding may_protect
  may_protect-t2 s ev h = ground (arith, h)

  pub check_rev_gates-MayRevise :
      (s : State) (ev : Event) (en : EntryRec)
      → check_rev_gates ctx s ev en ≡ none
      → MayRevise ctx s ev en
  unfolding check_rev_gates
  check_rev_gates-MayRevise s ev en h = record {
    active = ground (arith, h);
    past_t0 = ground (arith, h);
    arbiter = λ f. ground (arith, h, f);
    protector = λ f. may_protect-t2 s ev (ground (arith, h, f));
    global_limit = ground (arith, h);
    slug_limit = ground (arith, h);
  }
