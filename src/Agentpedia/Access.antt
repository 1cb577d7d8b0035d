-- ===== src/Agentpedia/Access.antt =====
-- Tiers, gates and daily counts (internal/agentpedia/replay.go).
use metaso_p2p.Prelude.{
  ℕ, zero, suc, ◌+◌, ◌/◌, ◌%◌, Bool, true, false, not, ◌&&◌, ◌||◌, Option, none, some, List, [],
  ◌∷◌, ◌++◌, ltb, if◌then◌else◌, ◌≡◌, refl,
}
use metaso_p2p.Prelude.Int.{ℤ, pos, negsuc, ◌-ℤ◌, ◌*ℤ◌, ltb_ℤ, eqb_ℤ, wrap64}
use metaso_p2p.Prelude.Text.{Str, codes, str_eq}
use metaso_p2p.Prelude.Assoc.{lookup, insert}
use metaso_p2p.Agentpedia.Value.{Float, float_of, leb_float, trunc, quot_ℤ}
use metaso_p2p.Agentpedia.State.{
  Event, Options, Reason, unregistered, t0_no_rev, frozen_unauthorized, protected_unauthorized,
  rate_global, rate_slug, Editor, EntryStatus, normal, frozen, protected, EntryRec, State,
}
use metaso_p2p.Agentpedia.Store.{pfloat, change_editor, count_at}

-- The tuning of a replay with its defaults applied, and `arbiter-draw-v1`'s key of a text: the
-- first 8 bytes of its SHA-256, big-endian.
pub record Context : Type 0 where
  pub opts : Options
  pub bph : ℕ
  pub bpd : ℕ
  pub sort_key : Str → ℕ
  pub max_cap : ℕ

pub data Tier : Type 0 where
  no_tier t0 t0_plus t1 t2 : Tier

abbrev pub is_t2 : Tier → Bool
is_t2 t2 = true
is_t2 _ = false

abbrev pub is_t0 : Tier → Bool
is_t0 t0 = true
is_t0 _ = false

-- A number of blocks as a number of hours or days.
abbrev per : ℤ → ℕ → Float
per n blocks = record { num = n; den = blocks }

-- An integer parameter: int64(s.pfloat(k, d)).
abbrev pub pint : State → Str → ℕ → ℤ
pint s k d = trunc (pfloat s k (float_of (pos d)))

-- s.pfloat(k, d) <= f
abbrev pub reaches : State → Str → ℕ → Float → Bool
reaches s k d f = leb_float (pfloat s k (float_of (pos d))) f

-- A number of revisions as a float64.
abbrev revs : Editor → Float
revs ed = float_of (pos ed.valid_revs)

-- a * b on `int64`
abbrev pub times64 : ℤ → ℕ → ℤ
times64 a b = wrap64 (a *ℤ pos b)

module _ (ctx : Context) where
  -- The layered authorization by age and revisions.
  unfoldable pub aged_tier : State → Editor → ℤ → ℤ → Tier
  aged_tier s ed h at =
      let age = wrap64 (h -ℤ at) in
      let settled = reaches s (codes "t0DurationHours") 72 (per age ctx.bph) in
      if ed.founder && ltb_ℤ h s.bootstrap_end_h
      then t2
      else if reaches s (codes "t2MinDays") 14 (per age ctx.bpd)
          && reaches s (codes "t2MinValidRevs") 100 (revs ed)
      then t2
      else if settled && reaches s (codes "t1MinValidRevs") 10 (revs ed)
      then t1
      else if settled
      then t0_plus
      else t0

  unfoldable pub editor_tier : State → Editor → ℤ → Tier
  unfolding aged_tier
  editor_tier s ed h = if ed.revoked || ed.banned then no_tier else elim ed.registered_at [
    | none ↦ no_tier
    | some at ↦
        if not (eqb_ℤ ed.suspension_until (pos 0)) && ltb_ℤ h ed.suspension_until
        then no_tier
        else aged_tier s ed h at
  ]

  unfoldable pub tier_of : State → Str → ℤ → Tier
  unfolding editor_tier
  tier_of s id h = elim (lookup id s.editors) [ none ↦ no_tier | some ed ↦ editor_tier s ed h ]

  unfoldable pub is_active : State → Str → ℤ → Bool
  unfolding tier_of
  is_active s id h = elim (tier_of s id h) [ no_tier ↦ false | _ ↦ true ]

  unfoldable pub day_of : State → ℤ → ℤ
  unfolding quot_ℤ
  day_of s h = quot_ℤ (wrap64 (h -ℤ s.genesis_height)) ctx.bpd

  unfoldable pub count_root : Str → Str
  count_root id = elim (lookup id ctx.opts.cluster_aliases) [ none ↦ id | some root ↦ root ]

-- The digits of a number before those of `acc`; a number has at most as many digits as `fuel`,
-- its successor.
digits : ℕ → ℕ → Str → Str
digits zero n acc = acc
digits (suc fuel) n acc =
    let c = 48 + n % 10 in
    let rest = digits fuel (n / 10) (c ∷ acc) in if ltb n 10 then c ∷ acc else rest

-- `%d`
unfoldable pub decimal : ℤ → Str
unfolding digits
decimal (pos n) = digits (suc n) n []
decimal (negsuc n) = 45 ∷ digits (suc (suc n)) (suc n) []

-- `fmt.Sprintf("%s|%d", root, day)` and `fmt.Sprintf("%s|%s", gk, key)`.
unfoldable pub global_key : Str → ℤ → Str
unfolding decimal
global_key root day = root ++ 124 ∷ decimal day

unfoldable pub slug_key : Str → Str → Str
slug_key gk key = gk ++ 124 ∷ key

unfoldable pub contains : List Str → Str → Bool
contains [] id = false
contains (a ∷ ids) id = str_eq a id || contains ids id

abbrev pub is_frozen : EntryStatus → Bool
is_frozen frozen = true
is_frozen _ = false

abbrev pub is_protected : EntryStatus → Bool
is_protected protected = true
is_protected _ = false

abbrev pub is_normal : EntryStatus → Bool
is_normal normal = true
is_normal _ = false

module _ (ctx : Context) where
  -- The sender may write a protected entry.
  unfoldable pub may_protect : State → Str → ℤ → Bool
  may_protect s sender h = is_t2 (tier_of ctx s sender h) && elim (lookup sender s.editors) [
    | none ↦ false
    | some ed ↦ reaches s (codes "thetaProtect") 0 ed.reputation
  ]

  abbrev pub gk_of : State → Event → Str
  gk_of s ev = global_key (count_root ctx ev.sender) (day_of ctx s ev.height)

  abbrev pub sk_of : State → Event → EntryRec → Str
  sk_of s ev en = slug_key (gk_of s ev) en.key

  -- n + 1 > int(s.pfloat(k, d))
  abbrev pub exceeds : State → Str → ℕ → ℕ → Bool
  exceeds s k d n = ltb_ℤ (pint s k d) (pos (n + 1))

  -- `none` where the revision may be made.
  unfoldable pub check_rev_gates : State → Event → EntryRec → Option Reason
  unfolding is_active contains may_protect
  check_rev_gates s ev en =
      if not (is_active ctx s ev.sender ev.height)
      then some unregistered
      else if is_t0 (tier_of ctx s ev.sender ev.height)
      then some t0_no_rev
      else if is_frozen en.status && not (contains en.frozen_arbiters ev.sender)
      then some frozen_unauthorized
      else if is_protected en.status && not (may_protect s ev.sender ev.height)
      then some protected_unauthorized
      else if exceeds s (codes "rateGlobalDaily") 20 (count_at (gk_of s ev) s.day_global)
      then some rate_global
      else if exceeds s (codes "ratePerSlugDaily") 10 (count_at (sk_of s ev en) s.day_slug)
      then some rate_slug
      else none

  unfoldable pub count_rev : Event → EntryRec → State → State
  unfolding change_editor
  count_rev ev en s =
      let gk = gk_of s ev in
      let sk = sk_of s ev en in
      change_editor ev.sender (λ ed. record ed { valid_revs = ed.valid_revs + 1 })
        (record s {
          day_global = insert gk (count_at gk s.day_global + 1) s.day_global;
          day_slug = insert sk (count_at sk s.day_slug + 1) s.day_slug;
        })

day_printed : decimal (pos 1203) ≡ codes "1203"
unfolding decimal
day_printed = refl
