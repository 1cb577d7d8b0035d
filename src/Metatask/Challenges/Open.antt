-- ===== src/Metatask/Challenges/Open.antt =====
-- The challenges that are open after a timeline (internal/metatask/v121.go).
use mathlib.Core.List.{Memᴰ}
use metaso_p2p.Prelude.{
  ◌≡◌, ◌≢◌, refl, sym, ap, ◌∙◌, arith, Bool, true, false, ◌&&◌, ◌||◌, none, some, List, [], ◌∷◌,
  All, Bool-cases, Option-cases, inl, inr, if_either,
}
use metaso_p2p.Prelude.Int.{ltb_ℤ, eqb_ℤ, pos, max_int64}
use metaso_p2p.Prelude.Text.{Str, codes, str_eq, str_eq_iff}
use metaso_p2p.Prelude.Assoc.{
  Assoc, lookup, flag, flag-insert, All-insert, DistinctKeys, DistinctKeys-insert,
}
use metaso_p2p.Metatask.Json.{field_str}
use metaso_p2p.Metatask.Event.{ChainEvent}
use metaso_p2p.Metatask.Votes.{IgnoredEvent}
use metaso_p2p.Metatask.Walk.State.{Cycle, CycleSubmission}
use metaso_p2p.Metatask.Challenges.{
  OpenChallenge, ChallengeContext, Challenges, anchors, find_target, withdraw, ignore_challenge,
  challenge_key, open_challenge, stands, settle_challenges, challenge_past, gate_failed,
  is_withdrawal, challenge_step, challenge_loop, collect_challenges, submitter_of,
}

-- One of the cycles, of this node, has the target as its effective submission.
pub record IsAnchored (cycles : Assoc Cycle) (target node : Str) : Type 0 where
  pub key : Str
  pub cycle : Cycle
  pub sub : CycleSubmission
  pub active : Memᴰ (key, cycle) cycles
  pub effective : cycle.effective ≡ some sub
  pub names : sub.pin_id ≡ target
  pub on_node : node ≡ cycle.node

anchors-some :
    (target : Str) (c : Cycle)
    → anchors target c ≡ true
    → (sub : CycleSubmission) × (c.effective ≡ some sub) × (sub.pin_id ≡ target)
unfolding anchors
anchors-some target c a = elim (Option-cases c.effective) [
  | inl e ↦ cc (rw e at a)
  | inr (sub, e) ↦ (sub, e, (str_eq_iff sub.pin_id target).0 (rw e at a))
]

-- A cycle that is found is one of those searched, and the target is its effective submission.
find_target-some :
    (target : Str) (m : Assoc Cycle) (c : Cycle)
    → find_target target m ≡ some c
    → IsAnchored m target c.node
unfolding find_target
find_target-some target [] c f = cc f
find_target-some target ((key, d) ∷ m) c f = elim (Bool-cases (anchors target d)) [
  | inl a ↦
      let is : d ≡ c = cc (f, rw a at f) in
      let (sub, effective, names) = anchors-some target d a in
      record {
        key = key;
        cycle = d;
        sub = sub;
        active = Memᴰ.head refl;
        effective = effective;
        names = names;
        on_node = ap (λ c. c.node) (sym is);
      }
  | inr a ↦
      let found = find_target-some target m c (rw a at f) in
      record {
        key = found.key;
        cycle = found.cycle;
        sub = found.sub;
        active = Memᴰ.tail found.active;
        effective = found.effective;
        names = found.names;
        on_node = found.on_node;
      }
]

-- An open challenge has a key of its own target and author, is by neither the author of the task
-- nor the submitter of its target, and names the node of an active cycle whose effective
-- submission is the target.
pub record IsOpen (ctx : ChallengeContext) (e : Str × OpenChallenge) : Type 0 where
  pub keyed : e.0 ≡ challenge_key e.1.target e.1.author
  pub not_root : e.1.author ≢ ctx.root_author
  pub not_submitter : e.1.author ≢ submitter_of e.1.target ctx.sub_author_by_pin
  pub anchored : IsAnchored ctx.active_cycles e.1.target e.1.node

All-withdraw :
    (P : Str × OpenChallenge → Type 0) (a t : Str) (m : Assoc OpenChallenge)
    → All P m
    → All P (withdraw a t m)
unfolding withdraw
All-withdraw P a t [] h = tt
All-withdraw P a t ((k, o) ∷ m) h = elim (Bool-cases (str_eq o.author a && str_eq o.target t)) [
  | inl e ↦ rw e (All-withdraw P a t m h.1)
  | inr e ↦ rw e (h.0, All-withdraw P a t m h.1)
]

lookup-withdraw :
    (k a t : Str) (m : Assoc OpenChallenge) → lookup k m ≡ none → lookup k (withdraw a t m) ≡ none
unfolding withdraw lookup
lookup-withdraw k a t [] h = refl
lookup-withdraw k a t ((j, o) ∷ m) h = elim (Bool-cases (str_eq o.author a && str_eq o.target t)) [
  | inl e ↦ ground (arith, e, h, lookup-withdraw k a t m)
  | inr e ↦ ground (arith, e, h, lookup-withdraw k a t m)
]

DistinctKeys-withdraw :
    (a t : Str) (m : Assoc OpenChallenge) → DistinctKeys m → DistinctKeys (withdraw a t m)
unfolding withdraw
DistinctKeys-withdraw a t [] h = tt
DistinctKeys-withdraw a t ((k, o) ∷ m) h =
    elim (Bool-cases (str_eq o.author a && str_eq o.target t)) [
      | inl e ↦ rw e (DistinctKeys-withdraw a t m h.1)
      | inr e ↦ rw e (lookup-withdraw k a t m h.0, DistinctKeys-withdraw a t m h.1)
    ]

-- Every open challenge is as it should be, and no two have one key.
abbrev pub AllOpen : ChallengeContext → Challenges → Type 0
AllOpen ctx s = All (IsOpen ctx) s.open_challenges × DistinctKeys s.open_challenges

withdrawn :
    (ctx : ChallengeContext) (a t : Str) (s : Challenges)
    → AllOpen ctx s
    → AllOpen ctx (record s { open_challenges = withdraw a t s.open_challenges })
withdrawn ctx a t s h = (
  All-withdraw (IsOpen ctx) a t s.open_challenges h.0,
  DistinctKeys-withdraw a t s.open_challenges h.1,
)

open_challenge-All :
    (ctx : ChallengeContext) (ch : ChainEvent) (target : Str) (s : Challenges)
    → ch.author ≢ ctx.root_author
    → ch.author ≢ submitter_of target ctx.sub_author_by_pin
    → AllOpen ctx s
    → AllOpen ctx (open_challenge ctx target ch s)
unfolding open_challenge ignore_challenge
open_challenge-All ctx ch target s nr ns h =
    elim (Option-cases (lookup (challenge_key target ch.author) s.open_challenges)) [
      | inr (o, d) ↦ rw (open_challenge, d) h
      | inl d ↦ elim (Option-cases (find_target target ctx.active_cycles)) [
        | inl f ↦ rw (open_challenge, d, f) h
        | inr (c, f) ↦ elim (Bool-cases (challenge_past ctx ch)) [
          | inl p ↦ rw (open_challenge, d, f, p) h
          | inr p ↦
              rw (open_challenge, d, f, p)
                (
                  All-insert (IsOpen ctx) (challenge_key target ch.author)
                      (record {
                        pin_id = ch.pin_id;
                        node = c.node;
                        author = ch.author;
                        target = target;
                      })
                      s.open_challenges
                      (record {
                        keyed = refl;
                        not_root = nr;
                        not_submitter = ns;
                        anchored = find_target-some target ctx.active_cycles c f;
                      })
                      h.0,
                  DistinctKeys-insert (challenge_key target ch.author)
                      (record {
                        pin_id = ch.pin_id;
                        node = c.node;
                        author = ch.author;
                        target = target;
                      })
                      s.open_challenges h.1,
                )
        ]
      ]
    ]

not_root :
    (ctx : ChallengeContext) (target : Str) (ch : ChainEvent)
    → gate_failed ctx target ch ≡ false
    → ch.author ≢ ctx.root_author
unfolding gate_failed
not_root ctx target ch g e = ground (arith, g, str_eq_iff ch.author ctx.root_author, e)

not_submitter :
    (ctx : ChallengeContext) (target : Str) (ch : ChainEvent)
    → gate_failed ctx target ch ≡ false
    → ch.author ≢ submitter_of target ctx.sub_author_by_pin
unfolding gate_failed
not_submitter ctx target ch g e =
    ground (arith, g, str_eq_iff ch.author (submitter_of target ctx.sub_author_by_pin), e)

challenge_step-All :
    (ctx : ChallengeContext) (ch : ChainEvent) (s : Challenges)
    → AllOpen ctx s
    → AllOpen ctx (challenge_step ctx ch s)
unfolding challenge_step ignore_challenge
challenge_step-All ctx ch s h =
    let target = field_str ch.body (codes "targetid") in
    if_either (AllOpen ctx) (ltb_ℤ ch.height ctx.h_act2) _ _ (λ _. h)
      (λ _.
        if_either (AllOpen ctx) (gate_failed ctx target ch) _ _ (λ _. h)
          (λ g.
            if_either (AllOpen ctx) (is_withdrawal ch.body) _ _
              (λ _. withdrawn ctx ch.author target s h)
              (λ _.
                open_challenge-All ctx ch target s (not_root ctx target ch g)
                  (not_submitter ctx target ch g) h)))

challenge_loop-All :
    (ctx : ChallengeContext) (chs : List ChainEvent) (s : Challenges)
    → AllOpen ctx s
    → AllOpen ctx (challenge_loop ctx chs s)
unfolding challenge_loop
challenge_loop-All ctx [] s h = h
challenge_loop-All ctx (ch ∷ chs) s h = challenge_loop-All ctx chs _ (
    if_either (AllOpen ctx) (flag (field_str ch.body (codes "targetid")) ctx.known_targets)
      (challenge_step ctx ch s) s (λ _. challenge_step-All ctx ch s h) (λ _. h))

-- Every challenge that is open after a timeline is kept under the key of its target and author,
-- so an author has at most one on a target; its author is neither the author of the task nor the
-- submitter of the target; and an active cycle of the node that it names has the target as its
-- effective submission.
pub collect_challenges-All :
    (ctx : ChallengeContext) (chs : List ChainEvent) (ignored : List IgnoredEvent)
    → AllOpen ctx (collect_challenges ctx chs ignored)
unfolding collect_challenges
collect_challenges-All ctx chs ignored =
    if_either (AllOpen ctx) (eqb_ℤ ctx.h_act2 (pos max_int64))
      (record { open_challenges = []; ignored_events = ignored })
      (challenge_loop ctx chs (record { open_challenges = []; ignored_events = ignored }))
      (λ _. (tt, tt))
      (λ _.
        challenge_loop-All ctx chs (record { open_challenges = []; ignored_events = ignored })
          (tt, tt))

-- A node has an open challenge.
unfoldable pub disputes : Str → Assoc OpenChallenge → Bool
disputes node [] = false
disputes node ((key, o) ∷ m) = str_eq o.node node || disputes node m

-- After the final check every challenge that is still open has as its target the effective
-- submission, finally verified, of its node, and a node is disputed exactly if it has an open
-- challenge.
pub settle_challenges-disputes :
    (cycles : Assoc Cycle) (pins : Assoc Bool) (m : Assoc OpenChallenge) (node : Str)
    → All (λ e. stands cycles pins e.1 ≡ true) (settle_challenges cycles pins m).1
      × (flag node (settle_challenges cycles pins m).0
          ≡ disputes node (settle_challenges cycles pins m).1)
unfolding settle_challenges disputes lookup
settle_challenges-disputes cycles pins [] node = (tt, refl)
settle_challenges-disputes cycles pins ((key, o) ∷ m) node =
    elim (Bool-cases (stands cycles pins o)) [
      | inl e ↦
          let (standing, same) = settle_challenges-disputes cycles pins m node in
          rw e (
            (e, standing),
            flag-insert o.node node (settle_challenges cycles pins m).0
                ∙ ap (λ b. str_eq o.node node || b) same,
          )
      | inr e ↦ rw e (settle_challenges-disputes cycles pins m node)
    ]
