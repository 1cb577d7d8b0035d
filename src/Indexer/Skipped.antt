-- ===== src/Indexer/Skipped.antt =====
-- Blocks that no pass routes, and blocks that one pass routes (internal/indexer/engine.go).
use metaso_p2p.Prelude.{
  ℕ, zero, suc, ◌+◌, ◌-◌, ◌≤◌, ◌<◌, ◌≡◌, ◌≢◌, ap, sym, ◌∙◌, arith, Bool, none, some, List, [], ◌∷◌,
  ◌++◌, append-nil, append_assoc, map, All, All-append, All-map, Option-cases, Bool-cases, inl, inr,
  ltb, ◌==◌,
}
use metaso_p2p.Prelude.Text.{Str}
use metaso_p2p.Indexer.Blocks.{
  PinInscription, ChainEntry, Blocks, scan_blocks, scan_range, scan_new_blocks, catch_up,
}
use metaso_p2p.Indexer.Passes.{
  pins_at, pins_from, scan_blocks-routed, scan_blocks_grows, scan_blocks_reaches, Pass, Passes,
}

-- What was routed between two entries has passed the test, and the height has not gone down.
pub record Routes (P : ℕ × PinInscription → Type 0) (e f : ChainEntry) : Type 0 where
  pub routes : List (ℕ × PinInscription)
  pub added : f.routed ≡ e.routed ++ routes
  pub each : All P routes
  pub grows : e.last_height ≤ f.last_height

nothing_routed : (P : ℕ × PinInscription → Type 0) (e : ChainEntry) → Routes P e e
nothing_routed P e = record {
  routes = [];
  added = sym (append-nil e.routed);
  each = tt;
  grows = omega arith;
}

Routes-then :
    (P : ℕ × PinInscription → Type 0) (e f g : ChainEntry)
    → Routes P e f
    → Routes P f g
    → Routes P e g
Routes-then P e f g r s = record {
  routes = r.routes ++ s.routes;
  added = s.added ∙ ap (λ l. l ++ s.routes) r.added ∙ append_assoc e.routed r.routes s.routes;
  each = All-append P r.routes s.routes r.each s.each;
  grows = omega (arith, r.grows, s.grows);
}

Routes-weaken :
    (P Q : ℕ × PinInscription → Type 0) (e f : ChainEntry)
    → ((r : ℕ × PinInscription) → P r → Q r)
    → Routes P e f
    → Routes Q e f
Routes-weaken P Q e f i r = record {
  routes = r.routes;
  added = r.added;
  each = All-map P Q i r.routes r.each;
  grows = r.grows;
}

All-tagged :
    (P : ℕ × PinInscription → Type 0) (h : ℕ)
    → ((p : PinInscription) → P (h, p))
    → (ps : List PinInscription) → All P (map (λ p. (h, p)) ps)
All-tagged P h i [] = tt
All-tagged P h i (p ∷ ps) = (i p, All-tagged P h i ps)

-- A test that holds at the heights of a range that can be read holds for what the range routes.
pins_from-All :
    (P : ℕ × PinInscription → Type 0) (c : Blocks) (low n h : ℕ)
    → low ≤ h
    → ((k : ℕ) (x : List PinInscription × List Str)
        → low ≤ k
        → c k ≡ some x
        → (p : PinInscription) → P (k, p))
    → All P (pins_from c n h)
unfolding pins_from
pins_from-All P c low zero h le i = tt
pins_from-All P c low (suc n) h le i =
    All-append P (pins_at c h) (pins_from c n (h + 1)) here
      (pins_from-All P c low n (h + 1) (omega (arith, le)) i)
  where
    here : All P (pins_at c h)
    here = elim (Option-cases (c h)) [
      | inl r ↦ rw (pins_at, r) tt
      | inr ((ps, t), r) ↦ rw (pins_at, r) (All-tagged P h (i h (ps, t) le r) ps)
    ]

scan_blocks-Routes :
    (P : ℕ × PinInscription → Type 0) (c : Blocks) (w : ℕ → Bool) (n : ℕ) (e : ChainEntry)
    → ((k : ℕ) (x : List PinInscription × List Str)
        → e.last_height + 1 ≤ k
        → c k ≡ some x
        → (p : PinInscription) → P (k, p))
    → Routes P e (scan_blocks c w n (e.last_height + 1) e)
scan_blocks-Routes P c w n e i = record {
  routes = pins_from c n (e.last_height + 1);
  added = scan_blocks-routed c w n (e.last_height + 1) e;
  each = pins_from-All P c (e.last_height + 1) n (e.last_height + 1) (omega arith) i;
  grows = scan_blocks_grows c w n (e.last_height + 1) e (omega arith);
}

Pass-Routes : (e f : ChainEntry) → Pass e f → Routes (λ r. e.last_height < r.0) e f
unfolding scan_new_blocks catch_up scan_range
Pass-Routes _ _ (Pass.scanned c w best e) = elim (Bool-cases (ltb e.last_height best)) [
  | inl q ↦ rw q (
      scan_blocks-Routes (λ r. e.last_height < r.0) c w (best + 1 - (e.last_height + 1)) e
        (λ k x le r p. omega (arith, le)))
  | inr q ↦ rw q (nothing_routed _ e)
]
Pass-Routes _ _ (Pass.caught_up c w best e) = elim (Bool-cases (best == 0)) [
  | inl q ↦ rw q (nothing_routed _ e)
  | inr q ↦ rw q (
      scan_blocks-Routes (λ r. e.last_height < r.0) c w (best + 1 - (e.last_height + 1)) e
        (λ k x le r p. omega (arith, le)))
]

-- However many passes follow, they route only blocks above the height at which they start: no
-- block that was passed is routed again, and the height never goes down.
pub Passes-Routes : (e f : ChainEntry) → Passes e f → Routes (λ r. e.last_height < r.0) e f
Passes-Routes _ _ (Passes.none_yet e) = nothing_routed _ e
Passes-Routes _ _ (Passes.further e f g ps p) =
    let r = Passes-Routes e f ps in
    Routes-then (λ x. e.last_height < x.0) e f g r
      (Routes-weaken (λ x. f.last_height < x.0) (λ x. e.last_height < x.0) f g
        (λ x lt. omega (arith, lt, r.grows)) (Pass-Routes f g p))

-- A block above the last height that could not be read is lost when a later block of the same
-- pass could: whatever passes follow, and whatever the chain then gives, nothing that they
-- route, or that the pass itself routed, is of that block.
pub scan_range-skips :
    (c : Blocks) (w : ℕ → Bool) (to b k : ℕ) (e f : ChainEntry) (x : List PinInscription × List Str)
    → e.last_height < b
    → b < k
    → k ≤ to
    → c b ≡ none
    → c k ≡ some x
    → Passes (scan_range c w (e.last_height + 1) to e) f
    → Routes (λ r. r.0 ≢ b) e f
unfolding scan_range
scan_range-skips c w to b k e f x lo mid hi lost read ps =
    let d = scan_blocks c w (to + 1 - (e.last_height + 1)) (e.last_height + 1) e in
    Routes-then (λ r. r.0 ≢ b) e d f
      (scan_blocks-Routes (λ r. r.0 ≢ b) c w (to + 1 - (e.last_height + 1)) e
        (λ j y le r p q. cc (lost, r, q)))
      (Routes-weaken (λ r. d.last_height < r.0) (λ r. r.0 ≢ b) d f
        (λ r lt q. omega (
          arith,
          lt,
          q,
          mid,
          scan_blocks_reaches c w (to + 1 - (e.last_height + 1)) (e.last_height + 1) k e x
              (omega arith) (omega (arith, lo, mid)) (omega (arith, lo, mid, hi)) read,
        ))
        (Passes-Routes d f ps))
