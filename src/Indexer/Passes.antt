-- ===== src/Indexer/Passes.antt =====
-- What passes over the blocks route (internal/indexer/engine.go).
use metaso_p2p.Prelude.{
  ℕ, zero, suc, ◌+◌, ◌-◌, ◌≤◌, ◌<◌, ◌≡◌, refl, ap, sym, ◌∙◌, arith, Bool, none, some, List, [], ◌∷◌,
  ◌++◌, append-nil, append_assoc, map, Option-cases, inl, inr, ℕ_discrete,
}
use metaso_p2p.Prelude.Text.{Str}
use metaso_p2p.Indexer.Blocks.{
  PinInscription, ChainEntry, Blocks, persist_height, route, advance, scan_block, scan_blocks,
  scan_range, scan_new_blocks, catch_up,
}

-- The pins of a block that can be read, and those of a range of blocks, in order.
unfoldable pub pins_at : Blocks → ℕ → List (ℕ × PinInscription)
pins_at catch_pins h = elim (catch_pins h) [
  | none ↦ []
  | some (pins, tx_ids) ↦ map (λ p. (h, p)) pins
]

unfoldable pub pins_from : Blocks → ℕ → ℕ → List (ℕ × PinInscription)
unfolding pins_at
pins_from catch_pins zero h = []
pins_from catch_pins (suc n) h = pins_at catch_pins h ++ pins_from catch_pins n (h + 1)

advance-routed : (w : ℕ → Bool) (h : ℕ) (e : ChainEntry) → (advance w h e).routed ≡ e.routed
unfolding advance persist_height
advance-routed w h e = ground arith

advance-height : (w : ℕ → Bool) (h : ℕ) (e : ChainEntry) → (advance w h e).last_height ≡ h
unfolding advance persist_height
advance-height w h e = ground arith

block-routed :
    (c : Blocks) (w : ℕ → Bool) (h : ℕ) (e : ChainEntry)
    → (scan_block c w h e).routed ≡ e.routed ++ pins_at c h
unfolding scan_block pins_at
block-routed c w h e = elim (Option-cases (c h)) [
  | inl r ↦ rw (scan_block, pins_at, r) (sym (append-nil e.routed))
  | inr (([], t), r) ↦
      rw (scan_block, pins_at, r) (advance-routed w h e ∙ sym (append-nil e.routed))
  | inr ((p ∷ pins, t), r) ↦ rw (scan_block, pins_at, r) (advance-routed w h (route h (p ∷ pins) e))
]

-- A block that cannot be read leaves the height; any other sets it.
unread-height :
    (c : Blocks) (w : ℕ → Bool) (h : ℕ) (e : ChainEntry) → c h ≡ none → scan_block c w h e ≡ e
unfolding scan_block
unread-height c w h e r = rw (scan_block, r) refl

read-height :
    (c : Blocks) (w : ℕ → Bool) (h : ℕ) (e : ChainEntry) (x : List PinInscription × List Str)
    → c h ≡ some x
    → (scan_block c w h e).last_height ≡ h
unfolding scan_block
read-height c w h e ([], t) r = rw (scan_block, r) (advance-height w h e)
read-height c w h e (p ∷ pins, t) r = rw (scan_block, r) (advance-height w h (route h (p ∷ pins) e))

block_grows :
    (c : Blocks) (w : ℕ → Bool) (h : ℕ) (e : ChainEntry)
    → e.last_height ≤ h
    → (e.last_height ≤ (scan_block c w h e).last_height) × ((scan_block c w h e).last_height ≤ h)
block_grows c w h e le = elim (Option-cases (c h)) [
  | inl r ↦ rw (unread-height c w h e r) (omega arith, le)
  | inr (x, r) ↦ rw (read-height c w h e x r) (le, omega arith)
]

pub scan_blocks-routed :
    (c : Blocks) (w : ℕ → Bool) (n h : ℕ) (e : ChainEntry)
    → (scan_blocks c w n h e).routed ≡ e.routed ++ pins_from c n h
unfolding scan_blocks pins_from
scan_blocks-routed c w zero h e = sym (append-nil e.routed)
scan_blocks-routed c w (suc n) h e =
    scan_blocks-routed c w n (h + 1) (scan_block c w h e)
    ∙ ap (λ l. l ++ pins_from c n (h + 1)) (block-routed c w h e)
    ∙ append_assoc e.routed (pins_at c h) (pins_from c n (h + 1))

-- The height after a scan is not below the one before, nor below any block of it that was read.
pub scan_blocks_grows :
    (c : Blocks) (w : ℕ → Bool) (n h : ℕ) (e : ChainEntry)
    → e.last_height ≤ h
    → e.last_height ≤ (scan_blocks c w n h e).last_height
unfolding scan_blocks
scan_blocks_grows c w zero h e le = omega arith
scan_blocks_grows c w (suc n) h e le = omega (
  arith,
  block_grows c w h e le,
  scan_blocks_grows c w n (h + 1) (scan_block c w h e) (omega (arith, block_grows c w h e le)),
)

pub scan_blocks_reaches :
    (c : Blocks) (w : ℕ → Bool) (n h k : ℕ) (e : ChainEntry) (x : List PinInscription × List Str)
    → e.last_height ≤ h
    → h ≤ k
    → k < h + n
    → c k ≡ some x
    → k ≤ (scan_blocks c w n h e).last_height
unfolding scan_blocks
scan_blocks_reaches c w zero h k e x le lo hi r = absurd (omega (arith, lo, hi))
scan_blocks_reaches c w (suc n) h k e x le lo hi r = elim (ℕ_discrete h k) [
  | yes q ↦ omega (
    arith,
    q,
    read-height c w h e x (ap c q ∙ r),
    scan_blocks_grows c w n (h + 1) (scan_block c w h e) (omega (arith, block_grows c w h e le)),
  )
  | no q ↦
      scan_blocks_reaches c w n (h + 1) k (scan_block c w h e) x
        (omega (arith, block_grows c w h e le)) (omega (arith, lo, q)) (omega (arith, hi)) r
]

scan_blocks_stays :
    (c : Blocks) (w : ℕ → Bool) (n h top : ℕ) (e : ChainEntry)
    → e.last_height ≤ h
    → e.last_height ≤ top
    → h + n ≤ top + 1
    → (scan_blocks c w n h e).last_height ≤ top
unfolding scan_blocks
scan_blocks_stays c w zero h top e lo le hi = le
scan_blocks_stays c w (suc n) h top e lo le hi =
    scan_blocks_stays c w n (h + 1) top (scan_block c w h e) (omega (arith, block_grows c w h e lo))
      (omega (arith, block_grows c w h e lo, hi)) (omega (arith, hi))

-- A scan from the block after the last height up to a height whose block can be read routes the
-- pins of every block of that range that can be read, the blocks in order and each once, and
-- stops at that height.
pub scan_range-routes :
    (c : Blocks) (w : ℕ → Bool) (to : ℕ) (e : ChainEntry) (x : List PinInscription × List Str)
    → e.last_height < to
    → c to ≡ some x
    → ((scan_range c w (e.last_height + 1) to e).routed
        ≡ e.routed ++ pins_from c (to - e.last_height) (e.last_height + 1))
      × ((scan_range c w (e.last_height + 1) to e).last_height ≡ to)
unfolding scan_range
scan_range-routes c w to e x lt r = (
  scan_blocks-routed c w (to + 1 - (e.last_height + 1)) (e.last_height + 1) e
      ∙ ap (λ n. e.routed ++ pins_from c n (e.last_height + 1)) (omega arith),
  omega (
    arith,
    scan_blocks_reaches c w (to + 1 - (e.last_height + 1)) (e.last_height + 1) to e x (omega arith)
        (omega (arith, lt)) (omega (arith, lt)) r,
    scan_blocks_stays c w (to + 1 - (e.last_height + 1)) (e.last_height + 1) to e (omega arith)
        (omega (arith, lt)) (omega (arith, lt)),
  ),
)

-- Any number of passes of the two loops, with whatever the chain then gives.
pub data Pass : ChainEntry → ChainEntry → Type 0 where
  scanned :
      (c : Blocks) (w : ℕ → Bool) (best : ℕ) (e : ChainEntry) → Pass e (scan_new_blocks c w best e)
  caught_up : (c : Blocks) (w : ℕ → Bool) (best : ℕ) (e : ChainEntry) → Pass e (catch_up c w best e)

pub data Passes : ChainEntry → ChainEntry → Type 0 where
  none_yet : (e : ChainEntry) → Passes e e
  further : (e f g : ChainEntry) → Passes e f → Pass f g → Passes e g
