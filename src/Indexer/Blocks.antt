-- ===== src/Indexer/Blocks.antt =====
-- Scanning of blocks (internal/indexer/engine.go: scanRange, catchUpAll, scanNewBlocks). What a chain
-- reads of a block is a parameter; what is routed to the aggregators is a list. Heights are natural.
use metaso_p2p.Prelude.{
  ℕ, zero, suc, ◌+◌, ◌-◌, Bool, Option, none, some, List, [], ◌∷◌, ◌++◌, map, if◌then◌else◌, ltb,
  ◌==◌,
}
use metaso_p2p.Prelude.Int.{ℤ}
use metaso_p2p.Prelude.Text.{Str}

-- `aggregator.PinInscription`
pub record PinInscription : Type 0 where
  pub id : Str
  pub number : ℤ
  pub path : Str
  pub original_path : Str
  pub operation : Str
  pub content_body : Str
  pub content_summary : Str
  pub content_type : Str
  pub creator : Str
  pub create_address : Str
  pub create_meta_id : Str
  pub meta_id : Str
  pub global_meta_id : Str
  pub address : Str
  pub chain_name : Str
  pub genesis_transaction : Str
  pub genesis_height : ℤ
  pub timestamp : ℤ
  pub output : Str
  pub is_transfered : Bool
  pub original_id : Str
  pub host : Str

-- One registered chain: its height, the height that is stored for it, and the pins that its blocks
-- sent to the aggregators, with their heights.
pub record ChainEntry : Type 0 where
  pub last_height : ℕ
  pub persisted : ℕ
  pub routed : List (ℕ × PinInscription)

-- `CatchPins`: the pins of a block and its transactions, none on an error.
abbrev pub Blocks : Type 0
Blocks = ℕ → Option (List PinInscription × List Str)

-- `persistHeight`; the test says whether the store takes the write. A failure is only logged.
unfoldable pub persist_height : (ℕ → Bool) → ℕ → ChainEntry → ChainEntry
persist_height writable h e = if writable h then record e { persisted = h } else e

-- `RouteBlockPin` for every pin of a block.
unfoldable pub route : ℕ → List PinInscription → ChainEntry → ChainEntry
route h pins e = record e { routed = e.routed ++ map (λ p. (h, p)) pins }

unfoldable pub advance : (ℕ → Bool) → ℕ → ChainEntry → ChainEntry
unfolding persist_height
advance writable h e = persist_height writable h (record e { last_height = h })

-- One round of the loop: an error leaves the block.
unfoldable pub scan_block : Blocks → (ℕ → Bool) → ℕ → ChainEntry → ChainEntry
unfolding route advance
scan_block catch_pins writable h e = elim (catch_pins h) [
  | none ↦ e
  | some ([], tx_ids) ↦ advance writable h e
  | some (p ∷ pins, tx_ids) ↦ advance writable h (route h (p ∷ pins) e)
]

-- As many blocks as the number says, from a height on.
unfoldable pub scan_blocks : Blocks → (ℕ → Bool) → ℕ → ℕ → ChainEntry → ChainEntry
unfolding scan_block
scan_blocks catch_pins writable zero h e = e
scan_blocks catch_pins writable (suc n) h e =
    scan_blocks catch_pins writable n (h + 1) (scan_block catch_pins writable h e)

-- `scanRange`
unfoldable pub scan_range : Blocks → (ℕ → Bool) → ℕ → ℕ → ChainEntry → ChainEntry
unfolding scan_blocks
scan_range catch_pins writable from to e = scan_blocks catch_pins writable (to + 1 - from) from e

-- `scanNewBlocks` and `catchUpAll`, for one chain with its best height.
unfoldable pub scan_new_blocks : Blocks → (ℕ → Bool) → ℕ → ChainEntry → ChainEntry
unfolding scan_range
scan_new_blocks catch_pins writable best e =
    if ltb e.last_height best then scan_range catch_pins writable (e.last_height + 1) best e else e

unfoldable pub catch_up : Blocks → (ℕ → Bool) → ℕ → ChainEntry → ChainEntry
unfolding scan_range
catch_up catch_pins writable best e =
    if best == 0 then e else scan_range catch_pins writable (e.last_height + 1) best e
