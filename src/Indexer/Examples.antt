-- ===== src/Indexer/Examples.antt =====
-- Runs of the block loop (internal/indexer/engine.go).
use mathlib.Core.List.{Memᴰ}
use metaso_p2p.Prelude.{
  All, ◌<◌, ℕ, ◌+◌, ◌-◌, ◌≡◌, ◌≢◌, refl, arith, Bool, false, true, none, some, List, [], ◌∷◌, ◌++◌,
  ◌==◌, if◌then◌else◌,
}
use metaso_p2p.Prelude.Text.{Str, codes, str_eq}
use metaso_p2p.Indexer.Blocks.{PinInscription, ChainEntry, Blocks, scan_range, scan_new_blocks}
use metaso_p2p.Indexer.Passes.{pins_from, scan_range-routes, Pass, Passes}
use metaso_p2p.Indexer.Skipped.{Routes, scan_range-skips, Passes-Routes}
use metaso_p2p.Indexer.Mempool.{
  Mempool, mark_seen, filter_unseen, pending_of, drop_expired, seen_recently, is_added, seen_key,
  tx_id_from_pin_id, tx_of_suffix, index_of, last_index_of, all_digits,
}
use metaso_p2p.Indexer.Dedupe.{filter_unseen-mark_seen}
use metaso_p2p.Prelude.Int.{pos, ◌-ℤ◌, leb_ℤ}
use metaso_p2p.Prelude.Assoc.{lookup, insert}

abbrev pin : PinInscription
pin = record {
  id = codes "ai0";
  number = pos 0;
  path = [];
  original_path = [];
  operation = [];
  content_body = [];
  content_summary = [];
  content_type = [];
  creator = [];
  create_address = [];
  create_meta_id = [];
  meta_id = [];
  global_meta_id = [];
  address = [];
  chain_name = [];
  genesis_transaction = codes "a";
  genesis_height = pos 0;
  timestamp = pos 0;
  output = [];
  is_transfered = false;
  original_id = [];
  host = [];
}

abbrev at_genesis : ChainEntry
at_genesis = record { last_height = 0; persisted = 0; routed = [] }

-- Block 1 cannot be read at first, and can later.
abbrev flaky : Blocks
flaky h = if h == 1 then none else some (pin ∷ [], [])

abbrev steady : Blocks
steady h = some (pin ∷ [], [])

abbrev always : ℕ → Bool
always h = true

abbrev first_pass : ChainEntry
first_pass = scan_range flaky always (at_genesis.last_height + 1) 2 at_genesis

abbrev second_pass : ChainEntry
second_pass = scan_new_blocks steady always 3 first_pass

two-Passes : Passes first_pass second_pass
two-Passes =
    Passes.further first_pass first_pass second_pass (Passes.none_yet first_pass)
      (Pass.scanned steady always 3 first_pass)

scan_range-skips_example : Routes (λ r. r.0 ≢ 1) at_genesis second_pass
scan_range-skips_example =
    scan_range-skips flaky always 2 1 2 at_genesis second_pass (pin ∷ [], []) (omega arith)
      (omega arith) (omega arith) refl refl two-Passes

scan_range-routes_example :
    ((scan_range steady always (at_genesis.last_height + 1) 2 at_genesis).routed
      ≡ at_genesis.routed
        ++ pins_from steady (2 - at_genesis.last_height) (at_genesis.last_height + 1))
    × ((scan_range steady always (at_genesis.last_height + 1) 2 at_genesis).last_height ≡ 2)
scan_range-routes_example =
    scan_range-routes steady always 2 at_genesis (pin ∷ [], []) (omega arith) refl

Passes-Routes_example : Routes (λ r. first_pass.last_height < r.0) first_pass second_pass
Passes-Routes_example = Passes-Routes first_pass second_pass two-Passes

-- Texts with no space around them.
abbrev trimmed : Str → Str
trimmed s = s

abbrev ids : List Str
ids = codes "a" ∷ codes "b" ∷ []

abbrev quiet : Mempool
quiet = record { dedupe_ttl = pos 30; seen = []; tx_seen = [] }

first_poll :
    (filter_unseen trimmed (codes "btc") (codes "a" ∷ codes "a" ∷ codes "b" ∷ []) (pos 5) quiet).1
    ≡ ids
unfolding filter_unseen pending_of drop_expired seen_key seen_recently is_added lookup insert str_eq
first_poll = refl

pin_transaction : tx_id_from_pin_id trimmed (codes "fi12i0") ≡ codes "fi12"
unfolding tx_id_from_pin_id tx_of_suffix index_of last_index_of all_digits
pin_transaction = refl

in_ttl : leb_ℤ (pos 20 -ℤ pos 5) (pos 30) ≡ true
unfolding ◌-ℤ◌
in_ttl = refl

filter_unseen-mark_seen_example :
    All
      (λ x. x ≢ trimmed (codes "a"))
      (filter_unseen trimmed
        (codes "btc")
        ids
        (pos 20)
        (mark_seen trimmed (codes "btc") ids (pos 5) quiet)).1
filter_unseen-mark_seen_example =
    filter_unseen-mark_seen trimmed (codes "btc") ids ids (pos 5) (pos 20) quiet (codes "a")
      (Memᴰ.head refl) refl in_ttl
