-- ===== src/Metatask/Event.antt =====
-- `ChainEvent` and its total order (internal/metatask/v121.go).
pub mod Order
use metaso_p2p.Prelude.{Bool, not, List, if◌then◌else◌}
use metaso_p2p.Prelude.Int.{ℤ, pos, ltb_ℤ, eqb_ℤ, max_int64}
use metaso_p2p.Prelude.Text.{Str, str_ltb}
use metaso_p2p.Prelude.Sort.{sort_stable}
use metaso_p2p.Metatask.Json.{Fields}

-- The nine short path names.
pub data EventPath : Type 0 where
  task tree spec claim release submission verify amend challenge : EventPath

pub record ChainEvent : Type 0 where
  pub pin_id : Str
  pub path : EventPath
  pub author : Str
  pub height : ℤ
  pub tx_index : ℤ
  pub timestamp_ms : ℤ
  pub body : Fields

pub record OrdKey : Type 0 where
  pub h : ℤ
  pub tx : ℤ
  pub ts : ℤ
  pub pin : Str

-- An unconfirmed event sorts last.
unfoldable pub ord_key_of : ChainEvent → OrdKey
ord_key_of e = record {
  h = if ltb_ℤ e.height (pos 0) then pos max_int64 else e.height;
  tx = e.tx_index;
  ts = e.timestamp_ms;
  pin = e.pin_id;
}

unfoldable pub ord_less : OrdKey → OrdKey → Bool
ord_less a b =
    if not (eqb_ℤ a.h b.h)
    then ltb_ℤ a.h b.h
    else if not (eqb_ℤ a.tx b.tx)
    then ltb_ℤ a.tx b.tx
    else if not (eqb_ℤ a.ts b.ts)
    then ltb_ℤ a.ts b.ts
    else str_ltb a.pin b.pin

unfoldable pub event_less : ChainEvent → ChainEvent → Bool
unfolding ord_less ord_key_of
event_less a b = ord_less (ord_key_of a) (ord_key_of b)

unfoldable pub sort_chain_events : List ChainEvent → List ChainEvent
unfolding event_less sort_stable
sort_chain_events = sort_stable event_less
