-- ===== src/Metatask/Event/Order.antt =====
-- The order on the keys of events, and the lists sorted by it.
use mathlib.Core.List.{Permᴰ}
use metaso_p2p.Prelude.{
  Bool, true, false, List, [], ◌∷◌, ◌≡◌, ◌≢◌, refl, ap, not, ◌⊎◌, inl, inr, arith, if◌then◌else◌,
  All, Bool-cases,
}
use metaso_p2p.Prelude.Int.{ℤ, ltb_ℤ, eqb_ℤ}
use metaso_p2p.Prelude.Text.{str_ltb, str_ltb_irrefl, str_ltb_trans, str_ltb_total}
use metaso_p2p.Prelude.Sort.Laws.{
  IsSorted, Apart, sort_stable-perm, sort_stable-IsSorted, sort_stable-eq_of_perm,
}
use metaso_p2p.Metatask.Event.{
  ChainEvent, OrdKey, ord_key_of, ord_less, event_less, sort_chain_events,
}

-- One component of the key: where it differs it decides, else the rest does.
lex : ℤ → ℤ → Bool → Bool
lex a b rest = if not (eqb_ℤ a b) then ltb_ℤ a b else rest

lex_trans :
    (a b c : ℤ) (p q r : Bool)
    → (p ≡ true → q ≡ true → r ≡ true)
    → lex a b p ≡ true
    → lex b c q ≡ true
    → lex a c r ≡ true
unfolding lex
lex_trans a b c p q r f = ground arith

lex_total :
    (a b : ℤ) (p q : Bool)
    → lex a b p ≡ false
    → lex b a q ≡ false
    → (a ≡ b) × (p ≡ false) × (q ≡ false)
unfolding lex
lex_total a b p q h k = ground arith

lex_irrefl : (a : ℤ) (p : Bool) → lex a a p ≡ p
unfolding lex
lex_irrefl a p = ground arith

ord_less-lex :
    (a b : OrdKey)
    → ord_less a b ≡ lex a.h b.h (lex a.tx b.tx (lex a.ts b.ts (str_ltb a.pin b.pin)))
unfolding ord_less lex
ord_less-lex a b = refl

pub ord_less_irrefl : (a : OrdKey) → ord_less a a ≡ false
ord_less_irrefl a = rw (ord_less-lex, lex_irrefl, lex_irrefl, lex_irrefl) (str_ltb_irrefl a.pin)

pub ord_less_trans :
    (a b c : OrdKey) → ord_less a b ≡ true → ord_less b c ≡ true → ord_less a c ≡ true
ord_less_trans a b c p q = rw (ord_less-lex a c) (
    lex_trans a.h b.h c.h _ _ _
      (lex_trans a.tx b.tx c.tx _ _ _
        (lex_trans a.ts b.ts c.ts _ _ _ (str_ltb_trans a.pin b.pin c.pin)))
      (rw (ord_less-lex a b) at p) (rw (ord_less-lex b c) at q))

-- Two keys of which neither is less are equal.
pub ord_less_total : (a b : OrdKey) → ord_less a b ≡ false → ord_less b a ≡ false → a ≡ b
ord_less_total a b p q =
    let h = lex_total a.h b.h _ _ (rw (ord_less-lex a b) at p) (rw (ord_less-lex b a) at q) in
    let t = lex_total a.tx b.tx _ _ h.1 h.2 in
    let s = lex_total a.ts b.ts _ _ t.1 t.2 in
    let n = str_ltb_total a.pin b.pin s.1 s.2 in
    λ i. record { h = h.0 i; tx = t.0 i; ts = s.0 i; pin = n i }

pub ord_less_asym : (a b : OrdKey) → ord_less a b ≡ true → ord_less b a ≡ false
ord_less_asym a b p = elim (Bool-cases (ord_less b a)) [
  | inl q ↦ cc (ord_less_trans a b a p q, ord_less_irrefl a)
  | inr q ↦ q
]

pub ord_less_cotrans :
    (a b c : OrdKey) → ord_less b a ≡ false → ord_less c b ≡ false → ord_less c a ≡ false
ord_less_cotrans a b c p q = elim (Bool-cases (ord_less c a)) [
  | inr r ↦ r
  | inl r ↦ elim (Bool-cases (ord_less a b)) [
    | inl s ↦ cc (ord_less_trans c a b r s)
    | inr s ↦ cc (ord_less_total a b s p)
  ]
]

-- Sorting loses and adds no event.
pub sort_chain_events-perm : (es : List ChainEvent) → Permᴰ (sort_chain_events es) es
unfolding sort_chain_events
sort_chain_events-perm es = sort_stable-perm event_less es

event_less-asym : (a b : ChainEvent) → event_less a b ≡ true → event_less b a ≡ false
unfolding event_less
event_less-asym a b = ord_less_asym (ord_key_of a) (ord_key_of b)

event_less_trans :
    (a b c : ChainEvent) → event_less a b ≡ true → event_less b c ≡ true → event_less a c ≡ true
unfolding event_less
event_less_trans a b c = ord_less_trans (ord_key_of a) (ord_key_of b) (ord_key_of c)

event_less-cotrans :
    (a b c : ChainEvent) → event_less b a ≡ false → event_less c b ≡ false → event_less c a ≡ false
unfolding event_less
event_less-cotrans a b c = ord_less_cotrans (ord_key_of a) (ord_key_of b) (ord_key_of c)

pub sort_chain_events-IsSorted : (es : List ChainEvent) → IsSorted event_less (sort_chain_events es)
unfolding sort_chain_events
sort_chain_events-IsSorted =
    sort_stable-IsSorted event_less event_less-asym event_less_trans event_less-cotrans

-- Different pins have different places in the order.
pub event_less-cases :
    (a b : ChainEvent) → a.pin_id ≢ b.pin_id → (event_less a b ≡ true) ⊎ (event_less b a ≡ true)
unfolding event_less ord_key_of
event_less-cases a b ne = elim (Bool-cases (event_less a b)) [
  | inl p ↦ inl p
  | inr p ↦ elim (Bool-cases (event_less b a)) [
    | inl q ↦ inr q
    | inr q ↦
        absurd (ne (ap (λ (k : OrdKey). k.pin) (ord_less_total (ord_key_of a) (ord_key_of b) p q)))
  ]
]

-- No two events of the list are of one pin.
abbrev pub DistinctPins : List ChainEvent → Type 0
DistinctPins [] = Unit
DistinctPins (e ∷ es) = All (λ f. e.pin_id ≢ f.pin_id) es × DistinctPins es

pin-cases :
    (e : ChainEvent) (es : List ChainEvent)
    → All (λ f. e.pin_id ≢ f.pin_id) es
    → All (λ f. (event_less e f ≡ true) ⊎ (event_less f e ≡ true)) es
pin-cases e [] h = tt
pin-cases e (f ∷ fs) h = (event_less-cases e f h.0, pin-cases e fs h.1)

DistinctPins-Apart : (es : List ChainEvent) → DistinctPins es → Apart event_less es
DistinctPins-Apart [] h = tt
DistinctPins-Apart (e ∷ es) h = (pin-cases e es h.0, DistinctPins-Apart es h.1)

-- The replay order is a function of the set of events: whatever the order in which events of
-- different pins were collected, they are walked in one order.
pub sort_chain_events-eq_of_perm :
    (es fs : List ChainEvent)
    → Permᴰ es fs
    → DistinctPins es
    → sort_chain_events es ≡ sort_chain_events fs
unfolding sort_chain_events
sort_chain_events-eq_of_perm es fs p h =
    sort_stable-eq_of_perm event_less event_less-asym event_less_trans event_less-cotrans p
      (DistinctPins-Apart es h)
