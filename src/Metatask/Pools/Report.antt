-- ===== src/Metatask/Pools/Report.antt =====
-- The ballots of one submission as a report shows them: `nodeVotes` (internal/metatask/settle.go).
use mathlib.Core.List.{Permᴰ}
use metaso_p2p.Prelude.{
  ℕ, suc, ◌+◌, ◌≡◌, refl, ap, arith, inl, inr, Bool, true, false, Option, none, some, List, [], ◌∷◌,
  ◌∙◌, if◌then◌else◌, length, Bool-cases,
}
use metaso_p2p.Prelude.Int.{ℤ}
use metaso_p2p.Prelude.Text.{Str, codes, str_eq, str_ltb}
use metaso_p2p.Prelude.Assoc.{Assoc, insert}
use metaso_p2p.Prelude.Sort.{sort_stable}
use metaso_p2p.Prelude.Sort.Laws.{sort_stable-perm}
use metaso_p2p.Metatask.Json.{Json, null, bool, text, number, array, object, get, payload_present}
use metaso_p2p.Metatask.Votes.{Reason}
use metaso_p2p.Metatask.Pools.{Pin, pin_timestamp, read, vote_invalid, keep_pins}

-- `payloadTypeName`
unfoldable pub type_name : Option Json → Str
type_name none = codes "absent"
type_name (some null) = codes "null"
type_name (some (text _)) = codes "string"
type_name (some (bool _)) = codes "bool"
type_name (some (number _ _)) = codes "number"
type_name (some (array _)) = codes "array"
type_name (some (object _)) = codes "object"

pub record Vote : Type 0 where
  pub pin : Str
  pub bot : Str
  pub verdict : Str
  pub valid : Bool
  pub invalid_reason : Option Reason
  pub has_sub : Bool
  pub has_failreason : Bool
  pub sub_type : Str
  pub height : ℤ
  pub tx_index : ℤ
  pub timestamp : ℤ

is_valid : Option Reason → Bool
is_valid none = true
is_valid (some _) = false

unfoldable pub vote_of : Pin → Vote
unfolding is_valid type_name
vote_of p = record {
  pin = p.id;
  bot = p.global_meta_id;
  verdict = read p (codes "verdict");
  valid = is_valid (vote_invalid p.payload);
  invalid_reason = vote_invalid p.payload;
  has_sub = payload_present (get p.payload (codes "semantic_check"));
  has_failreason = payload_present (get p.payload (codes "failreason"));
  sub_type = type_name (get p.payload (codes "semantic_check"));
  height = p.genesis_height;
  tx_index = p.tx_index;
  timestamp = pin_timestamp p;
}

pub record NodeVotes : Type 0 where
  pub valid : List Vote
  pub invalid : List Vote
  pub pass_raw : ℕ
  pub fail_raw : ℕ

bump_if : Bool → ℕ → ℕ
bump_if b n = if b then n + 1 else n

-- The loop over the ballots, before the lists are sorted.
unfoldable pub gather : Str → List Pin → NodeVotes
unfolding vote_of bump_if
gather target [] = record { valid = []; invalid = []; pass_raw = 0; fail_raw = 0 }
gather target (p ∷ verifies) =
    let rest = gather target verifies in
    let v = vote_of p in
    if str_eq (read p (codes "targetid")) target
    then record {
      valid = if v.valid then v ∷ rest.valid else rest.valid;
      invalid = if v.valid then rest.invalid else v ∷ rest.invalid;
      pass_raw = bump_if (str_eq v.verdict (codes "pass")) rest.pass_raw;
      fail_raw = bump_if (str_eq v.verdict (codes "fail")) rest.fail_raw;
    }
    else rest

unfoldable pub vote_before : Vote → Vote → Bool
vote_before a b = str_ltb a.pin b.pin

-- `nodeVotes`
unfoldable pub node_votes : Str → List Pin → NodeVotes
unfolding gather vote_before sort_stable
node_votes target verifies =
    let all = gather target verifies in
    record all {
      valid = sort_stable vote_before all.valid;
      invalid = sort_stable vote_before all.invalid;
    }

-- `lastValidByBot`
unfoldable pub last_valid_by_bot : Assoc Vote → List Vote → Assoc Vote
last_valid_by_bot out [] = out
last_valid_by_bot out (v ∷ votes) = last_valid_by_bot (insert v.bot v out) votes

length_perm : {xs ys : List Vote} → Permᴰ xs ys → length xs ≡ length ys
length_perm Permᴰ.nil = refl
length_perm (Permᴰ.cons e p) = ap suc (length_perm p)
length_perm (Permᴰ.swap e f) = refl
length_perm (Permᴰ.trans p q) = length_perm p ∙ length_perm q

gather-length :
    (target : Str) (verifies : List Pin)
    → length (gather target verifies).valid + length (gather target verifies).invalid
      ≡ length (keep_pins (λ p. str_eq (read p (codes "targetid")) target) verifies)
unfolding gather keep_pins
gather-length target [] = refl
gather-length target (p ∷ verifies) =
    elim (Bool-cases (str_eq (read p (codes "targetid")) target)) [
      | inl on ↦ elim (Bool-cases (vote_of p).valid) [
        | inl v ↦ rw (gather, keep_pins, on, v) (omega (arith, gather-length target verifies))
        | inr v ↦ rw (gather, keep_pins, on, v) (omega (arith, gather-length target verifies))
      ]
      | inr off ↦ rw (gather, keep_pins, off) (gather-length target verifies)
    ]

-- A report shows every ballot on the submission once, as a valid or as an invalid one.
pub node_votes-length :
    (target : Str) (verifies : List Pin)
    → length (node_votes target verifies).valid + length (node_votes target verifies).invalid
      ≡ length (keep_pins (λ p. str_eq (read p (codes "targetid")) target) verifies)
unfolding node_votes
node_votes-length target verifies = omega (
  arith,
  gather-length target verifies,
  length_perm (sort_stable-perm vote_before (gather target verifies).valid),
  length_perm (sort_stable-perm vote_before (gather target verifies).invalid),
)
