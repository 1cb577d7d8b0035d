-- ===== src/Agentpedia/Value.antt =====
-- Decoded payloads and the accessors of internal/agentpedia/replay.go. The bytes are parsed by
-- `encoding/json`, so a payload arrives here as a value.
use metaso_p2p.Prelude.{
  ℕ, suc, ◌*◌, ◌/◌, ◌&&◌, Bool, false, Option, none, some, List, [], ◌∷◌, if◌then◌else◌, ◌≡◌, refl,
}
use metaso_p2p.Prelude.Int.{ℤ, pos, negsuc, sub_ℕ, ◌+ℤ◌, ◌*ℤ◌, ltb_ℤ, leb_ℤ, max_int64}
use metaso_p2p.Prelude.Text.{Str, codes, str_eq, is_empty}
use metaso_p2p.Prelude.Assoc.{Assoc, insert}

-- A finite float64 as the fraction `num / den`, its denominator not 0. Sums and quotients are
-- exact: their rounding is not modelled.
pub record Float : Type 0 where
  pub num : ℤ
  pub den : ℕ

-- float64(n)
abbrev pub float_of : ℤ → Float
float_of n = record { num = n; den = 1 }

-- a <= b
unfoldable pub leb_float : Float → Float → Bool
leb_float a b = leb_ℤ (a.num *ℤ pos b.den) (b.num *ℤ pos a.den)

-- a < b
unfoldable pub ltb_float : Float → Float → Bool
ltb_float a b = ltb_ℤ (a.num *ℤ pos b.den) (b.num *ℤ pos a.den)

unfoldable pub add_float : Float → Float → Float
add_float a b = record { num = a.num *ℤ pos b.den +ℤ b.num *ℤ pos a.den; den = a.den * b.den }

-- a / n on integers, rounded towards zero as Go does.
unfoldable pub quot_ℤ : ℤ → ℕ → ℤ
quot_ℤ (pos a) n = pos (a / n)
quot_ℤ (negsuc a) n = sub_ℕ 0 (suc a / n)

-- int64(f): truncation, and out of the range of an int64 its least value, as on amd64.
unfoldable pub trunc : Float → ℤ
unfolding quot_ℤ
trunc f =
    let n = quot_ℤ f.num f.den in
    if leb_ℤ (negsuc max_int64) n && leb_ℤ n (pos max_int64) then n else negsuc max_int64

mutual
  -- What an `any` of a payload holds.
  pub data Value : Type 0 where
    null : Value
    bool : Bool → Value
    number : Float → Value
    text : Str → Value
    array : Items → Value
    strings : List Str → Value
    object : Fields → Value

  pub data Items : Type 0 where
    nil : Items
    item : Value → Items → Items

  pub data Fields : Type 0 where
    end : Fields
    field : Str → Value → Fields → Fields

-- m[key]; a nil map reads as the empty one.
unfoldable pub get : Fields → Str → Option Value
get end k = none
get (field j v fs) k = if str_eq j k then some v else get fs k

-- v, _ := x.(string)
unfoldable pub text_of : Option Value → Str
text_of (some (text s)) = s
text_of _ = []

abbrev pub str : Fields → Str → Str
str m k = text_of (get m k)

-- v, ok := x.(float64)
unfoldable pub number_of : Option Value → Option Float
number_of (some (number f)) = some f
number_of _ = none

-- v, ok := x.(bool)
unfoldable pub bool_of : Option Value → Option Bool
bool_of (some (bool b)) = some b
bool_of _ = none

-- The zero values of the two.
abbrev pub or_zero : Option Float → Float
or_zero none = float_of (pos 0)
or_zero (some f) = f

abbrev pub or_false : Option Bool → Bool
or_false none = false
or_false (some b) = b

-- v, _ := x.(map[string]any): `none` is the nil map.
unfoldable pub object_of : Option Value → Option Fields
object_of (some (object fs)) = some fs
object_of _ = none

abbrev pub sub : Fields → Str → Option Fields
sub m k = object_of (get m k)

-- Reading a nil map.
abbrev pub fields_of : Option Fields → Fields
fields_of none = end
fields_of (some fs) = fs

-- The texts of a `[]any` that are not empty.
texts : Items → List Str
unfolding text_of
texts nil = []
texts (item v vs) =
    let s = text_of (some v) in let rest = texts vs in if is_empty s then rest else s ∷ rest

unfoldable pub as_string_slice : Option Value → List Str
unfolding texts
as_string_slice (some (array vs)) = texts vs
as_string_slice (some (strings ss)) = ss
as_string_slice _ = []

-- The fields that are numbers, put into a map.
unfoldable pub put_numbers : Fields → Assoc Float → Assoc Float
unfolding number_of
put_numbers end m = m
put_numbers (field k v fs) m = elim (number_of (some v)) [
  | none ↦ put_numbers fs m
  | some f ↦ insert k f (put_numbers fs m)
]

founders_read :
    as_string_slice (some (array (item (text (codes "a")) (item null (item (text []) nil)))))
    ≡ codes "a" ∷ []
unfolding as_string_slice
founders_read = refl
