-- ===== src/Metatask/Json.antt =====
-- Decoded payloads and the accessors of internal/metatask/v121.go and internal/metatask/payload.go.
-- The bytes are parsed by `encoding/json`, so a body arrives here as a value. A number keeps its
-- literal and what `json.Number.Float64` reads it as, `none` on an error.
use metaso_p2p.Prelude.{
  ℕ, Bool, true, false, not, ◌&&◌, ◌||◌, Option, none, some, List, [], ◌∷◌, ◌==◌, leb,
  if◌then◌else◌, ◌≡◌, refl,
}
use metaso_p2p.Prelude.Int.{ℤ, pos, eqb_ℤ}
use metaso_p2p.Prelude.Text.{Str, codes, str_eq}

-- A finite float64 as the code looks at it: its truncation, and whether it has no fraction.
pub record Float : Type 0 where
  pub trunc : ℤ
  pub integral : Bool

mutual
  pub data Json : Type 0 where
    null : Json
    bool : Bool → Json
    text : Str → Json
    number : Str → Option Float → Json
    array : Items → Json
    object : Fields → Json

  pub data Items : Type 0 where
    nil : Items
    item : Json → Items → Items

  pub data Fields : Type 0 where
    end : Fields
    field : Str → Json → Fields → Fields

-- body[key]
unfoldable pub get : Fields → Str → Option Json
get end k = none
get (field j v fs) k = if str_eq j k then some v else get fs k

-- The elements of a `[]any`.
unfoldable pub to_list : Items → List Json
to_list nil = []
to_list (item v vs) = v ∷ to_list vs

unfoldable pub str_any : Option Json → Str
str_any (some (text s)) = s
str_any _ = []

abbrev pub field_str : Fields → Str → Str
field_str body key = str_any (get body key)

-- `strings.TrimSpace(s) == ""`: only runes of `unicode.IsSpace`, read as UTF-8.
is_space : ℕ → Bool
is_space c = (leb 9 c && leb c 13) || c == 32

is_space2 : ℕ → ℕ → Bool
is_space2 c d = c == 0xC2 && (d == 0x85 || d == 0xA0)

is_space3 : ℕ → ℕ → ℕ → Bool
is_space3 c d e =
    (c == 0xE1 && d == 0x9A && e == 0x80)
    || (c == 0xE2
        && d == 0x80
        && ((leb 0x80 e && leb e 0x8A) || e == 0xA8 || e == 0xA9 || e == 0xAF))
    || (c == 0xE2 && d == 0x81 && e == 0x9F)
    || (c == 0xE3 && d == 0x80 && e == 0x80)

unfoldable pub is_blank : Str → Bool
unfolding is_space is_space2 is_space3
is_blank [] = true
is_blank (c ∷ []) = is_space c
is_blank (c ∷ d ∷ []) = (is_space c && is_space d) || is_space2 c d
is_blank (c ∷ d ∷ e ∷ s) =
    (is_space c && is_blank (d ∷ e ∷ s))
    || (is_space2 c d && is_blank (e ∷ s))
    || (is_space3 c d e && is_blank s)

unfoldable pub truthy_str_any : Option Json → Bool
truthy_str_any (some (text s)) = not (is_blank s)
truthy_str_any _ = false

unfoldable pub num_any : Option Json → Option Float
num_any (some (number literal value)) = value
num_any _ = none

-- `payloadString`
unfoldable pub payload_string : Option Json → Str
payload_string (some (text s)) = s
payload_string (some (number literal value)) = literal
payload_string _ = []

is_zero : Option Float → Bool
is_zero none = false
is_zero (some f) = eqb_ℤ f.trunc (pos 0) && f.integral

-- `payloadPresent`: Python's truth of a value.
unfoldable pub payload_present : Option Json → Bool
unfolding is_zero
payload_present none = false
payload_present (some null) = false
payload_present (some (bool b)) = b
payload_present (some (text s)) = not (is_blank s)
payload_present (some (number literal value)) = not (is_zero value)
payload_present (some (array nil)) = false
payload_present (some (array (item v vs))) = true
payload_present (some (object end)) = false
payload_present (some (object (field k v fs))) = true

-- `payloadNumber`
unfoldable pub payload_number : Option Json → Option Float
payload_number v = num_any v

blank_texts : (is_blank (codes " \t\n") ≡ true) × (is_blank (codes " a ") ≡ false)
unfolding is_blank
blank_texts = (refl, refl)
