-- ===== src/IdAddress.antt =====
-- GlobalMetaId encoding (pkg/idaddress/idaddress.go): versions, the conversion of bit widths, the
-- checksum and the address. Bytes and digits are numbers; a shift is a product or a quotient by a
-- power of two, and a mask of w ones a remainder by 2 ^ w.
pub mod Total
pub mod Convert
pub mod Base58
pub mod Examples
use Prim.Native.Nat.{bit_xor}
use metaso_p2p.Prelude.{
  ℕ, zero, suc, ◌+◌, ◌-◌, ◌*◌, ◌/◌, ◌%◌, ◌^◌, Bool, true, false, not, ◌&&◌, ◌||◌, Option, none,
  some, List, [], ◌∷◌, ◌++◌, if◌then◌else◌, length, get_elem?, map, ltb, leb, ◌==◌,
}
use metaso_p2p.Prelude.Text.{Str, codes, str_eq}

-- `VersionChar`
unfoldable pub version_char : ℕ → Option Str
version_char version =
    if version == 0
    then some (codes "q")
    else if version == 1
    then some (codes "p")
    else if version == 2
    then some (codes "z")
    else if version == 3
    then some (codes "r")
    else if version == 4
    then some (codes "y")
    else if version == 5
    then some (codes "t")
    else none

-- `CharVersion`
unfoldable pub char_version : Str → Option ℕ
char_version c =
    if str_eq c (codes "q")
    then some 0
    else if str_eq c (codes "p")
    then some 1
    else if str_eq c (codes "z")
    then some 2
    else if str_eq c (codes "r")
    then some 3
    else if str_eq c (codes "y")
    then some 4
    else if str_eq c (codes "t")
    then some 5
    else none

unfoldable pub charset : Str
charset = codes "qpzry9x8gf2tvdw0s3jn54khce6mua7l"

valid_multisig : List ℕ → Bool
valid_multisig (m ∷ n ∷ keys) =
    not (m == 0 || n == 0 || ltb n m || ltb 15 n) && length keys + 2 == 2 + n * 33
valid_multisig _ = false

-- `validateDataLength`: whether there is no error.
unfoldable pub validate_data_length : ℕ → List ℕ → Bool
unfolding valid_multisig
validate_data_length version bytes =
    if version == 0 || version == 1 || version == 2
    then length bytes == 20
    else if version == 3 || version == 5
    then length bytes == 32
    else if version == 4
    then valid_multisig bytes
    else false

-- The inner loop of `convertBits`: the digits that the accumulator has, and the bits left. The
-- caller gives a round for every bit.
unfoldable pub drain : ℕ → ℕ → ℕ → ℕ → List ℕ × ℕ
drain zero to_bits acc bits = ([], bits)
drain (suc fuel) to_bits acc bits =
    let (digits, left) = drain fuel to_bits acc (bits - to_bits) in
    if leb to_bits bits
    then ((acc / 2 ^ (bits - to_bits)) % 2 ^ to_bits ∷ digits, left)
    else ([], bits)

-- After the last byte; `none` is the error on the padding.
unfoldable pub finish_bits : ℕ → ℕ → Bool → ℕ → ℕ → Option (List ℕ)
finish_bits from_bits to_bits true acc bits =
    some (if ltb 0 bits then (acc * 2 ^ (to_bits - bits)) % 2 ^ to_bits ∷ [] else [])
finish_bits from_bits to_bits false acc bits =
    if leb from_bits bits || not ((acc * 2 ^ (to_bits - bits)) % 2 ^ to_bits == 0)
    then none
    else some []

prepend : List ℕ → Option (List ℕ) → Option (List ℕ)
prepend ds none = none
prepend ds (some rest) = some (ds ++ rest)

-- The bits of the value are below those shifted in front of it, so `|` is a sum.
unfoldable pub convert_from : ℕ → ℕ → Bool → ℕ → ℕ → List ℕ → Option (List ℕ)
unfolding drain finish_bits prepend
convert_from from_bits to_bits pad acc bits [] = finish_bits from_bits to_bits pad acc bits
convert_from from_bits to_bits pad acc bits (value ∷ values) =
    let acc' = (acc * 2 ^ from_bits + value) % 2 ^ (from_bits + to_bits - 1) in
    let (digits, left) = drain (bits + from_bits) to_bits acc' (bits + from_bits) in
    let rest = convert_from from_bits to_bits pad acc' left values in
    if value / 2 ^ from_bits == 0 then prepend digits rest else none

-- `intSliceToBytes`
unfoldable pub int_slice_to_bytes : List ℕ → List ℕ
int_slice_to_bytes bytes = map (λ v. v % 256) bytes

-- `convertBits` of bytes.
unfoldable pub convert_bits : List ℕ → ℕ → ℕ → Bool → Option (List ℕ)
unfolding convert_from
convert_bits bytes from_bits to_bits pad = convert_from from_bits to_bits pad 0 0 bytes

abbrev generators : List ℕ
generators = 0x3b6a57b2 ∷ 0x26508e6d ∷ 0x1ea119fa ∷ 0x3d4233dd ∷ 0x2a1462b3 ∷ []

-- The generators at the bits of `top`.
unfoldable pub mix : ℕ → ℕ → List ℕ → ℕ
mix top chk [] = chk
mix top chk (g ∷ gs) = mix (top / 2) (if top % 2 == 1 then bit_xor chk g else chk) gs

unfoldable pub polymod_from : ℕ → List ℕ → ℕ
unfolding mix
polymod_from chk [] = chk
polymod_from chk (v ∷ values) =
    polymod_from (mix (chk / 2 ^ 25) (bit_xor ((chk % 2 ^ 25) * 32) v) generators) values

-- `polymod`
unfoldable pub polymod : List ℕ → ℕ
unfolding polymod_from
polymod values = polymod_from 1 values

-- `hrpExpand` of an ASCII prefix.
unfoldable pub hrp_expand : Str → List ℕ
hrp_expand hrp = map (λ c. c / 32) hrp ++ 0 ∷ map (λ c. c % 32) hrp

unfoldable pub checksum_digits : ℕ → ℕ → List ℕ
checksum_digits zero modulus = []
checksum_digits (suc n) modulus = (modulus / 2 ^ (5 * n)) % 32 ∷ checksum_digits n modulus

-- `createChecksum`
unfoldable pub create_checksum : List ℕ → List ℕ → List ℕ
unfolding checksum_digits polymod
create_checksum hrp bytes =
    checksum_digits 6 (bit_xor (polymod (hrp ++ bytes ++ 0 ∷ 0 ∷ 0 ∷ 0 ∷ 0 ∷ 0 ∷ [])) 1)

-- `verifyChecksum`
unfoldable pub verify_checksum : List ℕ → List ℕ → Bool
unfolding polymod
verify_checksum hrp bytes = polymod (hrp ++ bytes) == 1

-- `Charset[val]` of each digit; `none` where the index is out of range, which panics.
unfoldable pub encode_digits : List ℕ → Option Str
unfolding charset
encode_digits [] = some []
encode_digits (d ∷ digits) = elim (get_elem? charset d) [
  | none ↦ none
  | some c ↦ elim (encode_digits digits) [ none ↦ none | some s ↦ some (c ∷ s) ]
]

-- The digits with their checksum, behind the prefix.
unfoldable pub address_of : Str → List ℕ → Option Str
unfolding encode_digits create_checksum hrp_expand
address_of char converted =
    let hrp = codes "id" ++ char in
    elim (encode_digits (converted ++ create_checksum (hrp_expand hrp) converted)) [
      | none ↦ none
      | some encoded ↦ some (hrp ++ codes "1" ++ encoded)
    ]

-- `EncodeIDAddress`; `none` is an error.
unfoldable pub encode_id_address : ℕ → List ℕ → Option Str
unfolding version_char validate_data_length convert_bits address_of
encode_id_address version bytes = elim (version_char version) [
  | none ↦ none
  | some char ↦
      if validate_data_length version bytes
      then elim (convert_bits bytes 8 5 true) [
        | none ↦ none
        | some converted ↦ address_of char converted
      ]
      else none
]
