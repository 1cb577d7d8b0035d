-- ===== src/IdAddress/Convert.antt =====
-- Bech32 and the payloads of chain addresses into GlobalMetaIds (pkg/idaddress/converter.go).
use Prim.Native.Nat.{bit_xor}
use metaso_p2p.Prelude.{
  ℕ, ◌+◌, ◌*◌, ◌%◌, ◌^◌, Bool, true, not, ◌&&◌, ◌||◌, Option, none, some, List, [], ◌∷◌, ◌++◌,
  if◌then◌else◌, length, ltb, ◌==◌,
}
use metaso_p2p.Prelude.Text.{Str, codes, str_eq}
use metaso_p2p.IdAddress.{
  drain, finish_bits, polymod, hrp_expand, checksum_digits, encode_digits, encode_id_address,
}

-- `convertBits8to5`: without a bound on the values, and with an accumulator of 64 bits.
unfoldable pub convert_wide_from : ℕ → ℕ → Bool → ℕ → ℕ → List ℕ → Option (List ℕ)
unfolding drain finish_bits
convert_wide_from from_bits to_bits pad acc bits [] = finish_bits from_bits to_bits pad acc bits
convert_wide_from from_bits to_bits pad acc bits (value ∷ values) =
    let acc' = (acc * 2 ^ from_bits + value) % 2 ^ 64 in
    let (digits, left) = drain (bits + from_bits) to_bits acc' (bits + from_bits) in
    elim (convert_wide_from from_bits to_bits pad acc' left values) [
      | none ↦ none
      | some rest ↦ some (digits ++ rest)
    ]

-- The constants of Bech32 and Bech32m.
abbrev pub bech32_const : ℕ
bech32_const = 1

abbrev pub bech32m_const : ℕ
bech32m_const = 0x2bc830a3

-- `bech32VerifyChecksum`
unfoldable pub bech32_verify_checksum : Str → List ℕ → ℕ → Bool
bech32_verify_checksum hrp digits constant = polymod (hrp_expand hrp ++ digits) == constant

-- `Bech32Encode`
unfoldable pub bech32_encode : Str → ℕ → List ℕ → Option Str
unfolding convert_wide_from
bech32_encode hrp version program =
    let constant = if version == 0 then bech32_const else bech32m_const in
    if ltb (length program) 2 || ltb 40 (length program)
    then none
    else elim (convert_wide_from 8 5 true 0 0 program) [
      | none ↦ none
      | some converted ↦
          let digits = version ∷ converted in
          let zeros = 0 ∷ 0 ∷ 0 ∷ 0 ∷ 0 ∷ 0 ∷ [] in
          let poly = bit_xor (polymod (hrp_expand hrp ++ digits ++ zeros)) constant in
          elim (encode_digits (digits ++ checksum_digits 6 poly)) [
            | none ↦ none
            | some encoded ↦ some (hrp ++ codes "1" ++ encoded)
          ]
    ]

-- `convertFromLegacyAddress`
unfoldable pub convert_from_legacy : ℕ → List ℕ → Option Str
convert_from_legacy version payload =
    if version == 0x00 || version == 0x6F || version == 0x1E
    then encode_id_address 0 payload
    else if version == 0x05 || version == 0xC4 || version == 0x16
    then encode_id_address 1 payload
    else none

-- `convertFromSegWitAddress`
unfoldable pub convert_from_segwit : Str → ℕ → List ℕ → Option Str
convert_from_segwit hrp witness_version program =
    if not (str_eq hrp (codes "bc")) && not (str_eq hrp (codes "tb"))
    then none
    else if witness_version == 0
    then if length program == 20
      then encode_id_address 2 program
      else if length program == 32
      then encode_id_address 3 program
      else none
    else if witness_version == 1
    then if length program == 32 then encode_id_address 5 program else none
    else none
