-- ===== src/IdAddress/Total.antt =====
-- The digits of an encoding and the character set they index.
use metaso_p2p.Prelude.{
  ℕ, zero, suc, ◌+◌, ◌-◌, ◌*◌, ◌/◌, ◌%◌, ◌^◌, ◌≤◌, ◌<◌, ◌≡◌, ◌≢◌, refl, arith, inl, inr, true, none,
  some, List, [], ◌∷◌, ◌++◌, length, length-append, get_elem?, ltb, leb, leb→le, ◌==◌, All,
  All-append, Bool-cases, Option-cases,
}
use metaso_p2p.Prelude.Text.{Str, codes}
use metaso_p2p.IdAddress.{
  version_char, charset, validate_data_length, drain, finish_bits, convert_from, convert_bits,
  checksum_digits, create_checksum, hrp_expand, encode_digits, address_of, encode_id_address,
}

abbrev pub Byte : ℕ → Type 0
Byte b = b < 256

abbrev pub Digit : ℕ → Type 0
Digit d = d < 32

-- With a round for every bit, fewer bits are left than a digit has.
drain-left :
    (to_bits fuel acc bits : ℕ)
    → 0 < to_bits
    → bits ≤ fuel
    → (drain fuel to_bits acc bits).1 < to_bits
unfolding drain
drain-left to_bits zero acc bits h le = omega (arith, h, le)
drain-left to_bits (suc fuel) acc bits h le = elim (Bool-cases (leb to_bits bits)) [
  | inl e ↦
      rw e (
        drain-left to_bits fuel acc (bits - to_bits) h
          (omega (arith, h, le, leb→le to_bits bits e)))
  | inr e ↦ rw e (ground (arith, e))
]

drain-Digit : (fuel acc bits : ℕ) → All Digit (drain fuel 5 acc bits).0
unfolding drain
drain-Digit zero acc bits = tt
drain-Digit (suc fuel) acc bits = elim (Bool-cases (leb 5 bits)) [
  | inl e ↦ rw e (omega arith, drain-Digit fuel acc (bits - 5))
  | inr e ↦ rw e tt
]

-- Padded, the conversion of bytes to digits of five bits has no error.
convert_from-Digit :
    (acc bits : ℕ) (bytes : List ℕ)
    → All Byte bytes
    → (ds : List ℕ) × (convert_from 8 5 true acc bits bytes ≡ some ds) × All Digit ds
unfolding convert_from finish_bits
convert_from-Digit acc bits [] h = elim (Bool-cases (ltb 0 bits)) [
  | inl e ↦ ((acc * 2 ^ (5 - bits)) % 32 ∷ [], rw e refl, (omega arith, tt))
  | inr e ↦ ([], rw e refl, tt)
]
convert_from-Digit acc bits (value ∷ values) h =
    let acc' = (acc * 2 ^ 8 + value) % 2 ^ 12 in
    let out = drain (bits + 8) 5 acc' (bits + 8) in
    let (ds, e, digits) = convert_from-Digit acc' out.1 values h.1 in
    let byte : (value / 2 ^ 8 == 0) ≡ true = ground (arith, h.0) in
    (
      out.0 ++ ds,
      rw (convert_from, byte, e) refl,
      All-append Digit out.0 ds (drain-Digit (bits + 8) acc' (bits + 8)) digits,
    )

elem-some : (s : Str) (k : ℕ) → k < length s → (c : ℕ) × (get_elem? s k ≡ some c)
elem-some [] k h = absurd (omega (arith, h))
elem-some (c ∷ s) zero h = (c, refl)
elem-some (c ∷ s) (suc k) h = elem-some s k (omega arith)

charset_in_range : (d : ℕ) → Digit d → (c : ℕ) × (get_elem? charset d ≡ some c)
unfolding charset
charset_in_range d h = elem-some charset d h

encode_digits-total :
    (ds : List ℕ) → All Digit ds → (s : Str) × (encode_digits ds ≡ some s) × (length s ≡ length ds)
unfolding encode_digits
encode_digits-total [] h = ([], refl, refl)
encode_digits-total (d ∷ ds) h =
    let (c, at) = charset_in_range d h.0 in
    let (s, run, n) = encode_digits-total ds h.1 in
    (c ∷ s, rw (encode_digits, at, run) refl, omega (arith, n))

checksum_digits-Digit : (n modulus : ℕ) → All Digit (checksum_digits n modulus)
unfolding checksum_digits
checksum_digits-Digit zero modulus = tt
checksum_digits-Digit (suc n) modulus = (omega arith, checksum_digits-Digit n modulus)

create_checksum-Digit : (hrp ds : List ℕ) → All Digit (create_checksum hrp ds)
unfolding create_checksum
create_checksum-Digit hrp ds = checksum_digits-Digit 6 _

length-create_checksum : (hrp ds : List ℕ) → length (create_checksum hrp ds) ≡ 6
unfolding create_checksum checksum_digits
length-create_checksum hrp ds = refl

valid_known :
    (version : ℕ) (bytes : List ℕ)
    → validate_data_length version bytes ≡ true
    → version_char version ≢ none
unfolding validate_data_length version_char
valid_known version bytes v e = ground (arith, v, e)

address_of-total :
    (char : Str) (ds : List ℕ)
    → All Digit ds
    → (s : Str) × (address_of char ds ≡ some (codes "id" ++ char ++ codes "1" ++ s))
      × (length s ≡ length ds + 6)
unfolding address_of
address_of-total char ds h =
    let (s, run, n) =
      encode_digits-total (ds ++ create_checksum (hrp_expand (codes "id" ++ char)) ds)
        (All-append Digit ds _ h (create_checksum-Digit (hrp_expand (codes "id" ++ char)) ds)) in
    (
      s,
      rw (address_of, run) refl,
      omega (
        arith,
        n,
        length-append ds (create_checksum (hrp_expand (codes "id" ++ char)) ds),
        length-create_checksum (hrp_expand (codes "id" ++ char)) ds,
      ),
    )

-- Encoding a byte string whose length is right for its version gives an address: the prefix id, the
-- version's character, the separator, and at least the six digits of the checksum. There is no
-- error and no read of the character set out of range.
pub encode_id_address-total :
    (version : ℕ) (bytes : List ℕ)
    → validate_data_length version bytes ≡ true
    → All Byte bytes
    → (char s : Str) × (version_char version ≡ some char)
      × (encode_id_address version bytes ≡ some (codes "id" ++ char ++ codes "1" ++ s))
      × (6 ≤ length s)
unfolding encode_id_address
encode_id_address-total version bytes v h = elim (Option-cases (version_char version)) [
  | inl e ↦ absurd (valid_known version bytes v e)
  | inr (char, e) ↦
      let (ds, run, digits) = convert_from-Digit 0 0 bytes h in
      let (s, at, n) = address_of-total char ds digits in
      (char, s, e, rw (encode_id_address, e, v, convert_bits, run) at, omega (arith, n))
]
