-- ===== src/IdAddress/Examples.antt =====
-- The theorems on addresses at a public key hash of twenty bytes.
use metaso_p2p.Prelude.{
  ℕ, zero, suc, ◌≡◌, ◌≤◌, refl, arith, true, some, List, ◌++◌, length, replicate, All,
}
use metaso_p2p.Prelude.Text.{Str, codes}
use metaso_p2p.IdAddress.{version_char, validate_data_length, encode_id_address}
use metaso_p2p.IdAddress.Total.{Byte, encode_id_address-total}
use metaso_p2p.IdAddress.Base58.{
  base58_check_decode, base58_check_encode, base58_check_decode-encode,
}

abbrev key_hash : List ℕ
key_hash = replicate 20 7

hash_valid : validate_data_length 0 key_hash ≡ true
unfolding validate_data_length
hash_valid = refl

bytes_of : (n : ℕ) → All Byte (replicate n 7)
bytes_of zero = tt
bytes_of (suc n) = (omega arith, bytes_of n)

encode_id_address-total_example :
    (char s : Str) × (version_char 0 ≡ some char)
    × (encode_id_address 0 key_hash ≡ some (codes "id" ++ char ++ codes "1" ++ s))
    × (6 ≤ length s)
encode_id_address-total_example = encode_id_address-total 0 key_hash hash_valid (bytes_of 20)

-- A library that writes bytes as they are, and a hash that is always the same.
abbrev as_is : List ℕ → List ℕ
as_is xs = xs

abbrev same_hash : List ℕ → List ℕ
same_hash xs = replicate 32 9

base58_check_decode-encode_example :
    base58_check_decode same_hash as_is (base58_check_encode same_hash as_is 0 key_hash)
    ≡ some (0, key_hash)
base58_check_decode-encode_example =
    base58_check_decode-encode as_is as_is same_hash (λ xs. refl) (λ xs. refl) 0 key_hash
