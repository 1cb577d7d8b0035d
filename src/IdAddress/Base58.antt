-- ===== src/IdAddress/Base58.antt =====
-- Base58Check (pkg/idaddress/converter.go). Base58 is a library's and SHA-256 the standard library's:
-- `decode`, `encode` and `double_sha256` are parameters.
use metaso_p2p.Prelude.{
  ℕ, ◌+◌, ◌-◌, ◌≤◌, ◌≡◌, refl, ap, ◌∙◌, arith, false, not, ◌&&◌, Option, none, some, List, [], ◌∷◌,
  ◌++◌, if◌then◌else◌, length, length-append, take, drop, ltb, ◌==◌,
}
use metaso_p2p.Prelude.Text.{Str, str_eq, str_eq_refl, is_empty}

module _ (decode : Str → List ℕ) where
  -- `Base58Decode`; the library gives no bytes on an error.
  unfoldable pub base58_decode : Str → Option (List ℕ)
  base58_decode input =
      let decoded = decode input in
      if length decoded == 0 && not (is_empty input) then none else some decoded

module _ (double_sha256 : List ℕ → List ℕ) where
  version_and_payload : List ℕ → Option (ℕ × List ℕ)
  version_and_payload [] = none
  version_and_payload (version ∷ payload) = some (version, payload)

  -- The bytes without their checksum, if it is right.
  unfoldable pub checked_payload : List ℕ → Option (ℕ × List ℕ)
  unfolding version_and_payload
  checked_payload decoded =
      if ltb (length decoded) 5
      then none
      else let body = take (length decoded - 4) decoded in
        let checksum = drop (length decoded - 4) decoded in
        if str_eq checksum (take 4 (double_sha256 body)) then version_and_payload body else none

  -- `Base58CheckDecode`
  unfoldable pub base58_check_decode : (Str → List ℕ) → Str → Option (ℕ × List ℕ)
  unfolding base58_decode checked_payload
  base58_check_decode decode input = elim (base58_decode decode input) [
    | none ↦ none
    | some decoded ↦ checked_payload decoded
  ]

  -- `Base58CheckEncode`
  unfoldable pub base58_check_encode : (List ℕ → Str) → ℕ → List ℕ → Str
  base58_check_encode encode version payload =
      let body = version ∷ payload in encode (body ++ take 4 (double_sha256 body))

take-append : (xs ys : List ℕ) → take (length xs) (xs ++ ys) ≡ xs
take-append [] ys = refl
take-append (x ∷ xs) ys = ap (λ zs. x ∷ zs) (take-append xs ys)

drop-append : (xs ys : List ℕ) → drop (length xs) (xs ++ ys) ≡ ys
drop-append [] ys = refl
drop-append (x ∷ xs) ys = drop-append xs ys

length-take4 : (xs : List ℕ) → 4 ≤ length xs → length (take 4 xs) ≡ 4
length-take4 (a ∷ b ∷ c ∷ d ∷ xs) h = refl
length-take4 [] h = absurd (omega (arith, h))
length-take4 (a ∷ []) h = absurd (omega (arith, h))
length-take4 (a ∷ b ∷ []) h = absurd (omega (arith, h))
length-take4 (a ∷ b ∷ c ∷ []) h = absurd (omega (arith, h))

module _ (double_sha256 : List ℕ → List ℕ)
    (long : (xs : List ℕ) → length (double_sha256 xs) ≡ 32) where
  checked_payload-split :
      (decoded body sum : List ℕ)
      → ltb (length decoded) 5 ≡ false
      → take (length decoded - 4) decoded ≡ body
      → drop (length decoded - 4) decoded ≡ sum
      → take 4 (double_sha256 body) ≡ sum
      → checked_payload double_sha256 decoded ≡ version_and_payload double_sha256 body
  unfolding checked_payload
  checked_payload-split decoded body sum enough e1 e2 e3 =
      rw (checked_payload, enough, e1, e2, e3, str_eq_refl sum) refl

  -- What the encoder puts together is taken apart again.
  checked_payload-append :
      (version : ℕ) (payload : List ℕ)
      → checked_payload double_sha256
          ((version ∷ payload) ++ take 4 (double_sha256 (version ∷ payload)))
        ≡ some (version, payload)
  unfolding checked_payload
  checked_payload-append version payload =
      let body = version ∷ payload in
      let sum = take 4 (double_sha256 body) in
      let four = length-take4 (double_sha256 body) (omega (arith, long body)) in
      let all : length (body ++ sum) ≡ length body + 4 =
        omega (arith, length-append body sum, four) in
      let cut : length (body ++ sum) - 4 ≡ length body = omega (arith, all) in
      let enough : ltb (length (body ++ sum)) 5 ≡ false = ground (arith, all) in
      checked_payload-split (body ++ sum) body sum enough
        (ap (λ n. take n (body ++ sum)) cut ∙ take-append body sum)
        (ap (λ n. drop n (body ++ sum)) cut ∙ drop-append body sum) refl

base58_decode-some :
    (decode : Str → List ℕ) (input : Str) (x : ℕ) (xs : List ℕ)
    → decode input ≡ x ∷ xs
    → base58_decode decode input ≡ some (x ∷ xs)
unfolding base58_decode
base58_decode-some decode input x xs e = rw (base58_decode, e) (ground arith)

-- Where the library's encoding is undone by its decoding and the hash has its 32 bytes, an address
-- decodes to the version and the payload that it was made of.
pub base58_check_decode-encode :
    (decode : Str → List ℕ) (encode : List ℕ → Str) (double_sha256 : List ℕ → List ℕ)
    → ((xs : List ℕ) → decode (encode xs) ≡ xs)
    → ((xs : List ℕ) → length (double_sha256 xs) ≡ 32)
    → (version : ℕ) (payload : List ℕ)
    → base58_check_decode double_sha256 decode
        (base58_check_encode double_sha256 encode version payload)
      ≡ some (version, payload)
unfolding base58_check_decode base58_check_encode
base58_check_decode-encode decode encode double_sha256 undone long version payload =
    let body = version ∷ payload in
    let read =
      base58_decode-some decode (encode (body ++ take 4 (double_sha256 body))) version
        (payload ++ take 4 (double_sha256 body)) (undone (body ++ take 4 (double_sha256 body))) in
    rw (base58_check_decode, read) (checked_payload-append double_sha256 long version payload)
