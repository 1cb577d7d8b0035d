-- ===== src/Federation/Pages.antt =====
-- Pages of the presence list (internal/federation/store.go: paginatePresence, OnlineList;
-- internal/socket/presence.go: the bounds of HandleOnlineList).
use metaso_p2p.Prelude.{
  ℕ, ◌+◌, ◌-◌, ◌*◌, ◌≤◌, ◌≡◌, refl, ap, sym, ◌∙◌, ◌<◌, ◌^◌, suc, zero, ◌&&◌, Option, none, some,
  List, [], ◌∷◌, ◌++◌, if◌then◌else◌, length, take, drop, arith,
}
use metaso_p2p.Prelude.Int.{ℤ, pos, negsuc, ◌+ℤ◌, ◌-ℤ◌, ◌*ℤ◌, ltb_ℤ, leb_ℤ, wrap64, wrap64_lem}
use metaso_p2p.Federation.Store.{OnlineEntry, PresenceStore}
use metaso_p2p.Federation.Merge.{global_online}

-- `items[start:end]`: none is a panic.
unfoldable pub slice {ℓ} : {A : Type ℓ} → ℤ → ℤ → List A → Option (List A)
slice (pos a) (pos b) xs =
    if leb_ℤ (pos a) (pos b) && leb_ℤ (pos b) (pos (length xs))
    then some (take (b - a) (drop a xs))
    else none
slice (pos a) (negsuc b) xs = none
slice (negsuc a) b xs = none

-- The items from a start on, at most as many as the size.
unfoldable pub cut {ℓ} : {A : Type ℓ} → List A → ℤ → ℤ → Option (List A)
unfolding slice
cut items start size =
    let end = wrap64 (start +ℤ size) in
    let end = if ltb_ℤ (pos (length items)) end then pos (length items) else end in
    if leb_ℤ (pos (length items)) start then some [] else slice start end items

-- A page or a size below 1 stands for its default.
unfoldable pub or_default : ℤ → ℤ → ℤ
or_default default n = if ltb_ℤ n (pos 1) then default else n

-- (page - 1) * size, on a 64-bit int
unfoldable pub page_start : ℤ → ℤ → ℤ
page_start page size = wrap64 (wrap64 (page -ℤ pos 1) *ℤ size)

-- `paginatePresence`
unfoldable pub paginate_presence {ℓ} : {A : Type ℓ} → List A → ℤ → ℤ → Option (List A)
unfolding cut or_default page_start
paginate_presence items page size =
    let page = or_default (pos 1) page in
    let size = or_default (pos 20) size in cut items (page_start page size) size

-- `OnlineList`
unfoldable pub online_list :
    List OnlineEntry → ℤ → ℤ → ℤ → PresenceStore → Option (List OnlineEntry)
unfolding paginate_presence
online_list locals page size now s = paginate_presence (global_online locals now s) page size

suc_add : (n s : ℕ) → suc (n + s) ≡ suc n + s
suc_add n s = omega arith

or_default_lem : (d : ℤ) (n : ℕ) → 1 ≤ n → or_default d (pos n) ≡ pos n
unfolding or_default
or_default_lem d n h = ground arith

before_page : (p : ℕ) → pos (p + 1) -ℤ pos 1 ≡ pos p
unfolding ◌-ℤ◌
before_page p = ground arith

times : (p s : ℕ) → pos p *ℤ pos s ≡ pos (p * s)
unfolding ◌*ℤ◌
times p s = ground arith

plus : (a s : ℕ) → pos a +ℤ pos s ≡ pos (a + s)
unfolding ◌+ℤ◌
plus a s = ground arith

wrapped : (n : ℕ) → 2 ^ 63 ≤ n → n < 2 ^ 64 → wrap64 (pos n) ≡ negsuc (2 ^ 64 - 1 - n)
unfolding wrap64
wrapped n lo hi = ground arith

page_start_lem : (p s : ℕ) → p < 2 ^ 63 → page_start (pos (p + 1)) (pos s) ≡ wrap64 (pos (p * s))
unfolding page_start
page_start_lem p s h = rw (before_page p, wrap64_lem (pos p) (h, omega arith), times p s) refl

module _ {A : Type 0} where
  take-nil : (n : ℕ) → take {A = A} n [] ≡ []
  take-nil zero = refl
  take-nil (suc n) = refl

  take-drop : (n s : ℕ) (xs : List A) → take n xs ++ take s (drop n xs) ≡ take (n + s) xs
  take-drop zero s xs = ap (λ n. take n xs) (omega arith)
  take-drop (suc n) s [] = take-nil s ∙ sym (take-nil (suc n + s))
  take-drop (suc n) s (x ∷ xs) =
      ap (λ ys. x ∷ ys) (take-drop n s xs) ∙ ap (λ m. take m (x ∷ xs)) (suc_add n s)

  length-drop : (n : ℕ) (xs : List A) → length (drop n xs) ≡ length xs - n
  length-drop zero xs = omega arith
  length-drop (suc n) [] = omega arith
  length-drop (suc n) (x ∷ xs) = omega (arith, length-drop n xs)

  take-all : (n : ℕ) (xs : List A) → length xs ≤ n → take n xs ≡ xs
  take-all zero [] h = refl
  take-all zero (x ∷ xs) h = absurd (omega (arith, h))
  take-all (suc n) [] h = refl
  take-all (suc n) (x ∷ xs) h = ap (λ ys. x ∷ ys) (take-all n xs (omega (arith, h)))

  drop-all : (n : ℕ) (xs : List A) → length xs ≤ n → drop n xs ≡ []
  drop-all zero [] h = refl
  drop-all zero (x ∷ xs) h = absurd (omega (arith, h))
  drop-all (suc n) [] h = refl
  drop-all (suc n) (x ∷ xs) h = drop-all n xs (omega (arith, h))

  cut_lem :
      (items : List A) (a s : ℕ)
      → a + s < 2 ^ 63
      → cut items (pos a) (pos s) ≡ some (take s (drop a items))
  unfolding cut slice
  cut_lem items a s h =
      rw (plus a s, wrap64_lem (pos (a + s)) (h, omega arith))
        (ground (
          arith,
          h,
          drop-all a items,
          take-nil s,
          take-all (length items - a) (drop a items),
          take-all s (drop a items),
          length-drop a items,
        ))

  page_lem :
      (items : List A) (p s : ℕ)
      → 1 ≤ s
      → p < 2 ^ 63
      → p * s + s < 2 ^ 63
      → paginate_presence items (pos (p + 1)) (pos s) ≡ some (take s (drop (p * s) items))
  unfolding paginate_presence
  page_lem items p s hs hp h =
      rw
        (
          or_default_lem (pos 1) (p + 1) (omega arith),
          or_default_lem (pos 20) s hs,
          page_start_lem p s hp,
          wrap64_lem (pos (p * s)) (omega (arith, h), omega arith),
        )
        (cut_lem items (p * s) s h)

  -- Pages of one size whose bounds are in range of an int follow each other: what comes before a
  -- page, and the page, are what comes before the next page. No item is lost or repeated.
  pub paginate_presence-follows :
      (items : List A) (p s : ℕ)
      → 1 ≤ s
      → p < 2 ^ 63
      → p * s + s < 2 ^ 63
      → (page : List A) × (paginate_presence items (pos (p + 1)) (pos s) ≡ some page)
        × (take (p * s) items ++ page ≡ take (p * s + s) items)
  paginate_presence-follows items p s hs hp h =
      (take s (drop (p * s) items), page_lem items p s hs hp h, take-drop (p * s) s items)

  -- A page far enough out makes the product of the pages before it and the size wrap around to a
  -- negative number, and the slice panics.
  pub paginate_presence-panics :
      (items : List A) (p s : ℕ)
      → 1 ≤ s
      → p < 2 ^ 63
      → 2 ^ 63 ≤ p * s
      → p * s < 2 ^ 64
      → paginate_presence items (pos (p + 1)) (pos s) ≡ none
  unfolding paginate_presence cut slice
  paginate_presence-panics items p s hs hp lo hi =
      rw
        (
          or_default_lem (pos 1) (p + 1) (omega arith),
          or_default_lem (pos 20) s hs,
          page_start_lem p s hp,
          wrapped (p * s) lo hi,
        )
        (ground arith)
