-- ===== src/Storage/Scans.antt =====
-- What the scans of a namespace visit (internal/storage/pebble.go).
use metaso_p2p.Prelude.{
  append-nil, ◌≡◌, ◌≢◌, ◌||◌, ◌⊎◌, refl, sym, ap, ◌∙◌, arith, Bool, true, false, List, ◌&&◌, Option,
  none, some, [], ◌∷◌, ◌++◌, All, inl, inr,
}
use metaso_p2p.Prelude.Text.{Str, str_ltb, is_empty}
use metaso_p2p.Storage.Keys.{
  IsBytes, has_prefix, prefix_upper_bound, prefix_upper_bound-range, after_bound, at_least, below,
  at_least-after, after-range,
}
use metaso_p2p.Storage.Pebble.{Entry, Pebble, PebbleLaws, keep, keep-agree}
use metaso_p2p.Storage.Store.{
  Outcome, PebbleStore, visit, open_db, scan, scan_prefix, scan_after, scan_prefix_after,
}

after_bound_lem :
    (k x : Str) → (at_least (after_bound k) x && below none x) ≡ (is_empty k || str_ltb k x)
unfolding after_bound below at_least
after_bound_lem [] x = refl
after_bound_lem (b ∷ k) x = ground (arith, at_least-after (b ∷ k) x)

whole_list :
    (es rest : List Entry) (stopped : Bool)
    → stopped ≡ false
    → (stopped ≡ true) ⊎ (rest ≡ [])
    → es ≡ es ++ rest
whole_list es rest stopped on (inl off) = cc (on, off)
whole_list es rest stopped on (inr last) = rw last (sym (append-nil es))

module _ {Db : Type 0} (pebble : Pebble Db) (laws : PebbleLaws pebble) (open_dir : Str → Option Db)
    {A : Type 0} (f : Entry → A → A × Outcome) where
  -- Bounds that agree with a test on keys give a visit of the entries that pass it.
  scan-keep :
      (lower upper : Option Str) (t : Entry → Bool)
      → ((e : Entry) → IsBytes e.0 → (at_least lower e.0 && below upper e.0) ≡ t e)
      → (namespace : Str) (a : A) (s s' : PebbleStore Db) (d : Db)
      → open_db pebble open_dir namespace s ≡ (s', some d)
      → pebble.iterate lower upper d ≢ none
      → pebble.stopped lower upper d ≡ false
      → All (λ e. IsBytes e.0) (pebble.entries d)
      → scan pebble open_dir lower upper namespace f a s
        ≡ (s', visit f (keep t (pebble.entries d)) a)
  unfolding scan
  scan-keep lower upper t same namespace a s s' d o i whole hd =
      rw (scan, o)
        (elim (laws.iterate_lem lower upper d) [
          | inl e ↦ absurd (i e)
          | inr (es, rest, e, is, end) ↦
              let all : es ≡ keep t (pebble.entries d) =
                whole_list es rest (pebble.stopped lower upper d) whole end
                ∙ is
                ∙ keep-agree (λ e. at_least lower e.0 && below upper e.0) t same (pebble.entries d)
                    hd in
              rw (e, all) (ap (λ r. (r.0, visit f (keep t (pebble.entries d)) a)) o)
        ])

  module _ (namespace : Str) (a : A) (s s' : PebbleStore Db) (d : Db)
      (opens : open_db pebble open_dir namespace s ≡ (s', some d))
      (iterates : (lower upper : Option Str) → pebble.iterate lower upper d ≢ none)
      (to_the_end : (lower upper : Option Str) → pebble.stopped lower upper d ≡ false)
      (bytes : All (λ e. IsBytes e.0) (pebble.entries d)) where
    scan_prefix-visits :
        (p : Str)
        → IsBytes p
        → scan_prefix pebble open_dir namespace p f a s
          ≡ (s', visit f (keep (λ e. has_prefix p e.0) (pebble.entries d)) a)
    unfolding scan_prefix
    scan_prefix-visits p hp =
        scan-keep (some p) (prefix_upper_bound p) (λ e. has_prefix p e.0)
          (λ e he. prefix_upper_bound-range p e.0 hp he) namespace a s s' d opens
          (iterates (some p) (prefix_upper_bound p)) (to_the_end (some p) (prefix_upper_bound p))
          bytes

    scan_after-visits :
        (k : Str)
        → scan_after pebble open_dir namespace k f a s
          ≡ (s', visit f (keep (λ e. is_empty k || str_ltb k e.0) (pebble.entries d)) a)
    unfolding scan_after
    scan_after-visits k =
        scan-keep (after_bound k) none (λ e. is_empty k || str_ltb k e.0)
          (λ e he. after_bound_lem k e.0) namespace a s s' d opens (iterates (after_bound k) none)
          (to_the_end (after_bound k) none) bytes

    scan_prefix_after-visits :
        (p k : Str)
        → IsBytes p
        → has_prefix p k ≡ true
        → scan_prefix_after pebble open_dir namespace p k f a s
          ≡ (s', visit f (keep (λ e. str_ltb k e.0 && has_prefix p e.0) (pebble.entries d)) a)
    unfolding scan_prefix_after
    scan_prefix_after-visits p k hp h =
        scan-keep (some (k ++ 0 ∷ [])) (prefix_upper_bound p)
          (λ e. str_ltb k e.0 && has_prefix p e.0)
          (λ e he. rw (at_least-after k e.0) (after-range p k e.0 hp he h)) namespace a s s' d opens
          (iterates (some (k ++ 0 ∷ [])) (prefix_upper_bound p))
          (to_the_end (some (k ++ 0 ∷ [])) (prefix_upper_bound p)) bytes

    -- Where an open database can be iterated to the end and its keys are bytes, ScanPrefix of a prefix of
    -- bytes calls the function on the entries whose key starts with the prefix and no others,
    -- ScanAfter on those after a key, or on all for an empty one, and ScanPrefixAfter, given a
    -- key that starts with the prefix, on those after it that start with the prefix; each in the
    -- order of the database, until a call fails.
    pub scans-visit :
        (p k : Str)
        → IsBytes p
        → has_prefix p k ≡ true
        → (scan_prefix pebble open_dir namespace p f a s
            ≡ (s', visit f (keep (λ e. has_prefix p e.0) (pebble.entries d)) a))
          × (scan_after pebble open_dir namespace k f a s
              ≡ (s', visit f (keep (λ e. is_empty k || str_ltb k e.0) (pebble.entries d)) a))
          × (scan_prefix_after pebble open_dir namespace p k f a s
              ≡ (s', visit f (keep (λ e. str_ltb k e.0 && has_prefix p e.0) (pebble.entries d)) a))
    scans-visit p k hp h =
        (scan_prefix-visits p hp, scan_after-visits k, scan_prefix_after-visits p k hp h)
