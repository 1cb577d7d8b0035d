-- ===== src/Storage/Pebble.antt =====
-- What the store uses of a database of cockroachdb/pebble, with the behaviour that pebble documents.
use metaso_p2p.Prelude.{
  ◌≡◌, refl, ◌⊎◌, ◌&&◌, ◌++◌, Bool, true, Option, none, some, List, [], ◌∷◌, All, if◌then◌else◌,
}
use metaso_p2p.Prelude.Text.{Str, str_eq}
use metaso_p2p.Prelude.Assoc.{Assoc, lookup}
use metaso_p2p.Storage.Keys.{IsBytes, at_least, below}

-- `KeyValue`
abbrev pub Entry : Type 0
Entry = Str × Str

-- One operation of a batch.
pub data Write : Type 0 where
  put : Str → Str → Write
  remove : Str → Write

pub data Durability : Type 0 where
  sync : Durability
  no_sync : Durability

-- What reading a key gives: its value, that there is none, or an error.
pub data Fetch : Type 0 where
  found : Str → Fetch
  missing : Fetch
  unread : Fetch

-- A read, an iteration from a lower to below an upper bound, and an atomic batch; the last two
-- may fail. An iterator that meets an error on its way stops there: `iterate` gives the entries
-- that it has come to, and `stopped` is what its Error() says, which is not nil after such a stop.
-- `entries` is what the database holds, in the order of the keys.
pub record Pebble (Db : Type 0) : Type 0 where
  pub fetch : Str → Db → Fetch
  pub iterate : Option Str → Option Str → Db → Option (List Entry)
  pub stopped : Option Str → Option Str → Db → Bool
  pub commit : Durability → List Write → Db → Option Db
  pub entries : Db → Assoc Str

unfoldable pub keep {ℓ} : {A : Type ℓ} → (A → Bool) → List A → List A
keep t [] = []
keep t (x ∷ xs) = let rest = keep t xs in if t x then x ∷ rest else rest

-- Two tests that agree on every entry of a database keep the same entries.
pub keep-agree :
    (s t : Entry → Bool)
    → (same : (e : Entry) → IsBytes e.0 → s e ≡ t e) → (es : List Entry) → All (λ e. IsBytes e.0) es
    → keep s es ≡ keep t es
unfolding keep
keep-agree s t same [] h = refl
keep-agree s t same (e ∷ es) h = rw (same e h.0, keep-agree s t same es h.1) refl

unfoldable pub as_fetch : Option Str → Fetch
as_fetch none = missing
as_fetch (some v) = found v

-- The value of a key after a batch, from the one before it.
unfoldable pub written : List Write → Str → Option Str → Option Str
written [] k old = old
written (put j v ∷ ws) k old = written ws k (if str_eq j k then some v else old)
written (remove j ∷ ws) k old = written ws k (if str_eq j k then none else old)

pub record PebbleLaws {Db : Type 0} (pebble : Pebble Db) : Type 0 where
  pub fetch_lem :
      (k : Str) (d : Db)
      → (pebble.fetch k d ≡ unread) ⊎ (pebble.fetch k d ≡ as_fetch (lookup k (pebble.entries d)))
  pub iterate_lem :
      (lower upper : Option Str) (d : Db)
      → (pebble.iterate lower upper d ≡ none)
        ⊎ ((es rest : List Entry) × (pebble.iterate lower upper d ≡ some es)
            × (es ++ rest ≡ keep (λ e. at_least lower e.0 && below upper e.0) (pebble.entries d))
            × ((pebble.stopped lower upper d ≡ true) ⊎ (rest ≡ [])))
  pub commit_lem :
      (durability : Durability) (writes : List Write) (d e : Db)
      → pebble.commit durability writes d ≡ some e
      → (k : Str) → lookup k (pebble.entries e) ≡ written writes k (lookup k (pebble.entries d))
