-- ===== src/Cache/Lru.antt =====
-- What the cache uses of hashicorp/golang-lru (expirable.LRU), with its documented behaviour, and of
-- encoding/json.
use metaso_p2p.Prelude.{◌≡◌, Option, none, some, if◌then◌else◌}
use metaso_p2p.Prelude.Text.{Str, str_eq}

-- `held` is what a reader could still be given for a key: nothing once it is evicted or expired.
pub record LruCache (L : Type 0) : Type 0 where
  pub get : Str → L → L × Option Str
  pub add : Str → Str → L → L
  pub remove : Str → L → L
  pub purge : L → L
  pub held : Str → L → Option Str

-- A key holds the value that was last added to it, or nothing.
pub record LruLaws {L : Type 0} (lru : LruCache L) : Type 0 where
  pub get-held : (k : Str) (l : L) (v : Str) → (lru.get k l).1 ≡ some v → lru.held k l ≡ some v
  pub held-get :
      (k j : Str) (l : L) (v : Str) → lru.held j (lru.get k l).0 ≡ some v → lru.held j l ≡ some v
  pub held-add :
      (k j : Str) (v w : Str) (l : L)
      → lru.held j (lru.add k v l) ≡ some w
      → (if str_eq k j then some v else lru.held j l) ≡ some w
  pub held-remove :
      (k j : Str) (l : L) (v : Str)
      → lru.held j (lru.remove k l) ≡ some v
      → (if str_eq k j then none else lru.held j l) ≡ some v
  pub held-purge : (j : Str) (l : L) → lru.held j (lru.purge l) ≡ none

-- `marshalValue` and `unmarshalValue`; none is an error.
pub record Codec (T : Type 0) : Type 0 where
  pub marshal : T → Option Str
  pub unmarshal : Str → Option T
