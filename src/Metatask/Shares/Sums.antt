-- ===== src/Metatask/Shares/Sums.antt =====
-- What the maps of the settlement sum up to.
use native.Mathlib.Nat.{div-mul-le_self}
use metaso_p2p.Prelude.{
  ℕ, ◌+◌, ◌*◌, ◌/◌, ◌≤◌, ◌<◌, ◌≡◌, ◌≢◌, refl, arith, false, some, List, [], ◌∷◌, ◌==◌, All,
  Distinct,
}
use metaso_p2p.Prelude.Text.{Str, str_eq_iff}
use metaso_p2p.Prelude.Assoc.{Assoc, lookup, insert, without, lookup-without}
use metaso_p2p.Metatask.Event.{ChainEvent}
use metaso_p2p.Metatask.Walk.State.{count_at}
use metaso_p2p.Metatask.Shares.{
  ShareParts, parts_at, add_submitted, add_reviewed, credit_reviewers, divide, accuracy_sum,
}

unfoldable pub weight_total : Assoc ℕ → ℕ
weight_total [] = 0
weight_total ((_, w) ∷ m) = w + weight_total m

-- The weights of the nodes of a list.
unfoldable pub weight_sum : Assoc ℕ → List Str → ℕ
weight_sum m [] = 0
weight_sum m (node ∷ nodes) = count_at node m + weight_sum m nodes

unfoldable pub parts_total : Assoc ShareParts → ℕ
parts_total [] = 0
parts_total ((_, p) ∷ m) = p.submitted_bp + p.reviewed_bp + parts_total m

pub weight_total-insert :
    (k : Str) (w : ℕ) (m : Assoc ℕ) → weight_total (insert k w m) ≤ weight_total m + w
unfolding weight_total insert
weight_total-insert k w [] = omega arith
weight_total-insert k w ((j, v) ∷ m) = ground (arith, weight_total-insert k w m)

weight_total-without :
    (k : Str) (m : Assoc ℕ) → weight_total (without k m) + count_at k m ≤ weight_total m
unfolding weight_total without lookup
weight_total-without k [] = omega arith
weight_total-without k ((j, v) ∷ m) = ground (arith, weight_total-without k m)

weight_sum-without :
    (k : Str) (m : Assoc ℕ) (nodes : List Str)
    → All (λ j. k ≢ j) nodes
    → weight_sum (without k m) nodes ≡ weight_sum m nodes
unfolding weight_sum
weight_sum-without k m [] h = refl
weight_sum-without k m (j ∷ nodes) h =
    ground (arith, lookup-without k j m, str_eq_iff k j, weight_sum-without k m nodes h.1, h.0)

-- The nodes of a list without repetition share at most what the map sums up to.
pub weight_sum-le-total :
    (m : Assoc ℕ) (nodes : List Str) → Distinct nodes → weight_sum m nodes ≤ weight_total m
unfolding weight_sum
weight_sum-le-total m [] d = omega arith
weight_sum-le-total m (k ∷ nodes) d =
    let rest = weight_sum-le-total (without k m) nodes d.1 in
    let same = weight_sum-without k m nodes d.0 in omega (arith, weight_total-without k m)

abbrev size : ShareParts → ℕ
size p = p.submitted_bp + p.reviewed_bp

parts_total-insert :
    (k : Str) (p : ShareParts) (m : Assoc ShareParts)
    → parts_total (insert k p m) + size (parts_at k m) ≡ parts_total m + size p
unfolding parts_total insert lookup
parts_total-insert k p [] = omega arith
parts_total-insert k p ((j, q) ∷ m) = ground (arith, parts_total-insert k p m)

pub parts_total-add_submitted :
    (k : Str) (n : ℕ) (m : Assoc ShareParts) → parts_total (add_submitted k n m) ≡ parts_total m + n
unfolding add_submitted
parts_total-add_submitted k n m = omega (
  arith,
  parts_total-insert k
      (record {
        submitted_bp = (parts_at k m).submitted_bp + n;
        reviewed_bp = (parts_at k m).reviewed_bp;
      })
      m,
)

pub parts_total-add_reviewed :
    (k : Str) (n : ℕ) (m : Assoc ShareParts) → parts_total (add_reviewed k n m) ≡ parts_total m + n
unfolding add_reviewed
parts_total-add_reviewed k n m = omega (
  arith,
  parts_total-insert k
      (record {
        submitted_bp = (parts_at k m).submitted_bp;
        reviewed_bp = (parts_at k m).reviewed_bp + n;
      })
      m,
)

-- What the reviewers of a node are credited, rounded down, is within the pool.
pub credit_reviewers-total :
    (accuracy : Assoc ℕ) (pool sum : ℕ) (votes : List ChainEvent) (m : Assoc ShareParts)
    → 0 < sum
    → (m' : Assoc ShareParts) × (c : ℕ) × (credit_reviewers accuracy pool sum votes m ≡ some m')
      × (parts_total m' ≡ parts_total m + c)
      × (c * sum ≤ pool * accuracy_sum accuracy votes)
unfolding credit_reviewers divide accuracy_sum
credit_reviewers-total accuracy pool sum [] m h = (m, 0, refl, omega arith, omega arith)
credit_reviewers-total accuracy pool sum (v ∷ votes) m h =
    let a = count_at v.author accuracy in
    let n = (pool * a) / sum in
    let (m', c, e, t, b) =
      credit_reviewers-total accuracy pool sum votes (add_reviewed v.author n m) h in
    let nonzero : (sum == 0) ≡ false = ground arith in
    let split : (n + c) * sum ≡ n * sum + c * sum = omega arith in
    let pooled : pool * (a + accuracy_sum accuracy votes)
        ≡ pool * a + pool * accuracy_sum accuracy votes =
      omega arith in
    (
      m',
      n + c,
      rw (credit_reviewers, nonzero) e,
      omega (arith, parts_total-add_reviewed v.author n m, t),
      rw (split, pooled) (omega (arith, div-mul-le_self (pool * a) sum, b)),
    )
