-- ===== src/Sinks/Shards.antt =====
-- The shards of the buffered sink (include/vosp/logger.hpp, `Sink<Buffered>`): each producer has one,
-- and a record goes to that of its thread.
use micro_error_framework.Prelude.{
  ℕ, zero, suc, ◌+◌, ◌≡◌, refl, sym, ap, subst, ◌∙◌, ◌≢◌, ◌⊎◌, inl, inr, none, some, List, [], ◌∷◌,
  ◌++◌, arith, ◌==◌, if◌then◌else◌, ==_iff, ==_refl, Bool-cases, Text, length, get_elem?, set, All,
}
use mathlib.Core.Option.{some-injective}
use micro_error_framework.Sinks.{Shard, find_shard}

-- No two shards have the same producer.
abbrev pub IsDistinct : List Shard → Type 0
IsDistinct [] = Unit {0}
IsDistinct (shard ∷ shards) = All (λ s. s.producer ≢ shard.producer) shards × IsDistinct shards

-- What the shards hold of a producer's text.
abbrev pub buffer_of : ℕ → List Shard → Text
buffer_of k [] = []
buffer_of k (shard ∷ shards) = if shard.producer == k then shard.buffer else buffer_of k shards

-- The shard at a place has that producer.
abbrev pub IsShardOf : ℕ → List Shard → ℕ → Type 0
IsShardOf k shards i = (shard : Shard) × (get_elem? shards i ≡ some shard) × (shard.producer ≡ k)

All-get {ℓ κ} :
    {A : Type ℓ} (P : A → Type κ) (xs : List A) (i : ℕ) (x : A)
    → All P xs
    → get_elem? xs i ≡ some x
    → P x
All-get P [] i x h e = cc
All-get P (y ∷ xs) zero x h e = let same : y ≡ x = ground arith in subst P same h.0
All-get P (y ∷ xs) (suc i) x h e = All-get P xs i x h.1 e

pub buffer_of-get :
    (shards : List Shard) (i : ℕ) (shard : Shard)
    → IsDistinct shards
    → get_elem? shards i ≡ some shard
    → buffer_of shard.producer shards ≡ shard.buffer
buffer_of-get [] i shard d e = cc
buffer_of-get (s ∷ shards) zero shard d e = ground (arith, e, ==_refl shard.producer)
buffer_of-get (s ∷ shards) (suc i) shard d e =
    let apart = All-get (λ q. q.producer ≢ s.producer) shards i shard d.0 e in
    ground (arith, buffer_of-get shards i shard d.1 e, (==_iff s.producer shard.producer).0, apart)

pub buffer_of-set :
    (k : ℕ) (shards : List Shard) (i : ℕ) (shard shard' : Shard)
    → IsDistinct shards
    → get_elem? shards i ≡ some shard
    → shard'.producer ≡ shard.producer
    → buffer_of k (set shards i shard')
      ≡ (if shard.producer == k then shard'.buffer else buffer_of k shards)
buffer_of-set k [] i shard shard' d e p = cc
buffer_of-set k (s ∷ shards) zero shard shard' d e p = ground (arith, e, p)
buffer_of-set k (s ∷ shards) (suc i) shard shard' d e p =
    let apart = All-get (λ q. q.producer ≢ s.producer) shards i shard d.0 e in
    ground (
      arith,
      buffer_of-set k shards i shard shard' d.1 e p,
      (==_iff s.producer k).0,
      (==_iff shard.producer k).0,
      apart,
    )

All-set {ℓ κ} :
    {A : Type ℓ} (P : A → Type κ) (xs : List A) (i : ℕ) (x : A)
    → All P xs
    → P x
    → All P (set xs i x)
All-set P [] i x h p = tt
All-set P (y ∷ xs) zero x h p = (p, h.1)
All-set P (y ∷ xs) (suc i) x h p = (h.0, All-set P xs i x h.1 p)

All-producer :
    (k k' : ℕ) (xs : List Shard)
    → k ≡ k'
    → All (λ q. q.producer ≢ k) xs
    → All (λ q. q.producer ≢ k') xs
All-producer k k' xs e h = subst (λ n. All (λ q. q.producer ≢ n) xs) e h

pub set-IsDistinct :
    (shards : List Shard) (i : ℕ) (shard shard' : Shard)
    → IsDistinct shards
    → get_elem? shards i ≡ some shard
    → shard'.producer ≡ shard.producer
    → IsDistinct (set shards i shard')
set-IsDistinct [] i shard shard' d e p = cc
set-IsDistinct (s ∷ shards) zero shard shard' d e p =
    let same : s.producer ≡ shard'.producer = ground (arith, e, p) in
    (All-producer s.producer shard'.producer shards same d.0, d.1)
set-IsDistinct (s ∷ shards) (suc i) shard shard' d e p =
    let apart = All-get (λ q. q.producer ≢ s.producer) shards i shard d.0 e in
    (
      All-set (λ q. q.producer ≢ s.producer) shards i shard' d.0 (λ h. apart (sym p ∙ h)),
      set-IsDistinct shards i shard shard' d.1 e p,
    )

pub set-IsShardOf :
    (k : ℕ) (shards : List Shard) (i j : ℕ) (shard shard' : Shard)
    → get_elem? shards i ≡ some shard
    → shard'.producer ≡ shard.producer
    → IsShardOf k shards j
    → IsShardOf k (set shards i shard') j
set-IsShardOf k [] i j shard shard' e p h = cc
set-IsShardOf k (s ∷ shards) zero zero shard shard' e p (t, at, q) =
    let st = some-injective _ _ (sym e ∙ at) in (shard', refl, p ∙ ap (λ x. x.producer) st ∙ q)
set-IsShardOf k (s ∷ shards) zero (suc j) shard shard' e p h = h
set-IsShardOf k (s ∷ shards) (suc i) zero shard shard' e p h = h
set-IsShardOf k (s ∷ shards) (suc i) (suc j) shard shard' e p h =
    set-IsShardOf k shards i j shard shard' e p h

All-snoc {ℓ κ} :
    {A : Type ℓ} (P : A → Type κ) (xs : List A) (x : A) → All P xs → P x → All P (xs ++ (x ∷ []))
All-snoc P [] x h p = (p, tt)
All-snoc P (y ∷ xs) x h p = (h.0, All-snoc P xs x h.1 p)

-- A new shard, for a producer that has none.
pub append-IsDistinct :
    (k : ℕ) (shards : List Shard)
    → IsDistinct shards
    → All (λ q. q.producer ≢ k) shards
    → IsDistinct (shards ++ (record { producer = k; buffer = [] } ∷ []))
append-IsDistinct k [] d h = (tt, tt)
append-IsDistinct k (s ∷ shards) d h = (
  All-snoc (λ q. q.producer ≢ s.producer) shards (record { producer = k; buffer = [] }) d.0
      (λ e. h.0 (sym e)),
  append-IsDistinct k shards d.1 h.1,
)

pub buffer_of-append :
    (j k : ℕ) (shards : List Shard)
    → buffer_of j (shards ++ (record { producer = k; buffer = [] } ∷ [])) ≡ buffer_of j shards
buffer_of-append j k [] = ground arith
buffer_of-append j k (s ∷ shards) = ground (arith, buffer_of-append j k shards)

pub append-IsShardOf :
    (j k : ℕ) (shards : List Shard) (i : ℕ)
    → IsShardOf j shards i
    → IsShardOf j (shards ++ (record { producer = k; buffer = [] } ∷ [])) i
append-IsShardOf j k [] i (t, at, q) = cc
append-IsShardOf j k (s ∷ shards) zero h = h
append-IsShardOf j k (s ∷ shards) (suc i) h = append-IsShardOf j k shards i h

pub last-IsShardOf :
    (k : ℕ) (shards : List Shard)
    → IsShardOf k (shards ++ (record { producer = k; buffer = [] } ∷ [])) (length shards)
last-IsShardOf k [] = (record { producer = k; buffer = [] }, refl, refl)
last-IsShardOf k (s ∷ shards) = last-IsShardOf k shards

-- The search finds a shard of the producer, or there is none.
pub find_shard-cases :
    (k i : ℕ) (shards : List Shard)
    → ((find_shard k i shards ≡ none) × All (λ q. q.producer ≢ k) shards)
      ⊎ ((j : ℕ) × (find_shard k i shards ≡ some (i + j)) × IsShardOf k shards j)
unfolding find_shard
find_shard-cases k i [] = inl (refl, tt)
find_shard-cases k i (s ∷ shards) = elim (Bool-cases (s.producer == k)) [
  | inl y ↦ inr (
    0,
    (let z : i ≡ i + 0 = omega arith in rw (y) (ap (λ n. some n) z)),
    (s, refl, (==_iff s.producer k).0 y),
  )
  | inr n ↦ elim (find_shard-cases k (suc i) shards) [
    | inl (e, h) ↦ inl (rw (n) e, (λ p. ground (arith, n, (==_iff s.producer k).1 p), h))
    | inr (j, e, h) ↦
        inr (
          suc j,
          (let z : suc i + j ≡ i + suc j = omega arith in rw (n) (e ∙ ap (λ m. some m) z)),
          h,
        )
  ]
]
