-- ===== src/Threads/Total.antt =====
-- Sums over the workers and other threads (include/vosp/worker_pool.hpp), and how often a future occurs.
use micro_error_framework.Prelude.{
  ℕ, zero, suc, ◌+◌, ◌≤◌, ◌≡◌, refl, sym, ap, ◌∙◌, ◌≢◌, some, List, [], ◌∷◌, ◌++◌, map, append-nil,
  append_assoc, arith, ◌==◌, if◌then◌else◌, get_elem?, set, take, drop, take-append-drop,
}
use micro_error_framework.Pool.Task.{TaskItem, Settlement}
use micro_error_framework.Threads.{Worker, idle, running, exited, idle_workers, future_of}

abbrev pub total {ℓ} : {A : Type ℓ} → (A → ℕ) → List A → ℕ
total f [] = 0
total f (w ∷ ws) = f w + total f ws

pub total-set {ℓ} :
    {A : Type ℓ} (f : A → ℕ) (ws : List A) (i : ℕ) (w v : A)
    → get_elem? ws i ≡ some w
    → total f (set ws i v) + f w ≡ total f ws + f v
total-set f [] i w v h = cc
total-set f (x ∷ ws) zero w v h = let same : x ≡ w = ground arith in omega (arith, ap f same)
total-set f (x ∷ ws) (suc i) w v h = omega (arith, total-set f ws i w v h)

pub total-idle_workers : (f : Worker → ℕ) (n : ℕ) → f idle ≡ 0 → total f (idle_workers n) ≡ 0
total-idle_workers f zero h = refl
total-idle_workers f (suc n) h = omega (arith, total-idle_workers f n h)

pub total-ge {ℓ} :
    {A : Type ℓ} (f : A → ℕ) (ws : List A) (i : ℕ) (w : A)
    → get_elem? ws i ≡ some w
    → f w ≤ total f ws
total-ge f [] i w h = cc
total-ge f (x ∷ ws) zero w h = let same : x ≡ w = ground arith in omega (arith, ap f same)
total-ge f (x ∷ ws) (suc i) w h = omega (arith, total-ge f ws i w h)

pub total-append {ℓ} :
    {A : Type ℓ} (f : A → ℕ) (xs ys : List A) → total f (xs ++ ys) ≡ total f xs + total f ys
total-append f [] ys = omega arith
total-append f (x ∷ xs) ys = omega (arith, total-append f xs ys)

-- How often a future occurs.
abbrev pub occurrences : ℕ → List ℕ → ℕ
occurrences k [] = 0
occurrences k (j ∷ l) = (if j == k then 1 else 0) + occurrences k l

pub occurrences-append :
    (k : ℕ) (l m : List ℕ) → occurrences k (l ++ m) ≡ occurrences k l + occurrences k m
occurrences-append k [] m = omega arith
occurrences-append k (j ∷ l) m = omega (arith, occurrences-append k l m)

-- The futures of a list of tasks, and those already settled.
abbrev pub futures_of : List TaskItem → List ℕ
futures_of [] = []
futures_of (x ∷ items) = future_of x ++ futures_of items

pub futures_of-append :
    (xs ys : List TaskItem) → futures_of (xs ++ ys) ≡ futures_of xs ++ futures_of ys
futures_of-append [] ys = refl
futures_of-append (x ∷ xs) ys =
    ap (λ l. future_of x ++ l) (futures_of-append xs ys)
    ∙ sym (append_assoc (future_of x) (futures_of xs) (futures_of ys))

abbrev pub settled : List Settlement → List ℕ
settled = map (λ s. s.future)

pub settled-append : (xs ys : List Settlement) → settled (xs ++ ys) ≡ settled xs ++ settled ys
settled-append [] ys = refl
settled-append (x ∷ xs) ys = ap (λ l. x.future ∷ l) (settled-append xs ys)

abbrev pub claimed_by : Worker → ℕ
claimed_by idle = 0
claimed_by (running items n) = n
claimed_by exited = 0

-- How often a future is among the tasks that a worker has yet to run.
abbrev pub held_by : ℕ → Worker → ℕ
held_by k idle = 0
held_by k (running items n) = occurrences k (futures_of items)
held_by k exited = 0

pub occurrences-enqueued :
    (k : ℕ) (queue : List TaskItem) (item : TaskItem)
    → occurrences k (futures_of (queue ++ (item ∷ [])))
      ≡ occurrences k (futures_of queue) + occurrences k (future_of item)
occurrences-enqueued k queue item = omega (
  arith,
  ap (occurrences k) (futures_of-append queue (item ∷ [])),
  occurrences-append k (futures_of queue) (future_of item ++ []),
  ap (occurrences k) (append-nil (future_of item)),
)

-- A queue split in two.
pub occurrences-split :
    (k n : ℕ) (queue : List TaskItem)
    → occurrences k (futures_of queue)
      ≡ occurrences k (futures_of (take n queue)) + occurrences k (futures_of (drop n queue))
occurrences-split k n queue = omega (
  arith,
  ap (λ q. occurrences k (futures_of q)) (take-append-drop n queue),
  ap (occurrences k) (futures_of-append (take n queue) (drop n queue)),
  occurrences-append k (futures_of (take n queue)) (futures_of (drop n queue)),
)

pub drop-nil {ℓ} : {A : Type ℓ} (n : ℕ) (xs : List A) → xs ≡ [] → drop n xs ≡ []
drop-nil {A} n [] h = drop_empty n
  where
    drop_empty : (m : ℕ) → drop {A = A} m [] ≡ []
    drop_empty zero = refl
    drop_empty (suc m) = refl
drop-nil {A} n (x ∷ xs) h = cc

-- A worker that has returned was so before another worker's move.
pub exited-set :
    (ws : List Worker) (i j : ℕ) (v : Worker)
    → v ≢ exited
    → get_elem? (set ws i v) j ≡ some exited
    → get_elem? ws j ≡ some exited
exited-set [] i j v ne h = h
exited-set (x ∷ ws) zero zero v ne h = absurd (ne (ground arith))
exited-set (x ∷ ws) zero (suc j) v ne h = h
exited-set (x ∷ ws) (suc i) zero v ne h = h
exited-set (x ∷ ws) (suc i) (suc j) v ne h = exited-set ws i j v ne h
