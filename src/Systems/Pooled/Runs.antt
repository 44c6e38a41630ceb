-- ===== src/Systems/Pooled/Runs.antt =====
-- Futures in the order in which the pool of include/vosp/worker_pool.hpp hands them out and settles
-- them.
use micro_error_framework.Prelude.{
  ℕ, zero, suc, ◌+◌, ◌≤◌, ◌<◌, ◌≡◌, refl, sym, ap, subst, ◌∙◌, none, some, List, [], ◌∷◌, ◌++◌,
  arith, length, get_elem?, take,
}
use mathlib.Core.Option.{some-injective}
use micro_error_framework.Error.{OperationResult, returned}
use micro_error_framework.Pool.Task.{TaskItem, Settlement, value, task, invoke, delivery_of}
use micro_error_framework.Pool.{
  Pool, accepted, enqueue, claim_seen, execute, finish_tasks, pending_tasks,
}
use micro_error_framework.Pool.Shutdown.{stop_accepting, request_stop, take_workers}
use micro_error_framework.Pool.Refine.{EnqueueSpec, enqueue_lem}
use micro_error_framework.Pool.Refine.Claims.{claim_seen_lem}
use micro_error_framework.Threads.{
  System, Step, submits, refills, claims, executes, finishes, exits, clears, stops_accepting,
  requests_stop, takes_workers,
}
use micro_error_framework.Threads.Total.{total, claimed_by, futures_of}
use micro_error_framework.Threads.Invariant.{Inv, room}
use micro_error_framework.Threads.Steps.Producers.{futures_of-bulk, refill-rest}
use micro_error_framework.Threads.Order.{accepted_by, executed_by, IsKeeping}
use micro_error_framework.Systems.Pooled.{IsOther}

-- `n` futures from `k` on.
abbrev pub from : ℕ → ℕ → List ℕ
from k zero = []
from k (suc n) = k ∷ from (suc k) n

pub from-append : (k n : ℕ) → from k n ++ ((k + n) ∷ []) ≡ from k (suc n)
from-append k zero = ap (λ j. j ∷ []) (omega arith)
from-append k (suc n) =
    ap (λ l. k ∷ l) (ap (λ j. from (suc k) n ++ (j ∷ [])) (omega arith) ∙ from-append (suc k) n)

-- Which future comes next.
pub from-next :
    (k n m f : ℕ) (rest : List ℕ) → from k n ≡ from k m ++ (f ∷ rest) → (f ≡ k + m) × (m < n)
from-next k zero zero f rest h = cc
from-next k zero (suc m) f rest h = cc
from-next k (suc n) zero f rest h = let same : k ≡ f = cc in (omega arith, omega arith)
from-next k (suc n) (suc m) f rest h =
    let tail : from (suc k) n ≡ from (suc k) m ++ (f ∷ rest) = cc in
    let (e, l) = from-next (suc k) n m f rest tail in (omega arith, omega arith)

-- The settlements of the futures from `k` on.
abbrev pub settle : ℕ → List OperationResult → List Settlement
settle k [] = []
settle k (a ∷ answers) = record { future = k; delivery = value a } ∷ settle (suc k) answers

pub settle-append :
    (k : ℕ) (answers : List OperationResult) (a : OperationResult)
    → settle k (answers ++ (a ∷ []))
      ≡ settle k answers ++ (record { future = k + length answers; delivery = value a } ∷ [])
settle-append k [] a = ap (λ j. record { future = j; delivery = value a } ∷ []) (omega arith)
settle-append k (b ∷ answers) a =
    ap (λ l. record { future = k; delivery = value b } ∷ l)
      (settle-append (suc k) answers a
        ∙ ap (λ j. settle (suc k) answers ++ (record { future = j; delivery = value a } ∷ []))
            (omega arith))

pub get_elem?-middle {ℓ} :
    {A : Type ℓ} (xs : List A) (x : A) (ys : List A)
    → get_elem? (xs ++ (x ∷ ys)) (length xs) ≡ some x
get_elem?-middle [] x ys = refl
get_elem?-middle (y ∷ xs) x ys = get_elem?-middle xs x ys

pub execute-told :
    (p : Pool) (item : TaskItem) (future : ℕ) (result : OperationResult)
    → item.completion ≡ some future
    → item.callback ≡ task (returned result)
    → (execute p item).futures
      ≡ p.futures ++ (record { future = future; delivery = value result } ∷ [])
unfolding execute invoke delivery_of
execute-told p item future result e h = rw (e, h) refl

execute-untold :
    (p : Pool) (item : TaskItem) → item.completion ≡ none → (execute p item).futures ≡ p.futures
unfolding execute
execute-untold p item e = ground (arith, e)

pub enqueue-untold :
    (p₀ : Pool) (s : System) (item : TaskItem) (q : Pool)
    → enqueue s.pool item ≡ accepted q
    → Inv p₀ s
    → q.futures ≡ s.pool.futures
enqueue-untold p₀ s item q e inv =
    let active = total claimed_by s.workers in
    let spec =
      subst (EnqueueSpec s.pool inv.queue active inv.stopping item) e
        (enqueue_lem s.pool inv.queue active inv.stopping item inv.valid) in
    ap (λ r. r.futures) spec.3

claim-untold :
    (p₀ : Pool) (s : System) (seen : ℕ) (q : Pool) (items : List TaskItem)
    → seen ≤ pending_tasks s.pool
    → claim_seen seen s.pool ≡ some (q, items)
    → Inv p₀ s
    → q.futures ≡ s.pool.futures
claim-untold p₀ s seen q items few e inv =
    let active = total claimed_by s.workers in
    let c =
      claim_seen_lem s.pool inv.queue active inv.stopping seen inv.valid (room p₀ s inv) few in
    let same = some-injective _ _ (sym c.done ∙ e) in
    ap (λ r. r.0.futures) (sym same) ∙ ap (λ r. r.futures) c.unchanged

futures_of-none : (item : TaskItem) → item.completion ≡ none → futures_of (item ∷ []) ≡ []
futures_of-none item e = ground (arith, e)

-- A step that has no part in the error system settles no future, and neither accepts nor runs a task
-- with one.
pub Step-IsOther :
    (p₀ : Pool) (s t : System) (st : Step s t)
    → Inv p₀ s
    → IsOther st
    → IsKeeping st
    → (t.pool.futures ≡ s.pool.futures)
      × (futures_of (accepted_by st) ≡ [])
      × (futures_of (executed_by st) ≡ [])
unfolding finish_tasks stop_accepting request_stop take_workers
Step-IsOther p₀ s t (submits item q e) inv other keeps =
    (enqueue-untold p₀ s item q e inv, futures_of-none item other, refl)
Step-IsOther p₀ s t (refills callbacks q n e) inv other keeps =
    ((refill-rest s.pool q callbacks n e).0, futures_of-bulk (take n callbacks), refl)
Step-IsOther p₀ s t (claims i seen q items at few e some_item) inv other keeps =
    (claim-untold p₀ s seen q items few e inv, refl, refl)
Step-IsOther p₀ s t (executes i item items n at) inv other keeps =
    (execute-untold s.pool item other, refl, futures_of-none item other)
Step-IsOther p₀ s t (finishes i n at) inv other keeps = (refl, refl, refl)
Step-IsOther p₀ s t (exits i at e stops) inv other keeps = (refl, refl, refl)
Step-IsOther p₀ s t (clears q n e) inv other keeps = absurd keeps
Step-IsOther p₀ s t stops_accepting inv other keeps = (refl, refl, refl)
Step-IsOther p₀ s t (requests_stop h) inv other keeps = (refl, refl, refl)
Step-IsOther p₀ s t (takes_workers h) inv other keeps = (refl, refl, refl)
