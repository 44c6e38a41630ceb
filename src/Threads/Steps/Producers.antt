-- ===== src/Threads/Steps/Producers.antt =====
-- Submissions to the pool of include/vosp/worker_pool.hpp, and the invariant.
use micro_error_framework.Prelude.{
  ℕ, ◌≡◌, refl, ap, subst, Bool, true, false, some, List, [], ◌∷◌, ◌++◌, map, arith, take,
}
use micro_error_framework.Pool.Task.{TaskItem, bulk_item}
use micro_error_framework.Error.{OperationResult, Outcome}
use micro_error_framework.Pool.{Pool, accepted, enqueue, refill}
use micro_error_framework.Pool.Refine.{EnqueueSpec, enqueue_lem, RefillSpec, refill_lem}
use micro_error_framework.Threads.{System, future_of}
use micro_error_framework.Threads.Total.{
  total, occurrences, occurrences-append, futures_of, futures_of-append, settled, claimed_by,
  occurrences-enqueued,
}
use micro_error_framework.Threads.Invariant.{Inv}

clash : {b : Bool} → b ≡ true → b ≡ false → ⊥
clash x y = cc

pub submits-Inv :
    (p₀ : Pool) (s : System) (item : TaskItem) (p : Pool)
    → enqueue s.pool item ≡ accepted p
    → Inv p₀ s
    → Inv p₀ (record s { pool = p; submitted = future_of item ++ s.submitted })
submits-Inv p₀ s item p e inv =
    let active = total claimed_by s.workers in
    let spec =
      subst (EnqueueSpec s.pool inv.queue active inv.stopping item) e
        (enqueue_lem s.pool inv.queue active inv.stopping item inv.valid) in
    let same = spec.3 in
    record {
      queue = inv.queue ++ (item ∷ []);
      stopping = false;
      valid = spec.2;
      counter = rw (ap (λ q. q.cancelled_dispatches) same) inv.counter;
      crew = inv.crew;
      small_crew = inv.small_crew;
      bounded = inv.bounded;
      kept = λ k. omega (
        arith,
        inv.kept k,
        occurrences-enqueued k inv.queue item,
        occurrences-append k (future_of item) s.submitted,
        ap (λ q. occurrences k (settled q.futures)) same,
      );
      gone = λ i h. absurd (clash (inv.gone i h).0 spec.0);
    }

pub futures_of-bulk :
    (callbacks : List (Outcome OperationResult)) → futures_of (map bulk_item callbacks) ≡ []
unfolding bulk_item
futures_of-bulk [] = refl
futures_of-bulk (c ∷ callbacks) = futures_of-bulk callbacks

pub refill-rest :
    (p q : Pool) (callbacks : List (Outcome OperationResult)) (n : ℕ)
    → refill p callbacks ≡ some (q, n)
    → (q.futures ≡ p.futures) × (q.cancelled_dispatches ≡ p.cancelled_dispatches)
unfolding refill
refill-rest p q callbacks n h = ground arith

pub refills-Inv :
    (p₀ : Pool) (s : System) (callbacks : List (Outcome OperationResult)) (p : Pool) (n : ℕ)
    → refill s.pool callbacks ≡ some (p, n)
    → Inv p₀ s
    → Inv p₀ (record s { pool = p })
refills-Inv p₀ s callbacks p n e inv =
    let active = total claimed_by s.workers in
    let spec =
      subst (RefillSpec s.pool inv.queue active inv.stopping callbacks) e
        (refill_lem s.pool inv.queue active inv.stopping callbacks inv.valid) in
    let same = refill-rest s.pool p callbacks n e in
    let items = map bulk_item (take n callbacks) in
    record {
      queue = inv.queue ++ items;
      stopping = false;
      valid = spec.2;
      counter = rw same.1 inv.counter;
      crew = inv.crew;
      small_crew = inv.small_crew;
      bounded = inv.bounded;
      kept = λ k. omega (
        arith,
        inv.kept k,
        ap (occurrences k) (futures_of-append inv.queue items),
        occurrences-append k (futures_of inv.queue) (futures_of items),
        ap (occurrences k) (futures_of-bulk (take n callbacks)),
        ap (λ l. occurrences k (settled l)) same.0,
      );
      gone = λ i h. absurd (clash (inv.gone i h).0 spec.0);
    }
