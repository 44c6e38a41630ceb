-- ===== src/Threads/Steps/Shutdown.antt =====
-- Cancellation and shutdown in include/vosp/worker_pool.hpp, and the invariant.
use mathlib.Core.Option.{some-injective}
use micro_error_framework.Prelude.{
  ℕ, ◌%◌, ◌<◌, ◌≡◌, refl, sym, ap, subst, ◌∙◌, Bool, true, some, List, [], ◌∷◌, ◌++◌, arith,
}
use micro_error_framework.Pool.Word.{size_mod}
use micro_error_framework.Pool.Task.{TaskItem}
use micro_error_framework.Pool.{Pool}
use micro_error_framework.Pool.Shutdown.{clear_queue, stop_accepting, request_stop, take_workers}
use micro_error_framework.Pool.Refine.{IsValid}
use micro_error_framework.Pool.Refine.Shutdown.{
  clear_queue_lem, cancellations, stop_accepting-IsValid, request_stop-IsValid,
  take_workers-IsValid,
}
use micro_error_framework.Threads.{System}
use micro_error_framework.Threads.Total.{
  total, occurrences, occurrences-append, futures_of, settled, settled-append, claimed_by,
}
use micro_error_framework.Threads.Invariant.{Inv}

settled-cancellations : (queue : List TaskItem) → settled (cancellations queue) ≡ futures_of queue
settled-cancellations [] = refl
settled-cancellations (x ∷ queue) = ground (arith, settled-cancellations queue)

-- The invariant after the queue has been cancelled.
pub cancelled-Inv :
    (p₀ : Pool) (s : System) (p : Pool) (stopping : Bool)
    → (inv : Inv p₀ s) → (inv.stopping ≡ true → stopping ≡ true)
    → IsValid p [] (total claimed_by s.workers) stopping
    → p.futures ≡ s.pool.futures ++ cancellations inv.queue
    → p.cancelled_dispatches < size_mod
    → Inv p₀ (record s { pool = p })
cancelled-Inv p₀ s p stopping inv stays v told counted = record {
  queue = [];
  stopping = stopping;
  valid = v;
  counter = counted;
  crew = inv.crew;
  small_crew = inv.small_crew;
  bounded = inv.bounded;
  kept = λ k. omega (
    arith,
    inv.kept k,
    ap (λ l. occurrences k (settled l)) told,
    ap (occurrences k) (settled-append s.pool.futures (cancellations inv.queue)),
    occurrences-append k (settled s.pool.futures) (settled (cancellations inv.queue)),
    ap (occurrences k) (settled-cancellations inv.queue),
  );
  gone = λ i h. (stays (inv.gone i h).0, refl);
}

mod_bound : (n : ℕ) → n % size_mod < size_mod
mod_bound n = omega arith

pub clears-Inv :
    (p₀ : Pool) (s : System) (p : Pool) (n : ℕ)
    → clear_queue s.pool ≡ some (p, n)
    → Inv p₀ s
    → Inv p₀ (record s { pool = p })
clears-Inv p₀ s p n e inv =
    let active = total claimed_by s.workers in
    let c = clear_queue_lem s.pool inv.queue active inv.stopping inv.valid inv.counter in
    let same : c.after ≡ p = ap (λ r. r.0) (some-injective _ _ (sym c.done ∙ e)) in
    subst (λ q. Inv p₀ (record s { pool = q })) same
      (cancelled-Inv p₀ s c.after inv.stopping inv (λ h. h) c.emptied c.told
        (rw c.counted (mod_bound _)))

-- The invariant after a section that changes neither the queue nor the tasks.
unchanged-Inv :
    (p₀ : Pool) (s : System) (p : Pool) (stopping : Bool)
    → (inv : Inv p₀ s) → (inv.stopping ≡ true → stopping ≡ true)
    → IsValid p inv.queue (total claimed_by s.workers) stopping
    → p.futures ≡ s.pool.futures
    → p.cancelled_dispatches ≡ s.pool.cancelled_dispatches
    → Inv p₀ (record s { pool = p })
unchanged-Inv p₀ s p stopping inv stays v told counted = record {
  queue = inv.queue;
  stopping = stopping;
  valid = v;
  counter = rw counted inv.counter;
  crew = inv.crew;
  small_crew = inv.small_crew;
  bounded = inv.bounded;
  kept = λ k. omega (arith, inv.kept k, ap (λ l. occurrences k (settled l)) told);
  gone = λ i h. (stays (inv.gone i h).0, (inv.gone i h).1);
}

pub stops-Inv :
    (p₀ : Pool) (s : System) → Inv p₀ s → Inv p₀ (record s { pool = stop_accepting s.pool })
unfolding stop_accepting
stops-Inv p₀ s inv =
    unchanged-Inv p₀ s (stop_accepting s.pool) true inv (λ h. refl)
      (stop_accepting-IsValid s.pool inv.queue (total claimed_by s.workers) inv.stopping inv.valid)
      refl refl

pub requests_stop-Inv :
    (p₀ : Pool) (s : System) → Inv p₀ s → Inv p₀ (record s { pool = request_stop s.pool })
unfolding request_stop
requests_stop-Inv p₀ s inv =
    unchanged-Inv p₀ s (request_stop s.pool) inv.stopping inv (λ h. h)
      (request_stop-IsValid s.pool inv.queue (total claimed_by s.workers) inv.stopping inv.valid)
      refl refl

pub takes_workers-Inv :
    (p₀ : Pool) (s : System) → Inv p₀ s → Inv p₀ (record s { pool = take_workers s.pool })
unfolding take_workers
takes_workers-Inv p₀ s inv =
    unchanged-Inv p₀ s (take_workers s.pool) inv.stopping inv (λ h. h)
      (take_workers-IsValid s.pool inv.queue (total claimed_by s.workers) inv.stopping inv.valid)
      refl refl
