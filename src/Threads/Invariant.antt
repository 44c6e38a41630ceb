-- ===== src/Threads/Invariant.antt =====
-- The invariant of the pool of include/vosp/worker_pool.hpp and its workers, and its start.
use micro_error_framework.Prelude.{
  ℕ, zero, suc, ◌+◌, ◌*◌, ◌^◌, ◌≤◌, ◌<◌, ◌≡◌, refl, sym, ap, subst, ◌≢◌, Bool, true, false, some,
  List, [], ◌∷◌, arith, length, get_elem?, All,
}
use micro_error_framework.Pool.Word.{size_mod}
use micro_error_framework.Pool.Task.{TaskItem, max_worker_count}
use micro_error_framework.Pool.{Pool, bulk_claim_size}
use micro_error_framework.Pool.Refine.{IsValid}
use micro_error_framework.Threads.{Worker, idle, running, exited, System, idle_workers, start}
use micro_error_framework.Threads.Total.{
  total, total-idle_workers, occurrences, futures_of, settled, claimed_by, held_by,
}

-- A running worker has claimed at least one task and at most sixteen, and has no more
-- than these left to run.
abbrev pub IsBounded : Worker → Type 0
IsBounded idle = Unit {0}
IsBounded (running items n) = (1 ≤ n) × (length items ≤ n) × (n ≤ bulk_claim_size)
IsBounded exited = Unit {0}

-- The occurrences of a future among those settled, in the queue and with the workers.
abbrev pub whereabouts : ℕ → System → List TaskItem → ℕ
whereabouts k s queue =
    occurrences k (settled s.pool.futures)
    + occurrences k (futures_of queue)
    + total (held_by k) s.workers

-- `queue` is what the ring holds. The word counts the tasks that the workers have claimed; every
-- future handed out is settled, queued or with a worker; a worker returns only from an empty queue of
-- a stopping pool, which then stays empty.
pub record Inv (p : Pool) (s : System) : Type 0 where
  pub queue : List TaskItem
  pub stopping : Bool
  pub valid : IsValid s.pool queue (total claimed_by s.workers) stopping
  pub counter : s.pool.cancelled_dispatches < size_mod
  pub crew : length s.workers ≡ p.worker_count
  pub small_crew : p.worker_count ≤ max_worker_count
  pub bounded : All IsBounded s.workers
  pub kept : (k : ℕ) → whereabouts k s queue ≡ occurrences k s.submitted
  pub gone : (i : ℕ) → get_elem? s.workers i ≡ some exited → (stopping ≡ true) × (queue ≡ [])

total-bounded :
    (ws : List Worker) → All IsBounded ws → total claimed_by ws ≤ bulk_claim_size * length ws
total-bounded [] h = omega arith
total-bounded (idle ∷ ws) h = omega (arith, total-bounded ws h.1)
total-bounded (running items n ∷ ws) h = omega (arith, total-bounded ws h.1, h.0)
total-bounded (exited ∷ ws) h = omega (arith, total-bounded ws h.1)

-- At most 16 tasks are claimed for each worker, so the claims never reach the stop flag.
pub claimed-le :
    (p : Pool) (s : System) (inv : Inv p s)
    → total claimed_by s.workers ≤ bulk_claim_size * p.worker_count
claimed-le p s inv = omega (arith, total-bounded s.workers inv.bounded, inv.crew)

-- There is always room in the word for another claim.
pub room :
    (p₀ : Pool) (s : System) → Inv p₀ s → total claimed_by s.workers + bulk_claim_size < 2 ^ 52
room p₀ s inv = omega (arith, claimed-le p₀ s inv, inv.small_crew)

not-exited_idle : (n i : ℕ) → get_elem? (idle_workers n) i ≢ some exited
not-exited_idle zero i h = cc
not-exited_idle (suc n) zero h = cc
not-exited_idle (suc n) (suc i) h = not-exited_idle n i h

idle_workers-le : (n : ℕ) → All IsBounded (idle_workers n)
idle_workers-le zero = tt
idle_workers-le (suc n) = (tt, idle_workers-le n)

length-idle_workers : (n : ℕ) → length (idle_workers n) ≡ n
length-idle_workers zero = refl
length-idle_workers (suc n) = ap suc (length-idle_workers n)

-- What the constructor must have left.
pub record IsFresh (p : Pool) : Type 0 where
  pub valid : IsValid p [] 0 false
  pub crew : p.worker_count ≤ max_worker_count
  pub untold : p.futures ≡ []
  pub uncounted : p.cancelled_dispatches ≡ 0

pub start-Inv : (p : Pool) → IsFresh p → Inv p (start p)
start-Inv p f = record {
  queue = [];
  stopping = false;
  valid =
      subst (λ a. IsValid p [] a false) (sym (total-idle_workers claimed_by p.worker_count refl))
        f.valid;
  counter = rw f.uncounted (omega arith);
  crew = length-idle_workers p.worker_count;
  small_crew = f.crew;
  bounded = idle_workers-le p.worker_count;
  kept = λ k. omega (
    arith,
    ap (λ l. occurrences k (settled l)) f.untold,
    total-idle_workers (held_by k) p.worker_count refl,
  );
  gone = λ i h. absurd (not-exited_idle p.worker_count i h);
}
