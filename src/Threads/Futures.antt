-- ===== src/Threads/Futures.antt =====
-- How often the futures of include/vosp/worker_pool.hpp are settled.
use micro_error_framework.Prelude.{
  ℕ, ◌≤◌, ◌≡◌, refl, ap, some, List, [], ◌∷◌, arith, length, get_elem?, All,
}
use micro_error_framework.Pool.{Pool}
use micro_error_framework.Threads.{Worker, exited, System, Reach}
use micro_error_framework.Threads.Total.{total, occurrences, futures_of, settled, held_by}
use micro_error_framework.Threads.Invariant.{IsFresh, Inv}
use micro_error_framework.Threads.Steps.{Reach-Inv}

-- In every state reachable from a fresh pool, a future has been settled at most as often as it was
-- handed out.
pub settled-le :
    (p : Pool) (s : System) (k : ℕ)
    → IsFresh p
    → Reach p s
    → occurrences k (settled s.pool.futures) ≤ occurrences k s.submitted
settled-le p s k f r = omega (arith, (Reach-Inv p f r).kept k)

held-zero : (k : ℕ) (ws : List Worker) → All (λ w. w ≡ exited) ws → total (held_by k) ws ≡ 0
held-zero k [] h = refl
held-zero k (w ∷ ws) h = omega (arith, ap (held_by k) h.0, held-zero k ws h.1)

-- When all workers have returned, of which there is one at least, nothing is queued or claimed.
pub settled_of_exited :
    (p : Pool) (s : System) (k : ℕ)
    → Inv p s
    → 1 ≤ p.worker_count
    → All (λ w. w ≡ exited) s.workers
    → occurrences k (settled s.pool.futures) ≡ occurrences k s.submitted
settled_of_exited p s k inv some_worker all =
    let (i, at) = first_exited s.workers all (omega (arith, inv.crew)) in
    omega (
      arith,
      inv.kept k,
      held-zero k s.workers all,
      ap (λ q. occurrences k (futures_of q)) (inv.gone i at).1,
    )
  where
    first_exited :
        (ws : List Worker)
        → All (λ w. w ≡ exited) ws
        → 1 ≤ length ws
        → (i : ℕ) × (get_elem? ws i ≡ some exited)
    first_exited [] h l = absurd (omega arith)
    first_exited (w ∷ ws) h l = (0, ap some h.0)

-- From a fresh pool with at least one worker on: when all workers have returned, every future has
-- been settled exactly as often as it was handed out.
pub settled_once :
    (p : Pool) (s : System) (k : ℕ)
    → IsFresh p
    → 1 ≤ p.worker_count
    → Reach p s
    → All (λ w. w ≡ exited) s.workers
    → occurrences k (settled s.pool.futures) ≡ occurrences k s.submitted
settled_once p s k f some_worker r all = settled_of_exited p s k (Reach-Inv p f r) some_worker all
