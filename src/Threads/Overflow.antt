-- ===== src/Threads/Overflow.antt =====
-- The field of the claimed tasks in include/vosp/worker_pool.hpp has 11 bits. The static assertions
-- compare it with the number of workers, while a worker can claim sixteen bulk tasks at once.
use micro_error_framework.Prelude.{
  ℕ, zero, suc, ◌+◌, ◌*◌, ◌≤◌, ◌<◌, ◌≡◌, refl, ap, subst, ◌∙◌, inl, inr, true, false, some, List,
  [], ◌∷◌, ◌++◌, map, arith, Option-cases, length, get_elem?, set, take, get_elem?-set_ne,
}
use micro_error_framework.Error.{OperationResult, ok, Outcome, returned}
use micro_error_framework.Pool.Task.{bulk_item, max_worker_count}
use micro_error_framework.Pool.{Pool, refill, is_idle, pending_tasks}
use micro_error_framework.Pool.Refine.{IsValid, RefillSpec, refill_lem, queries_lem}
use micro_error_framework.Pool.Refine.Claims.{claim_seen_lem}
use micro_error_framework.Threads.{
  Worker, idle, running, exited, System, Step, refills, claims, idle_workers, start, Reach, here,
  next,
}
use micro_error_framework.Threads.Total.{total, total-set, total-idle_workers}
use micro_error_framework.Threads.Invariant.{IsFresh}

-- The tasks that a worker has claimed and not yet run.
abbrev pub left_to_run : Worker → ℕ
left_to_run idle = 0
left_to_run (running items n) = length items
left_to_run exited = 0

abbrev sixteen : List (Outcome OperationResult)
sixteen = four ++ (four ++ (four ++ four))
  where
    one : Outcome OperationResult
    one = returned (ok tt)

    four : List (Outcome OperationResult)
    four = one ∷ one ∷ one ∷ one ∷ []

-- `n` workers have claimed sixteen tasks each, and run none; the queue is empty.
record Loaded (p : Pool) (n : ℕ) (s : System) : Type 0 where
  reached : Reach p s
  valid : IsValid s.pool [] (16 * n) false
  roomy : 16 ≤ s.pool.tasks.capacity
  waiting : (i : ℕ) → n ≤ i → i < p.worker_count → get_elem? s.workers i ≡ some idle
  pending : total left_to_run s.workers ≡ 16 * n

idle_worker : (n i : ℕ) → i < n → get_elem? (idle_workers n) i ≡ some idle
idle_worker zero i h = absurd (omega arith)
idle_worker (suc n) zero h = refl
idle_worker (suc n) (suc i) h = idle_worker n i (omega arith)

start-Loaded : (p : Pool) → IsFresh p → 16 ≤ p.tasks.capacity → Loaded p 0 (start p)
start-Loaded p f h = record {
  reached = here;
  valid = f.valid;
  roomy = h;
  waiting = λ i _ lt. idle_worker p.worker_count i lt;
  pending = total-idle_workers left_to_run p.worker_count refl;
}

-- A refill with sixteen callbacks on a pool with an empty queue.
record Refilled (s : System) (n : ℕ) : Type 0 where
  pool : Pool
  done : refill s.pool sixteen ≡ some (pool, 16)
  valid : IsValid pool (map bulk_item sixteen) (16 * n) false
  capacity_kept : pool.tasks.capacity ≡ s.pool.tasks.capacity

refill-Refilled : (p : Pool) (n : ℕ) (s : System) → Loaded p n s → Refilled s n
refill-Refilled p n s l = elim (Option-cases (refill s.pool sixteen)) [
  | inl e ↦
      let spec =
        subst (RefillSpec s.pool [] (16 * n) false sixteen) e
          (refill_lem s.pool [] (16 * n) false sixteen l.valid) in
      cc
  | inr ((q, m), e) ↦
      let spec =
        subst (RefillSpec s.pool [] (16 * n) false sixteen) e
          (refill_lem s.pool [] (16 * n) false sixteen l.valid) in
      let all : m ≡ 16 = omega (arith, spec.1, l.roomy) in
      record {
        pool = q;
        done = e ∙ ap (λ k. some (q, k)) all;
        valid = subst (λ k. IsValid q (map bulk_item (take k sixteen)) (16 * n) false) all spec.2;
        capacity_kept = spec.3;
      }
]

-- One more round: a refill with sixteen callbacks, and a claim by the next worker.
round-Loaded :
    (p : Pool) (n : ℕ) (s : System)
    → n < p.worker_count
    → n < 1024
    → Loaded p n s
    → (t : System) × Loaded p (n + 1) t
unfolding bulk_item pending_tasks
round-Loaded p n s h k l =
    let r = refill-Refilled p n s l in
    let filled : System = record s { pool = r.pool } in
    let fields = queries_lem r.pool (map bulk_item sixteen) (16 * n) false r.valid in
    let seen_all : 16 ≤ pending_tasks r.pool = omega (arith, fields.0) in
    let c =
      claim_seen_lem r.pool (map bulk_item sixteen) (16 * n) false 16 r.valid (omega arith)
        seen_all in
    let items = map bulk_item sixteen in
    let w = running items 16 in
    let t : System = record filled { pool = c.rest; workers = set s.workers n w } in
    let at = l.waiting n (omega arith) h in
    let claimed : Step filled t = claims n 16 c.rest items at seen_all c.done (λ e. cc) in
    let counted : 16 * n + 16 ≡ 16 * (n + 1) = omega arith in
    (
      t,
      record {
        reached = next (next l.reached (refills sixteen r.pool 16 r.done)) claimed;
        valid = subst (λ a. IsValid c.rest [] a false) counted c.kept;
        roomy = omega (arith, c.capacity_kept, r.capacity_kept, l.roomy);
        waiting = λ i le lt.
            get_elem?-set_ne s.workers n i w (λ e. absurd (omega arith))
            ∙ l.waiting i (omega arith) lt;
        pending = omega (arith, total-set left_to_run s.workers n idle w at, l.pending);
      },
    )

rounds-Loaded :
    (p : Pool)
    → IsFresh p
    → 16 ≤ p.tasks.capacity
    → p.worker_count ≤ max_worker_count
    → (n : ℕ) → n ≤ p.worker_count
    → (s : System) × Loaded p n s
rounds-Loaded p f room few zero h = (start p, start-Loaded p f room)
rounds-Loaded p f room few (suc n) h =
    let (s, l) = rounds-Loaded p f room few n (omega arith) in
    let (t, m) = round-Loaded p n s (omega arith) (omega arith) l in
    let one : n + 1 ≡ suc n = omega arith in (t, subst (λ k. Loaded p k t) one m)

-- Every fresh pool with at least 128 workers and room for sixteen tasks can reach a state in which
-- 2048 claimed tasks have still to be run, and yet `is_idle`, the test that `wait` makes, holds.
pub idle_while_running :
    (p : Pool)
    → IsFresh p
    → 16 ≤ p.tasks.capacity
    → 128 ≤ p.worker_count
    → (s : System) × Reach p s × (is_idle s.pool ≡ true) × (total left_to_run s.workers ≡ 2048)
unfolding is_idle
idle_while_running p f room many =
    let (s, l) = rounds-Loaded p f room f.crew 128 many in
    let fields = queries_lem s.pool [] 2048 false l.valid in
    (s, l.reached, ground (arith, fields.0, fields.1), l.pending)
