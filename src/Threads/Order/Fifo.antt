-- ===== src/Threads/Order/Fifo.antt =====
-- The order in which the workers of include/vosp/worker_pool.hpp take their tasks, and in which a single
-- worker runs them.
use micro_error_framework.Pool.Refine.{queries_lem}
use micro_error_framework.Threads.Total.{total, claimed_by}
use micro_error_framework.Threads.Order.Steps.{IsValid-unique, Step-queue, Step-left}
use micro_error_framework.Prelude.{
  ℕ, zero, suc, ◌≡◌, refl, sym, ap, ap₂, ◌∙◌, ◌⊎◌, inl, inr, false, List, [], ◌∷◌, ◌++◌,
  append_assoc, arith, Bool-cases, length, All,
}
use micro_error_framework.Pool.Task.{TaskItem}
use micro_error_framework.Pool.{Pool, is_idle, pending_tasks}
use micro_error_framework.Threads.{
  Worker, idle, running, exited, System, Reach, here, next, idle_workers,
}
use micro_error_framework.Threads.Invariant.{Inv, IsFresh}
use micro_error_framework.Threads.Steps.{Reach-Inv}
use micro_error_framework.Threads.Quiet.{IsQuiet, is_idle_iff}
use micro_error_framework.Threads.Order.{
  accepted_by, taken_by, executed_by, taken_of, accepted_of, executed_of, IsKept, left_of,
}

left_of-idle_workers : (n : ℕ) → left_of (idle_workers n) ≡ []
left_of-idle_workers zero = refl
left_of-idle_workers (suc n) = left_of-idle_workers n

left_of-quiet : (ws : List Worker) → All IsQuiet ws → left_of ws ≡ []
left_of-quiet [] q = refl
left_of-quiet (idle ∷ ws) q = left_of-quiet ws q.1
left_of-quiet (running items n ∷ ws) q = absurd q.0
left_of-quiet (exited ∷ ws) q = left_of-quiet ws q.1

-- All the tasks accepted are those taken from the queue, and behind them those in it.
Reach-queue :
    (p₀ : Pool) {s : System} (r : Reach p₀ s)
    → IsFresh p₀
    → IsKept r
    → (inv : Inv p₀ s) → accepted_of r ≡ taken_of r ++ inv.queue
Reach-queue p₀ here fresh kept inv =
    sym (IsValid-unique p₀ inv.queue [] _ 0 _ false inv.valid fresh.valid)
Reach-queue p₀ (next {s = s} {t = t} r st) fresh kept inv =
    let before = Reach-Inv p₀ fresh r in
    ap (λ l. l ++ accepted_by st) (Reach-queue p₀ r fresh kept.0 before)
    ∙ append_assoc (taken_of r) before.queue (accepted_by st)
    ∙ ap (λ l. taken_of r ++ l) (Step-queue p₀ s t st before inv kept.1)
    ∙ sym (append_assoc (taken_of r) (taken_by st) inv.queue)

-- All the tasks that one worker has taken are those it has run, and behind them those it has left.
Reach-left :
    (p₀ : Pool) {s : System} (r : Reach p₀ s)
    → IsFresh p₀
    → p₀.worker_count ≡ 1
    → IsKept r
    → taken_of r ≡ executed_of r ++ left_of s.workers
Reach-left p₀ here fresh one kept = sym (left_of-idle_workers p₀.worker_count)
Reach-left p₀ (next {s = s} {t = t} r st) fresh one kept =
    let before = Reach-Inv p₀ fresh r in
    ap (λ l. l ++ taken_by st) (Reach-left p₀ r fresh one kept.0)
    ∙ append_assoc (executed_of r) (left_of s.workers) (taken_by st)
    ∙ ap (λ l. executed_of r ++ l) (Step-left s t st (before.crew ∙ one) kept.1)
    ∙ sym (append_assoc (executed_of r) (executed_by st) (left_of t.workers))

-- In a run of a pool with any number of workers, in any interleaving, in which the queue is never
-- cancelled, the tasks that the workers have taken, one claim after the other, are the first of those
-- that were accepted, in the order in which they were accepted; the pending count is the number of the
-- others.
pub taken_in_order :
    (p : Pool) (s : System) (r : Reach p s)
    → IsFresh p
    → IsKept r
    → (rest : List TaskItem) × (accepted_of r ≡ taken_of r ++ rest)
      × (pending_tasks s.pool ≡ length rest)
unfolding pending_tasks
taken_in_order p s r fresh kept =
    let inv = Reach-Inv p fresh r in
    (
      inv.queue,
      Reach-queue p r fresh kept inv,
      (queries_lem s.pool inv.queue (total claimed_by s.workers) inv.stopping inv.valid).0,
    )

-- In a run of a pool with one worker, in any interleaving with the threads that submit and shut down,
-- in which the queue is never cancelled, the tasks that have been run are the first of those that were
-- accepted, in the order in which they were accepted; and unless the test of `wait` fails, they are all.
pub one_worker_order :
    (p : Pool) (s : System) (r : Reach p s)
    → IsFresh p
    → p.worker_count ≡ 1
    → IsKept r
    → (rest : List TaskItem) × (accepted_of r ≡ executed_of r ++ rest)
      × ((is_idle s.pool ≡ false) ⊎ (rest ≡ []))
one_worker_order p s r fresh one kept =
    let inv = Reach-Inv p fresh r in
    (
      left_of s.workers ++ inv.queue,
      Reach-queue p r fresh kept inv
          ∙ ap (λ l. l ++ inv.queue) (Reach-left p r fresh one kept)
          ∙ append_assoc (executed_of r) (left_of s.workers) inv.queue,
      elim (Bool-cases (is_idle s.pool)) [
        | inl idles ↦
            let (empty, quiet) = (is_idle_iff p s inv (omega arith)).0 idles in
            inr (ap₂ (λ l q. l ++ q) (left_of-quiet s.workers quiet) empty)
        | inr busy ↦ inl busy
      ],
    )
