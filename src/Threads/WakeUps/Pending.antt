-- ===== src/Threads/WakeUps/Pending.antt =====
-- The pending count of include/vosp/worker_pool.hpp after steps that queue nothing.
use mathlib.Core.Option.{some-injective}
use micro_error_framework.Prelude.{
  ℕ, ◌≡◌, refl, sym, subst, ◌∙◌, true, false, some, List, [], ◌++◌, map, arith, take, length-append,
  length-take, length-map,
}
use micro_error_framework.Pool.{Pool, pending_tasks}
use micro_error_framework.Pool.Shutdown.{clear_queue, stop_accepting, request_stop, take_workers}
use micro_error_framework.Pool.Refine.{queries_lem}
use micro_error_framework.Pool.Refine.Shutdown.{clear_queue_lem, stop_accepting-IsValid}
use micro_error_framework.Error.{OperationResult, Outcome}
use micro_error_framework.Pool.Task.{bulk_item}
use micro_error_framework.Pool.{refill}
use micro_error_framework.Pool.Refine.{RefillSpec, refill_lem}
use micro_error_framework.Threads.{System}
use micro_error_framework.Threads.Total.{total, claimed_by}
use micro_error_framework.Threads.Invariant.{Inv}

pub pending-stop_accepting :
    (p : Pool) (s : System) → Inv p s → pending_tasks (stop_accepting s.pool) ≡ pending_tasks s.pool
unfolding pending_tasks
pending-stop_accepting p s inv =
    let active = total claimed_by s.workers in
    let v = stop_accepting-IsValid s.pool inv.queue active inv.stopping inv.valid in
    (queries_lem (stop_accepting s.pool) inv.queue active true v).0
    ∙ sym (queries_lem s.pool inv.queue active inv.stopping inv.valid).0

pub pending-clear_queue :
    (p : Pool) (s : System) (q : Pool) (n : ℕ)
    → Inv p s
    → clear_queue s.pool ≡ some (q, n)
    → pending_tasks q ≡ 0
unfolding pending_tasks
pending-clear_queue p s q n inv e =
    let active = total claimed_by s.workers in
    let c = clear_queue_lem s.pool inv.queue active inv.stopping inv.valid inv.counter in
    let same = some-injective _ _ (sym c.done ∙ e) in
    subst (λ r. pending_tasks r.0 ≡ 0) same (queries_lem c.after [] active inv.stopping c.emptied).0

pub pending-request_stop : (p : Pool) → pending_tasks (request_stop p) ≡ pending_tasks p
unfolding pending_tasks request_stop
pending-request_stop p = refl

pub pending-take_workers : (p : Pool) → pending_tasks (take_workers p) ≡ pending_tasks p
unfolding pending_tasks take_workers
pending-take_workers p = refl

-- A round of `dispatch_bulk` that finds no room.
pub pending-refill :
    (p : Pool) (s : System) (callbacks : List (Outcome OperationResult)) (q : Pool) (n : ℕ)
    → Inv p s
    → refill s.pool callbacks ≡ some (q, n)
    → n ≡ 0
    → pending_tasks q ≡ pending_tasks s.pool
unfolding pending_tasks
pending-refill p s callbacks q n inv e none_queued =
    let active = total claimed_by s.workers in
    let spec =
      subst (RefillSpec s.pool inv.queue active inv.stopping callbacks) e
        (refill_lem s.pool inv.queue active inv.stopping callbacks inv.valid) in
    let items = map bulk_item (take n callbacks) in
    omega (
      arith,
      (queries_lem q (inv.queue ++ items) active false spec.2).0,
      (queries_lem s.pool inv.queue active inv.stopping inv.valid).0,
      length-append inv.queue items,
      length-map bulk_item (take n callbacks),
      length-take n callbacks,
    )
