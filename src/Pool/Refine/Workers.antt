-- ===== src/Pool/Refine/Workers.antt =====
-- The workers' side of include/vosp/worker_pool.hpp after a claim: executing and finishing tasks.
use micro_error_framework.Prelude.{
  ℕ, ◌-◌, ◌*◌, ◌%◌, ◌≤◌, ◌≡◌, ap, ◌∙◌, Bool, ◌&&◌, List, arith, ◌==◌, length,
}
use micro_error_framework.Pool.Word.{fetch_sub, active_unit}
use micro_error_framework.Pool.Word.Fields.{fetch_sub-finished}
use micro_error_framework.Pool.Task.{TaskItem}
use micro_error_framework.Pool.{Pool, execute, finish_tasks}
use micro_error_framework.Pool.Refine.{IsValid, IsValid-Fits, queries_lem}

-- Executing an item leaves the queue and the number of claimed tasks alone.
pub execute-IsValid :
    (p : Pool) (queue : List TaskItem) (active : ℕ) (stopping : Bool) (item : TaskItem)
    → IsValid p queue active stopping
    → IsValid (execute p item) queue active stopping
unfolding execute
execute-IsValid p queue active stopping item v = ground arith

-- On a valid pool, finishing tasks that are claimed takes them off the count, and notifies the
-- waiters exactly if the word shows just these tasks claimed and none queued.
pub finish_tasks-IsValid :
    (p : Pool) (queue : List TaskItem) (active n : ℕ) (stopping : Bool)
    → IsValid p queue active stopping
    → n ≤ active
    → IsValid (finish_tasks p n).0 queue (active - n) stopping
      × ((finish_tasks p n).1 ≡ (active % 2048 == n) && (length queue == 0))
unfolding finish_tasks
finish_tasks-IsValid p queue active n stopping v h =
    let fields = queries_lem p queue active stopping v in
    (
      record {
        ring = v.ring;
        small = v.small;
        claims = omega arith;
        state =
            ap (λ s. fetch_sub s (n * active_unit)) v.state
            ∙ fetch_sub-finished (length queue) active n stopping h
                (IsValid-Fits p queue active stopping v);
      },
      rw (fields.0, fields.1),
    )
