-- ===== src/Threads/Order/Tests.antt =====
-- The order of tasks in include/vosp/worker_pool.hpp at a concrete run: two tasks are submitted, and the
-- worker runs the first.
use micro_error_framework.Prelude.{
  ◌≡◌, refl, ◌⊎◌, false, none, some, List, [], ◌∷◌, ◌++◌, arith, length,
}
use micro_error_framework.Error.{ok, returned}
use micro_error_framework.Pool.Word.{is_stopping_state, pending_from_state, fetch_add}
use micro_error_framework.Pool.Slots.{create, emplace_tail, front, reset_head}
use micro_error_framework.Pool.Task.{TaskItem, task, value}
use micro_error_framework.Pool.{enqueue, claim_seen, execute, pending_tasks, is_idle}
use micro_error_framework.Threads.{
  idle, running, System, Step, submits, claims, executes, start, Reach, here, next,
}
use micro_error_framework.Threads.Tests.{fresh, one_worker, queued, job}
use micro_error_framework.Threads.Order.{accepted_of, taken_of, IsKept}
use micro_error_framework.Threads.Order.Fifo.{one_worker_order, taken_in_order}

abbrev second : TaskItem
second = record { callback = task (returned (ok tt)); completion = some 5; bulk = false }

abbrev both : System
both = record {
  pool = record (fresh 1 2) {
    tasks = record { slots = some job ∷ some second ∷ []; capacity = 2; head = 0; tail = 0 };
    queue_state = 2;
  };
  workers = idle ∷ [];
  submitted = 5 ∷ 4 ∷ [];
}

abbrev taken : System
taken = record both {
  pool = record both.pool {
    tasks = record { slots = none ∷ some second ∷ []; capacity = 2; head = 1; tail = 0 };
    queue_state = 2049;
  };
  workers = running (job ∷ []) 1 ∷ [];
}

abbrev pub ran : System
ran = record taken {
  pool = record taken.pool { futures = record { future = 4; delivery = value (ok tt) } ∷ [] };
  workers = running [] 1 ∷ [];
}

submitting : Step (start (fresh 1 2)) queued
unfolding enqueue emplace_tail create is_stopping_state pending_from_state fetch_add
submitting = submits job queued.pool refl

submitting_second : Step queued both
unfolding enqueue emplace_tail is_stopping_state pending_from_state fetch_add
submitting_second = submits second both.pool refl

taking : Step both taken
unfolding claim_seen front reset_head pending_tasks pending_from_state fetch_add
taking = claims 0 1 taken.pool (job ∷ []) refl (omega arith) refl (λ e. cc)

running_it : Step taken ran
unfolding execute
running_it = executes 0 job [] 1 refl

pub to_ran : Reach (fresh 1 2) ran
to_ran = next (next (next (next here submitting) submitting_second) taking) running_it

pub to_ran-IsKept : IsKept to_ran
unfolding to_ran submitting submitting_second taking running_it
to_ran-IsKept = ((((tt, tt), tt), tt), tt)

taken_in_order_example :
    (rest : List TaskItem) × (accepted_of to_ran ≡ taken_of to_ran ++ rest)
    × (pending_tasks ran.pool ≡ length rest)
taken_in_order_example = taken_in_order (fresh 1 2) ran to_ran one_worker to_ran-IsKept

one_worker_order_example :
    (rest : List TaskItem) × (job ∷ second ∷ [] ≡ job ∷ rest)
    × ((is_idle ran.pool ≡ false) ⊎ (rest ≡ []))
unfolding to_ran submitting submitting_second taking running_it
one_worker_order_example = one_worker_order (fresh 1 2) ran to_ran one_worker refl to_ran-IsKept
