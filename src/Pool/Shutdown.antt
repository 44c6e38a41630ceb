-- ===== src/Pool/Shutdown.antt =====
-- include/vosp/worker_pool.hpp: cancellation and shutdown of the worker pool, section by section.
use micro_error_framework.Prelude.{
  ℕ, zero, suc, ◌+◌, ◌%◌, Bool, true, Option, none, some, [], ◌∷◌, ◌++◌, ◌==◌, if◌then◌else◌,
}
use micro_error_framework.Error.{err}
use micro_error_framework.Pool.Word.{pending_from_state, fetch_sub, fetch_or_stopping, size_mod}
use micro_error_framework.Pool.Slots.{front, reset_head}
use micro_error_framework.Pool.Task.{
  ShutdownMode, drain, cancel_pending, task_cancelled_error, value,
}
use micro_error_framework.Pool.{Pool}

-- The loop of `cancel_pending`; `none` is an access to an empty slot.
unfoldable pub cancel_items : ℕ → Pool → Option Pool
cancel_items zero p = some p
cancel_items (suc remaining) p = elim (front p.tasks) [
  | none ↦ none
  | some item ↦ elim item.completion [
    | some future ↦ cancel_items remaining (record p {
      tasks = reset_head p.tasks;
      futures =
          p.futures
          ++ (record { future = future; delivery = value (err task_cancelled_error) } ∷ []);
    })
    | none ↦ cancel_items remaining (record p {
      tasks = reset_head p.tasks;
      cancelled_dispatches = (p.cancelled_dispatches + 1) % size_mod;
    })
  ]
]

-- `cancel_pending`, and `clear_queue`, which is nothing else: the new pool and the number cancelled.
-- With nothing cancelled the word is left alone.
unfoldable pub clear_queue : Pool → Option (Pool × ℕ)
unfolding cancel_items
clear_queue p =
    let cancelled = pending_from_state p.queue_state in
    elim (cancel_items cancelled p) [
      | none ↦ none
      | some q ↦
          let tasks' = record q.tasks { tail = q.tasks.head } in
          some (
            (if cancelled == 0
                then record q { tasks = tasks' }
                else record q { tasks = tasks'; queue_state = fetch_sub q.queue_state cancelled }),
            cancelled,
          )
    ]

-- `signal_shutdown`, its first section, under `producer_mutex_`
unfoldable pub stop_accepting : Pool → Pool
stop_accepting p = record p { queue_state = fetch_or_stopping p.queue_state }

-- `signal_shutdown`, its last section, under `workers_mutex_`: there is nobody left in `workers_` to
-- ask once they have been swapped out.
unfoldable pub request_stop : Pool → Pool
request_stop p = record p { stop_requested = if p.joining then p.stop_requested else true }

-- `signal_shutdown`, its sections one after the other, up to its `notify_all`, which changes no field
unfoldable pub signal_shutdown : Pool → ShutdownMode → Option Pool
unfolding stop_accepting request_stop clear_queue
signal_shutdown p mode = elim mode [
  | drain ↦ some (stop_accepting p)
  | cancel_pending ↦ elim (clear_queue (stop_accepting p)) [
    | none ↦ none
    | some (q, n) ↦ some (request_stop q)
  ]
]

-- `workers_to_join.swap(workers_)`, under `workers_mutex_`
unfoldable pub take_workers : Pool → Pool
take_workers p = record p { joining = true }

-- `shutdown`, by a worker of the pool or by another thread, up to the joins, which only wait.
unfoldable pub shutdown : Bool → Pool → ShutdownMode → Option Pool
unfolding signal_shutdown take_workers
shutdown is_worker_thread p mode =
    if is_worker_thread
    then signal_shutdown p mode
    else elim (signal_shutdown p mode) [ none ↦ none | some q ↦ some (take_workers q) ]
