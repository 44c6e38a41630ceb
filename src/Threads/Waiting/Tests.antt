-- ===== src/Threads/Waiting/Tests.antt =====
-- A run of `wait` of include/vosp/worker_pool.hpp.
use micro_error_framework.Prelude.{ℕ, refl, false, Option, none, some, List, [], ◌∷◌, arith}
use micro_error_framework.Error.{ok, returned as completed}
use micro_error_framework.Pool.Word.{
  fetch_add, fetch_sub, pending_from_state, active_from_state, is_stopping_state,
}
use micro_error_framework.Pool.Slots.{create, emplace_tail, front, reset_head}
use micro_error_framework.Pool.Task.{TaskItem, task}
use micro_error_framework.Pool.{
  Pool, is_idle, enqueue, claim_seen, pending_tasks, execute, finish_tasks,
}
use micro_error_framework.Threads.{
  idle, running, System, Step, submits, claims, executes, finishes, start,
}
use micro_error_framework.Threads.Tests.{fresh, one_worker}
use micro_error_framework.Threads.Waiting.{
  Waiter, testing, entering, counted, loaded, comparing, blocked, Notifier, asked, Waiting,
  waiter_next, waiter_counts, acts, calls, waits, WaitingReach, here, next,
}
use micro_error_framework.Threads.Waiting.Unblocked.{Returns}
use micro_error_framework.Threads.Waiting.Returns.{wait-Returns}

abbrev job : TaskItem
job = record { callback = task (completed (ok tt)); completion = none; bulk = false }

abbrev slots_after : Option TaskItem → ℕ → Pool
slots_after slot head = record (fresh 1 2) {
  tasks = record { slots = slot ∷ none ∷ []; capacity = 2; head = head; tail = 1 };
}

abbrev queued : System
queued = record {
  pool = record (slots_after (some job) 0) { queue_state = 1 };
  workers = idle ∷ [];
  submitted = [];
}

abbrev taken : System
taken = record {
  pool = record (slots_after none 1) { queue_state = 2048 };
  workers = running (job ∷ []) 1 ∷ [];
  submitted = [];
}

abbrev ran : System
ran = record taken { workers = running [] 1 ∷ [] }

abbrev over : System
over = record ran { pool = record ran.pool { queue_state = 0 }; workers = idle ∷ [] }

submitting : Step (start (fresh 1 2)) queued
unfolding enqueue emplace_tail create is_stopping_state pending_from_state fetch_add
submitting = submits job queued.pool refl

taking : Step queued taken
unfolding claim_seen front reset_head pending_tasks pending_from_state fetch_add
taking = claims 0 1 taken.pool (job ∷ []) refl (omega arith) refl (λ e. cc)

running_it : Step taken ran
unfolding execute
running_it = executes 0 job [] 1 refl

finishing : Step ran over
unfolding finish_tasks fetch_sub
finishing = finishes 0 1 refl

abbrev waiting : System → Waiter → ℕ → List Notifier → Waiting
waiting s w n notifiers = record {
  system = s;
  waiters = w ∷ [];
  notifiers = notifiers;
  waiting_for_idle = n;
  completion_epoch = 0;
  raised = 0;
}

-- A thread waits for a queued task and blocks.
Reach-blocked : WaitingReach (fresh 1 2) (waiting queued (blocked 0) 1 [])
unfolding submitting waiter_next waiter_counts fetch_add is_idle pending_from_state
Reach-blocked =
    next
      (next
        (next
          (next (next (next (next here (acts submitting)) calls) (waits 0 testing refl))
            (waits 0 entering refl))
          (waits 0 counted refl))
        (waits 0 (loaded 0) refl))
      (waits 0 (comparing 0) refl)

-- The task is executed and finished; the worker has still to notify.
Reach-over : WaitingReach (fresh 1 2) (waiting over (blocked 0) 1 (asked ∷ []))
unfolding taking running_it finishing finish_tasks pending_from_state active_from_state
Reach-over = next (next (next Reach-blocked (acts taking)) (acts running_it)) (acts finishing)

wait-Returns_example : Returns 0 (waiting over (blocked 0) 1 (asked ∷ []))
unfolding is_idle pending_from_state active_from_state
wait-Returns_example =
    wait-Returns (fresh 1 2) (waiting over (blocked 0) 1 (asked ∷ [])) 0 (blocked 0) one_worker
      (omega arith) Reach-over (omega arith) (omega arith) refl refl
