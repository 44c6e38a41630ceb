-- ===== src/Systems/Tests.antt =====
-- The theorems on the error systems at concrete inputs (include/vosp/error.hpp, `ErrorSystem`).
use micro_error_framework.Prelude.{
  ℕ, ◌≡◌, refl, true, false, Option, none, some, List, [], ◌∷◌, arith, codes,
}
use micro_error_framework.Error.{Category}
use micro_error_framework.Register.{Register, add}
use micro_error_framework.Register.Table.{try_emplace, contains}
use micro_error_framework.Handler.Registers.{register_methods}
use micro_error_framework.Systems.{Job, run_job, async_submit, async_add}
use micro_error_framework.Error.{ok, returned}
use micro_error_framework.Handler.{adds}
use micro_error_framework.Pool.Word.{is_stopping_state, pending_from_state, fetch_add}
use micro_error_framework.Pool.Slots.{Ring, create, emplace_tail, front, reset_head}
use micro_error_framework.Pool.Task.{TaskItem, task, submit_item}
use micro_error_framework.Pool.{accepted, enqueue, claim_seen, execute, pending_tasks}
use micro_error_framework.Threads.{
  idle, running, System, Step, submits, claims, executes, Reach, here, next,
}
use micro_error_framework.Threads.Tests.{fresh, one_worker}
use micro_error_framework.Threads.Order.{IsKept}
use micro_error_framework.Systems.Pooled.{Service, Serves, begins, calls_add, runs, others}
use micro_error_framework.Systems.Pooled.Answers.{IsAsSync, pooled-IsAsSync}
use micro_error_framework.Systems.Schedules.{Reorders, exchange, Agrees, Reorders-agree}

abbrev registers : List Register
registers =
    record { category = Category.network; capacity_limit = 2; errors = [] }
    ∷ record { category = Category.database; capacity_limit = 2; errors = [] }
    ∷ []

abbrev deadlock_job : Job
deadlock_job = record {
  error = record { message = codes "Deadlock"; code = 5; category = Category.database };
  remove_error = false;
}

abbrev timeout_job : Job
timeout_job = record {
  error = record { message = codes "Timeout"; code = 1; category = Category.network };
  remove_error = true;
}

exchanged :
    Reorders ((0, deadlock_job) ∷ (1, timeout_job) ∷ []) ((1, timeout_job) ∷ (0, deadlock_job) ∷ [])
exchanged = exchange (λ e. omega arith) (λ e. cc)

Reorders-agree_example :
    Agrees register_methods registers
      (0 ∷ 1 ∷ [])
      ((0, deadlock_job) ∷ (1, timeout_job) ∷ [])
      ((1, timeout_job) ∷ (0, deadlock_job) ∷ [])
Reorders-agree_example =
    Reorders-agree register_methods registers (0 ∷ 1 ∷ []) (omega arith) exchanged

-- One worker and two slots. The deadlock is added, and the worker runs the job.
abbrev registered : List Register
registered =
    record { category = Category.network; capacity_limit = 2; errors = [] }
    ∷ record {
      category = Category.database;
      capacity_limit = 2;
      errors = (5, deadlock_job.error) ∷ [];
    }
    ∷ []

abbrev call_item : TaskItem
call_item = record { callback = task (returned (ok tt)); completion = some 0; bulk = false }

abbrev slots_after : Option TaskItem → ℕ → Ring TaskItem
slots_after slot head = record { slots = slot ∷ none ∷ []; capacity = 2; head = head; tail = 1 }

abbrev called : System
called = record {
  pool = record (fresh 1 2) { tasks = slots_after (some call_item) 0; queue_state = 1 };
  workers = idle ∷ [];
  submitted = 0 ∷ [];
}

abbrev taken : System
taken = record called {
  pool = record called.pool { tasks = slots_after none 1; queue_state = 2048 };
  workers = running (call_item ∷ []) 1 ∷ [];
}

calling : enqueue (fresh 1 2) call_item ≡ accepted called.pool
unfolding enqueue emplace_tail create is_stopping_state pending_from_state fetch_add
calling = refl

taking : Step called taken
unfolding claim_seen front reset_head pending_tasks pending_from_state fetch_add
taking = claims 0 1 taken.pool (call_item ∷ []) refl (omega arith) refl (λ e. cc)

deadlock_job-registered :
    run_job register_methods registers (0 ∷ 1 ∷ []) deadlock_job ≡ some (registered, ok tt)
unfolding run_job add try_emplace contains
deadlock_job-registered = refl

abbrev ran : System
ran = record taken { pool = execute taken.pool call_item; workers = running [] 1 ∷ [] }

-- The call, the claim and the job.
abbrev to_ran : Reach (fresh 1 2) ran
to_ran =
    next (next (next here (submits call_item called.pool calling)) taking)
      (executes 0 call_item [] 1 refl)

abbrev service : Service Register
service = record {
  store = registered;
  jobs = deadlock_job ∷ [];
  asked = (deadlock_job.error, adds) ∷ [];
}

to_ran-Serves : Serves register_methods (0 ∷ 1 ∷ []) registers (fresh 1 2) ran to_ran service
unfolding async_add async_submit submit_item taking
to_ran-Serves =
    runs
      (others (calls_add begins deadlock_job.error (returned (ok tt)) called.pool calling) taking
        tt)
      0 call_item [] 1 refl 0 deadlock_job registered (ok tt) refl refl deadlock_job-registered refl

to_ran-IsKept : IsKept to_ran
unfolding taking
to_ran-IsKept = (((tt, tt), tt), tt)

pooled-IsAsSync_example :
    IsAsSync register_methods
      (0 ∷ 1 ∷ [])
      registers
      (fresh 1 2)
      (omega arith)
      one_worker
      refl
      ran
      service
pooled-IsAsSync_example =
    pooled-IsAsSync register_methods (0 ∷ 1 ∷ []) registers (fresh 1 2) (omega arith) one_worker
      refl ran to_ran service to_ran-Serves to_ran-IsKept
