-- ===== src/Threads/Tests.antt =====
-- The theorems on the threads of include/vosp/worker_pool.hpp at concrete inputs.
use micro_error_framework.Prelude.{
  ℕ, ◌+◌, ◌^◌, ◌≤◌, ◌<◌, ◌≡◌, refl, ◌↔◌, true, false, Option, none, some, [], ◌∷◌, arith, All,
}
use micro_error_framework.Error.{ok, returned}
use micro_error_framework.Pool.Word.Fields.{word}
use micro_error_framework.Pool.Word.{
  fetch_or_stopping, is_stopping_state, pending_from_state, fetch_add, fetch_sub,
}
use micro_error_framework.Pool.Slots.{Ring, create, emplace_tail, front, reset_head}
use micro_error_framework.Pool.Slots.Refine.{create-Represents}
use micro_error_framework.Pool.Task.{TaskItem, task, value, dispatch_item}
use micro_error_framework.Threads.Blocking.{Parked, BlockingReach}
use micro_error_framework.Threads.LostWakeUp.{two_workers, blocked_on_empty}
use micro_error_framework.Pool.{
  Pool, claim_seen, execute, finish_tasks, pending_tasks, enqueue, is_idle, is_stopping,
}
use micro_error_framework.Pool.Shutdown.{stop_accepting}
use micro_error_framework.Threads.{
  idle, running, exited, System, Step, submits, claims, executes, finishes, exits, stops_accepting,
  start, Reach, here, next,
}
use micro_error_framework.Threads.Total.{total, occurrences, settled}
use micro_error_framework.Threads.Invariant.{Inv, IsFresh}
use micro_error_framework.Threads.Steps.{Step-Inv, Reach-Inv}
use micro_error_framework.Threads.Futures.{settled_once}
use micro_error_framework.Threads.Quiet.{IsQuiet, is_idle_iff}
use micro_error_framework.Threads.Overflow.{left_to_run, idle_while_running}
use micro_error_framework.Threads.Shutdown.{Course, shutdown_joins}
use micro_error_framework.Pool.Shutdown.{shutdown}
use micro_error_framework.Pool.Task.{cancel_pending}
use micro_error_framework.Threads.Drain.{Moves, done, more}

-- `n` workers and `capacity` slots, as constructed.
abbrev pub fresh : ℕ → ℕ → Pool
fresh n capacity = record {
  worker_count = n;
  tasks = create capacity;
  queue_state = 0;
  failed_dispatches = 0;
  cancelled_dispatches = 0;
  futures = [];
  stop_requested = false;
  joining = false;
}

fresh-IsFresh :
    (n capacity : ℕ) → n ≤ 1024 → 0 < capacity → capacity ≤ 1024 → IsFresh (fresh n capacity)
unfolding word create
fresh-IsFresh n capacity h k l = record {
  valid = record {
    ring = create-Represents capacity k;
    small = l;
    claims = omega arith;
    state = refl;
  };
  crew = h;
  untold = refl;
  uncounted = refl;
}

pub one_worker : IsFresh (fresh 1 2)
one_worker = fresh-IsFresh 1 2 (omega arith) (omega arith) (omega arith)

abbrev pub job : TaskItem
job = record { callback = task (returned (ok tt)); completion = some 4; bulk = false }

abbrev slots_after : Option TaskItem → ℕ → Ring TaskItem
slots_after slot head = record { slots = slot ∷ none ∷ []; capacity = 2; head = head; tail = 1 }

-- One task is submitted, the pool is told to and the worker runs the task and returns.
abbrev pub queued : System
queued = record {
  pool = record (fresh 1 2) { tasks = slots_after (some job) 0; queue_state = 1 };
  workers = idle ∷ [];
  submitted = 4 ∷ [];
}

abbrev stopped : System
stopped = record queued { pool = record queued.pool { queue_state = 2 ^ 63 + 1 } }

abbrev taken : System
taken = record stopped {
  pool = record stopped.pool { tasks = slots_after none 1; queue_state = 2 ^ 63 + 2048 };
  workers = running (job ∷ []) 1 ∷ [];
}

abbrev ran : System
ran = record taken {
  pool = record taken.pool { futures = record { future = 4; delivery = value (ok tt) } ∷ [] };
  workers = running [] 1 ∷ [];
}

abbrev finished : System
finished = record ran { pool = record ran.pool { queue_state = 2 ^ 63 }; workers = idle ∷ [] }

abbrev over : System
over = record finished { workers = exited ∷ [] }

submitting : Step (start (fresh 1 2)) queued
unfolding enqueue emplace_tail create is_stopping_state pending_from_state fetch_add
submitting = submits job queued.pool refl

stopping : Step queued stopped
unfolding stop_accepting fetch_or_stopping is_stopping_state
stopping = stops_accepting

taking : Step stopped taken
unfolding claim_seen front reset_head pending_tasks pending_from_state fetch_add
taking = claims 0 1 taken.pool (job ∷ []) refl (omega arith) refl (λ e. cc)

running_it : Step taken ran
unfolding execute
running_it = executes 0 job [] 1 refl

finishing : Step ran finished
unfolding finish_tasks fetch_sub
finishing = finishes 0 1 refl

leaving : Step finished over
unfolding pending_tasks is_stopping is_stopping_state
leaving = exits 0 refl refl refl

Reach-stopped : Reach (fresh 1 2) stopped
Reach-stopped = next (next here submitting) stopping

Reach-over : Reach (fresh 1 2) over
Reach-over = next (next (next (next Reach-stopped taking) running_it) finishing) leaving

-- The worker's four moves.
four-Moves : Moves stopped 4 over
unfolding running_it taking finishing leaving
four-Moves =
    more 0 taking refl (more 0 running_it refl (more 0 finishing refl (more 0 leaving refl done)))

abbrev stopped-Inv : Inv (fresh 1 2) stopped
stopped-Inv = Reach-Inv (fresh 1 2) one_worker Reach-stopped

Step-Inv_example : Inv (fresh 1 2) taken
Step-Inv_example = Step-Inv (fresh 1 2) stopped taken taking stopped-Inv

settled_once_example : occurrences 4 (settled over.pool.futures) ≡ 1
settled_once_example =
    settled_once (fresh 1 2) over 4 one_worker (omega arith) Reach-over (refl, tt)

is_idle_iff_example :
    (is_idle stopped.pool ≡ true) ↔ ((stopped-Inv.queue ≡ []) × All IsQuiet (idle ∷ []))
is_idle_iff_example = is_idle_iff (fresh 1 2) stopped stopped-Inv (omega arith)

idle_while_running_example :
    (s : System) × Reach (fresh 128 64) s
    × (is_idle s.pool ≡ true)
    × (total left_to_run s.workers ≡ 2048)
unfolding create
idle_while_running_example =
    idle_while_running (fresh 128 64)
      (fresh-IsFresh 128 64 (omega arith) (omega arith) (omega arith)) (omega arith) (omega arith)

blocked_on_empty_example :
    (s : Parked) × BlockingReach two_workers s
    × (s.producers ≡ dispatch_item (returned (ok tt)) ∷ [])
    × (s.sleepers ≡ 0 ∷ 1 ∷ [])
    × (s.system.workers ≡ idle ∷ idle ∷ [])
    × (is_idle s.system.pool ≡ true)
    × (is_stopping s.system.pool ≡ false)
blocked_on_empty_example = blocked_on_empty (returned (ok tt)) (returned (ok tt))

shutdown_joins_example :
    (q : Pool) × (shutdown false stopped.pool cancel_pending ≡ some q)
    × Course stopped (record stopped { pool = q })
    × (is_stopping q ≡ true)
    × (n : ℕ) × (u : System) × Moves (record stopped { pool = q }) n u
    × All (λ w. w ≡ exited) u.workers
    × ((k : ℕ) → occurrences k (settled u.pool.futures) ≡ occurrences k (4 ∷ []))
shutdown_joins_example =
    shutdown_joins (fresh 1 2) stopped false cancel_pending stopped-Inv (omega arith)
