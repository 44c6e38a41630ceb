-- ===== src/Threads/LostWakeUp.antt =====
-- A wake-up of include/vosp/worker_pool.hpp that goes to the wrong thread: producers and workers block
-- on the same `queue_state_`, and `notify_one` does not tell them apart.
use micro_error_framework.Prelude.{
  ℕ, ◌≡◌, refl, ap, inl, inr, true, false, ◌&&◌, List, [], ◌∷◌, arith, ◌==◌, Bool-cases,
}
use micro_error_framework.Error.{OperationResult, Outcome}
use micro_error_framework.Pool.Word.{
  fetch_add, fetch_sub, pending_from_state, active_from_state, is_stopping_state,
}
use micro_error_framework.Pool.Slots.{create, emplace_tail, front, reset_head, next_queue_index}
use micro_error_framework.Pool.Task.{TaskItem, is_failure, dispatch_item}
use micro_error_framework.Pool.{
  Pool, pending_tasks, is_stopping, is_idle, enqueue, claim_seen, execute, finish_tasks,
}
use micro_error_framework.Threads.{
  Worker, idle, running, System, Step, submits, claims, executes, finishes,
}
use micro_error_framework.Threads.Blocking.{
  Parked, wakes_worker, parks, sleeps, acts, BlockingReach, here, next,
}

-- Two workers and one slot, as constructed.
abbrev pub two_workers : Pool
two_workers = record {
  worker_count = 2;
  tasks = create 1;
  queue_state = 0;
  failed_dispatches = 0;
  cancelled_dispatches = 0;
  futures = [];
  stop_requested = false;
  joining = false;
}

module _ (a b : Outcome OperationResult) where
  abbrev queued : Pool
  queued = record two_workers { tasks = emplace_tail (create 1) (dispatch_item a); queue_state = 1 }

  abbrev claimed : Pool
  claimed = record queued { tasks = reset_head queued.tasks; queue_state = 2048 }

  abbrev over : Pool
  over = (finish_tasks (execute claimed (dispatch_item a)) 1).0

  abbrev with_workers : Pool → Worker → System
  with_workers p w = record { pool = p; workers = w ∷ idle ∷ []; submitted = [] }

  abbrev parked : System → List TaskItem → List ℕ → Parked
  parked s producers sleepers = record { system = s; producers = producers; sleepers = sleepers }

  submitting : Step (with_workers two_workers idle) (with_workers queued idle)
  unfolding enqueue fetch_add pending_from_state is_stopping_state create emplace_tail
      next_queue_index dispatch_item
  submitting = submits (dispatch_item a) queued refl

  claiming :
      Step (with_workers queued idle) (with_workers claimed (running (dispatch_item a ∷ []) 1))
  unfolding claim_seen pending_tasks fetch_add pending_from_state create emplace_tail front
      reset_head next_queue_index dispatch_item
  claiming = claims 0 1 claimed (dispatch_item a ∷ []) refl (omega arith) refl (λ e. cc)

  executing :
      Step
        (with_workers claimed (running (dispatch_item a ∷ []) 1))
        (with_workers (execute claimed (dispatch_item a)) (running [] 1))
  executing = executes 0 (dispatch_item a) [] 1 refl

  finishing :
      Step
        (with_workers (execute claimed (dispatch_item a)) (running [] 1))
        (with_workers over idle)
  finishing = finishes 0 1 refl

  state-over : over.queue_state ≡ 0
  unfolding finish_tasks execute fetch_sub dispatch_item
  state-over = elim (Bool-cases (is_failure a)) [ inl y ↦ rw (y) refl | inr n ↦ rw (n) refl ]

  pending-over : pending_tasks over ≡ 0
  unfolding pending_tasks pending_from_state
  pending-over = ap pending_from_state state-over

  stopping-over : is_stopping over ≡ false
  unfolding is_stopping is_stopping_state
  stopping-over = ap is_stopping_state state-over

  idle-over : is_idle over ≡ true
  unfolding is_idle pending_from_state active_from_state
  idle-over = ap (λ q. (pending_from_state q == 0) && (active_from_state q == 0)) state-over

  -- Both workers sleep; the submission of `a` wakes worker 0; the one of `b` blocks.
  to_blocked :
      BlockingReach two_workers (parked (with_workers queued idle) (dispatch_item b ∷ []) (1 ∷ []))
  unfolding submitting pending_tasks pending_from_state is_stopping is_stopping_state create
      emplace_tail
  to_blocked =
      let both =
        next (next here (sleeps 0 refl tt refl refl))
          (sleeps 1 refl ((λ e. omega arith), tt) refl refl) in
      let woken =
        next both
          (acts submitting [] (1 ∷ []) tt (inr ((λ e. cc), wakes_worker (1 ∷ []) [] 0 []))) in
      next woken (parks (dispatch_item b) refl refl)

  -- Worker 0 claims the task, and its wake-up goes to worker 1, which sleeps again.
  to_running : BlockingReach two_workers (
      parked
        (with_workers claimed (running (dispatch_item a ∷ []) 1))
        (dispatch_item b ∷ [])
        (1 ∷ []))
  unfolding claiming pending_tasks pending_from_state is_stopping is_stopping_state
  to_running =
      let woken = next to_blocked (
        acts claiming (dispatch_item b ∷ []) [] ((λ e. omega arith), tt)
          (inr ((λ e. cc), wakes_worker [] [] 1 (dispatch_item b ∷ [])))) in
      next woken (sleeps 1 refl tt refl refl)

  -- For any two tasks, a pool of two workers and one slot can reach a state in which the queue is
  -- empty, the pool is idle and not stopping, and yet a call of `dispatch` with the second task is
  -- blocked for space, while both workers are blocked for tasks.
  pub blocked_on_empty :
      (s : Parked) × BlockingReach two_workers s
      × (s.producers ≡ dispatch_item b ∷ [])
      × (s.sleepers ≡ 0 ∷ 1 ∷ [])
      × (s.system.workers ≡ idle ∷ idle ∷ [])
      × (is_idle s.system.pool ≡ true)
      × (is_stopping s.system.pool ≡ false)
  unfolding executing finishing
  blocked_on_empty =
      let ran =
        next (next to_running (acts executing (dispatch_item b ∷ []) (1 ∷ []) tt (refl, refl)))
          (acts finishing (dispatch_item b ∷ []) (1 ∷ []) tt (refl, refl)) in
      (
        parked (with_workers over idle) (dispatch_item b ∷ []) (0 ∷ 1 ∷ []),
        next ran (sleeps 0 refl ((λ e. omega arith), tt) pending-over stopping-over),
        refl,
        refl,
        refl,
        idle-over,
        stopping-over,
      )
