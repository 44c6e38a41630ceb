-- ===== src/Threads.antt =====
-- include/vosp/worker_pool.hpp, `run`, and the calls of other threads: the worker pool as a step
-- relation. A step is one section that a mutex or an atomic operation makes indivisible, by any
-- thread; steps interleave in any order. A blocked thread is one that takes no step.
pub mod Total
pub mod Invariant
pub mod Steps
pub mod Futures
pub mod Quiet
pub mod Overflow
pub mod Moves
pub mod Drain
pub mod Shutdown
pub mod Blocking
pub mod LostWakeUp
pub mod WakeUps
pub mod Waiting
pub mod Order
pub mod Tests
use micro_error_framework.Prelude.{
  ℕ, zero, suc, ◌+◌, ◌-◌, ◌*◌, ◌/◌, ◌%◌, ◌^◌, ◌≤◌, ◌<◌, min, compare, Ordering, bit_xor, String,
  ◌≡◌, refl, sym, ap, ap₂, subst, fun_ext, ◌∙◌, ◌≡⟨◌⟩◌, ◌∎, ◌≢◌, ◌↔◌, ◌⊎◌, inl, inr, Bool, true,
  false, not, ◌&&◌, ◌||◌, Option, none, some, List, [], ◌∷◌, ◌++◌, map, append-nil, append_assoc,
  arith, dec_lt, ℕ_discrete, ltb, leb, ◌==◌, if◌then◌else◌, ltb→lt, lt→ltb, leb→le, ==_iff, ==_refl,
  Bool-cases, Option-cases, is_some, Text, codes, text_eq, text_eq_refl, text_eq_iff, length,
  get_elem?, set, take, drop, length-append, length-set, get_elem?-set_self, get_elem?-set_ne,
  length-take, length-drop, take-append-drop, length-map, All, All-map, All-implies,
  get_elem?-bound, get_elem?-map, All-set, All-get,
}
use micro_error_framework.Error.{OperationResult, Outcome}
use micro_error_framework.Pool.Task.{TaskItem}
use micro_error_framework.Pool.{
  Pool, pending_tasks, is_stopping, Enqueued, accepted, enqueue, refill, claim_seen, execute,
  finish_tasks,
}
use micro_error_framework.Pool.Shutdown.{clear_queue, stop_accepting, request_stop, take_workers}

-- Where a worker stands in `run`: before its next claim, executing what it has claimed (the items
-- still to run, and how many it claimed), or returned.
pub data Worker : Type 0 where
  idle : Worker
  running : List TaskItem → ℕ → Worker
  exited : Worker

-- `submitted` lists the futures handed out by successful submissions.
pub record System : Type 0 where
  pub pool : Pool
  pub workers : List Worker
  pub submitted : List ℕ

abbrev pub future_of : TaskItem → List ℕ
future_of item = elim item.completion [ none ↦ [] | some future ↦ future ∷ [] ]

pub data Step (s : System) : System → Type 0 where
  -- `submit`, `submit_cancellable`, `dispatch`, `dispatch_cancellable`
  submits :
      (item : TaskItem) (p : Pool)
      → enqueue s.pool item ≡ accepted p
      → Step s (record s { pool = p; submitted = future_of item ++ s.submitted })
  -- a round of `dispatch_bulk`
  refills :
      (callbacks : List (Outcome OperationResult)) (p : Pool) (n : ℕ)
      → refill s.pool callbacks ≡ some (p, n)
      → Step s (record s { pool = p })
  -- a worker that finds `seen` tasks queued, while there may be more by the time it writes the word
  claims :
      (i seen : ℕ) (p : Pool) (items : List TaskItem)
      → get_elem? s.workers i ≡ some idle
      → seen ≤ pending_tasks s.pool
      → claim_seen seen s.pool ≡ some (p, items)
      → items ≢ []
      → Step s (record s { pool = p; workers = set s.workers i (running items (length items)) })
  executes :
      (i : ℕ) (item : TaskItem) (items : List TaskItem) (n : ℕ)
      → get_elem? s.workers i ≡ some (running (item ∷ items) n)
      → Step s
          (record s { pool = execute s.pool item; workers = set s.workers i (running items n) })
  finishes :
      (i n : ℕ)
      → get_elem? s.workers i ≡ some (running [] n)
      → Step s (record s { pool = (finish_tasks s.pool n).0; workers = set s.workers i idle })
  -- a worker that finds the queue empty and the pool stopping
  exits :
      (i : ℕ)
      → get_elem? s.workers i ≡ some idle
      → pending_tasks s.pool ≡ 0
      → is_stopping s.pool ≡ true
      → Step s (record s { workers = set s.workers i exited })
  clears : (p : Pool) (n : ℕ) → clear_queue s.pool ≡ some (p, n) → Step s (record s { pool = p })
  -- the sections of `signal_shutdown`, which `clears` is one of
  stops_accepting : Step s (record s { pool = stop_accepting s.pool })
  requests_stop : is_stopping s.pool ≡ true → Step s (record s { pool = request_stop s.pool })
  -- `shutdown` by a thread that is no worker, before its joins
  takes_workers : is_stopping s.pool ≡ true → Step s (record s { pool = take_workers s.pool })

abbrev pub idle_workers : ℕ → List Worker
idle_workers zero = []
idle_workers (suc n) = idle ∷ idle_workers n

-- The pool as its constructor leaves it.
abbrev pub start : Pool → System
start p = record { pool = p; workers = idle_workers p.worker_count; submitted = [] }

pub data Reach (p : Pool) : System → Type 0 where
  here : Reach p (start p)
  next : {s t : System} → Reach p s → Step s t → Reach p t
