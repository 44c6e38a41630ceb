-- ===== src/Pool.antt =====
-- include/vosp/worker_pool.hpp, `IndustrialWorkerPool`: the shared state, and each of the sections
-- that its mutexes make atomic. What threads do between them is in Threads.
pub mod Word
pub mod Slots
pub mod Task
pub mod Shutdown
pub mod Refine
pub mod Overlap
pub mod Bulk
mod Tests
use micro_error_framework.Prelude.{
  ℕ, zero, suc, ◌+◌, ◌-◌, ◌*◌, ◌/◌, ◌%◌, ◌^◌, ◌≤◌, ◌<◌, min, compare, Ordering, bit_xor, String,
  ◌≡◌, refl, sym, ap, ap₂, subst, fun_ext, ◌∙◌, ◌≡⟨◌⟩◌, ◌∎, ◌≢◌, ◌↔◌, ◌⊎◌, inl, inr, Bool, true,
  false, not, ◌&&◌, ◌||◌, Option, none, some, List, [], ◌∷◌, ◌++◌, map, append-nil, append_assoc,
  arith, dec_lt, ℕ_discrete, ltb, leb, ◌==◌, if◌then◌else◌, ltb→lt, lt→ltb, leb→le, ==_iff, ==_refl,
  Bool-cases, Option-cases, is_some, Text, codes, text_eq, text_eq_refl, text_eq_iff, length,
  get_elem?, set, take, drop, length-append, length-set, get_elem?-set_self, get_elem?-set_ne,
  length-take, length-drop, take-append-drop, length-map, All, All-map, All-implies,
  get_elem?-bound, get_elem?-map, All-set, All-get,
}
use micro_error_framework.Error.{
  OperationResult, err, Outcome, returned, threw_exception, threw_unknown,
}
use Word.{
  pending_from_state, is_stopping_state, active_from_state, fetch_add, fetch_sub, fetch_or_stopping,
  active_unit, size_mod,
}
use Slots.{Ring, create, emplace_tail, front, reset_head, next_queue_index}
use Task.{
  max_worker_count, max_queue_capacity, ShutdownMode, drain, cancel_pending, task_cancelled_error,
  TaskItem, Settlement, value, invoke, delivery_of, is_failure, bulk_item,
}

-- `futures` is the sequence of promises settled so far; `stop_requested` is the stop token of the
-- workers, which is requested of all of them at once; `joining` says that a shutdown has swapped
-- `workers_` out to join them.
pub record Pool : Type 0 where
  pub worker_count : ℕ
  pub tasks : Ring TaskItem
  pub queue_state : ℕ
  pub failed_dispatches : ℕ
  pub cancelled_dispatches : ℕ
  pub futures : List Settlement
  pub stop_requested : Bool
  pub joining : Bool

unfoldable pub validate_queue_capacity : ℕ → Outcome ℕ
validate_queue_capacity capacity =
    if (capacity == 0) || ltb max_queue_capacity capacity
    then threw_exception (some (codes "Worker pool queue capacity must be in [1, 1024]"))
    else returned capacity

-- The constructor. The number of hardware threads is the platform's.
unfoldable pub construct : ℕ → ℕ → ℕ → Outcome Pool
unfolding validate_queue_capacity create
construct hardware_concurrency worker_count queue_capacity =
    elim (validate_queue_capacity queue_capacity) [
      | threw_exception what ↦ threw_exception what
      | threw_unknown ↦ threw_unknown
      | returned capacity ↦
          let count = if worker_count == 0 then hardware_concurrency else worker_count in
          if (count == 0) || ltb max_worker_count count
          then threw_exception (some (codes "Worker pool worker count must be in [1, 1024]"))
          else returned (record {
            worker_count = count;
            tasks = create capacity;
            queue_state = 0;
            failed_dispatches = 0;
            cancelled_dispatches = 0;
            futures = [];
            stop_requested = false;
            joining = false;
          })
    ]

unfoldable pub pending_tasks : Pool → ℕ
unfolding pending_from_state
pending_tasks p = pending_from_state p.queue_state

unfoldable pub active_tasks : Pool → ℕ
unfolding active_from_state
active_tasks p = active_from_state p.queue_state

unfoldable pub is_stopping : Pool → Bool
unfolding is_stopping_state
is_stopping p = is_stopping_state p.queue_state

unfoldable pub is_idle : Pool → Bool
is_idle p = (pending_from_state p.queue_state == 0) && (active_from_state p.queue_state == 0)

-- What one round of the loop in `enqueue` comes to: it throws, it goes on waiting, or it is done.
pub data Enqueued : Type 0 where
  shut_down full : Enqueued
  accepted : Pool → Enqueued

-- `enqueue`, the section under `producer_mutex_`.
unfoldable pub enqueue : Pool → TaskItem → Enqueued
enqueue p item =
    if is_stopping_state p.queue_state
    then shut_down
    else if pending_from_state p.queue_state == p.tasks.capacity
    then full
    else accepted
        (record p { tasks = emplace_tail p.tasks item; queue_state = fetch_add p.queue_state 1 })

-- The loop of `dispatch_bulk` that moves callbacks into the ring.
unfoldable pub emplace_all : Ring TaskItem → List TaskItem → Ring TaskItem
emplace_all r [] = r
emplace_all r (item ∷ items) = emplace_all (emplace_tail r item) items

-- `dispatch_bulk`, the section under `producer_mutex_`, on the tasks that are left: the new pool and
-- `enqueued`, or `none` if the pool is stopping. `available == 0` comes out as no task enqueued.
unfoldable pub refill : Pool → List (Outcome OperationResult) → Option (Pool × ℕ)
unfolding emplace_all
refill p callbacks =
    if is_stopping_state p.queue_state
    then none
    else (let available = p.tasks.capacity - pending_from_state p.queue_state in
        let enqueued = min (length callbacks) available in
        some (
          record p {
            tasks = emplace_all p.tasks (map bulk_item (take enqueued callbacks));
            queue_state = fetch_add p.queue_state enqueued;
          },
          enqueued,
        ))

abbrev pub bulk_claim_size : ℕ
bulk_claim_size = 16

-- The claiming loop of `process_bulk`: at most `limit` items, as long as the front one is bulk.
-- `none` is an access to an empty slot.
unfoldable pub claim_bulk : ℕ → Ring TaskItem → Option (Ring TaskItem × List TaskItem)
claim_bulk zero r = some (r, [])
claim_bulk (suc limit) r = elim (front r) [
  | none ↦ none
  | some item ↦ elim item.bulk [
    | false ↦ some (r, [])
    | true ↦ elim (claim_bulk limit (reset_head r)) [
      | none ↦ none
      | some (r', items) ↦ some (r', item ∷ items)
    ]
  ]
]

-- `run`, the section under `consumer_mutex_`, where `seen` is the number of tasks queued when it loads
-- the word: the new pool and the claimed items, no item if the queue is empty. Producers may have
-- queued more before it writes the word.
unfoldable pub claim_seen : ℕ → Pool → Option (Pool × List TaskItem)
unfolding claim_bulk
claim_seen seen p = if seen == 0 then some (p, []) else elim (front p.tasks) [
  | none ↦ none
  | some item ↦
      if item.bulk
      then elim (claim_bulk (min bulk_claim_size seen) p.tasks) [
        | none ↦ none
        | some (tasks, items) ↦ some (
          record p {
            tasks = tasks;
            queue_state = fetch_add p.queue_state (length items * (active_unit - 1));
          },
          items,
        )
      ]
      else some (
        record p {
          tasks = reset_head p.tasks;
          queue_state = fetch_add p.queue_state (active_unit - 1);
        },
        item ∷ [],
      )
]

-- The same with no producer in between.
unfoldable pub claim : Pool → Option (Pool × List TaskItem)
unfolding claim_seen
claim p = claim_seen (pending_from_state p.queue_state) p

-- `execute` with `finish` false.
unfoldable pub execute : Pool → TaskItem → Pool
unfolding invoke delivery_of is_failure
execute p item =
    let outcome = invoke item.callback p.stop_requested in
    elim item.completion [
      | none ↦
          if is_failure outcome
          then record p { failed_dispatches = (p.failed_dispatches + 1) % size_mod }
          else p
      | some future ↦ record p {
        futures = p.futures ++ (record { future = future; delivery = delivery_of outcome } ∷ []);
      }
    ]

-- `finish_tasks`: the new pool, and whether it calls `notify_idle_waiters`.
unfoldable pub finish_tasks : Pool → ℕ → Pool × Bool
finish_tasks p n = (
  record p { queue_state = fetch_sub p.queue_state (n * active_unit) },
  (active_from_state p.queue_state == n) && (pending_from_state p.queue_state == 0),
)
