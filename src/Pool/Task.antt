-- ===== src/Pool/Task.antt =====
-- include/vosp/worker_pool.hpp: tasks, their futures, and the modes of a shutdown.
use micro_error_framework.Prelude.{ℕ, Bool, true, false, Option, none, some, codes}
use micro_error_framework.Error.{
  Error, no_category, OperationResult, ok, err, Outcome, returned, threw_exception, threw_unknown,
}

abbrev pub max_worker_count : ℕ
max_worker_count = 1024

abbrev pub max_queue_capacity : ℕ
max_queue_capacity = 1024

abbrev pub task_cancelled_code : ℕ
task_cancelled_code = 0xE004

pub data ShutdownMode : Type 0 where
  drain cancel_pending : ShutdownMode

unfoldable pub task_cancelled_error : Error
task_cancelled_error = record {
  message = codes "Worker pool task was cancelled before execution";
  code = task_cancelled_code;
  category = no_category;
}

-- `std::variant<Task, CancellableTask>`: a callback is given by what its invocation does; a
-- cancellable one is handed a stop token, of which it sees when it starts whether a stop has been
-- requested.
pub data Callback : Type 0 where
  task : Outcome OperationResult → Callback
  cancellable : (Bool → Outcome OperationResult) → Callback

-- `TaskItem`. A promise is named by a number, its future's.
pub record TaskItem : Type 0 where
  pub callback : Callback
  pub completion : Option ℕ
  pub bulk : Bool

-- What a future becomes: the value or the exception that its promise is given.
pub data Delivery : Type 0 where
  value : OperationResult → Delivery
  exception : Delivery

-- `set_value` or `set_exception` on the promise of a future.
pub record Settlement : Type 0 where
  pub future : ℕ
  pub delivery : Delivery

-- The items that the four ways of submission build, and that of `dispatch_bulk`.
unfoldable pub submit_item : Outcome OperationResult → ℕ → TaskItem
submit_item t future = record { callback = task t; completion = some future; bulk = false }

unfoldable pub submit_cancellable_item : (Bool → Outcome OperationResult) → ℕ → TaskItem
submit_cancellable_item t future = record {
  callback = cancellable t;
  completion = some future;
  bulk = false;
}

unfoldable pub dispatch_item : Outcome OperationResult → TaskItem
dispatch_item t = record { callback = task t; completion = none; bulk = false }

unfoldable pub dispatch_cancellable_item : (Bool → Outcome OperationResult) → TaskItem
dispatch_cancellable_item t = record { callback = cancellable t; completion = none; bulk = false }

unfoldable pub bulk_item : Outcome OperationResult → TaskItem
bulk_item t = record { callback = task t; completion = none; bulk = true }

-- The invocation in `execute`.
unfoldable pub invoke : Callback → Bool → Outcome OperationResult
invoke (task t) stop_requested = t
invoke (cancellable t) stop_requested = t stop_requested

-- `set_value` of the result, or `set_exception` of what was thrown.
unfoldable pub delivery_of : Outcome OperationResult → Delivery
delivery_of (returned result) = value result
delivery_of (threw_exception what) = exception
delivery_of threw_unknown = exception

-- `task_exception || !*task_result`
unfoldable pub is_failure : Outcome OperationResult → Bool
is_failure (returned (ok u)) = false
is_failure (returned (err e)) = true
is_failure (threw_exception what) = true
is_failure threw_unknown = true
