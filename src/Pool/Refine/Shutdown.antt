-- ===== src/Pool/Refine/Shutdown.antt =====
-- Cancellation and shutdown in include/vosp/worker_pool.hpp.
pub mod Cancel
use micro_error_framework.Pool.Refine.Shutdown.Cancel.{Cancelled, cancel_items-Cancelled}
pub use micro_error_framework.Pool.Refine.Shutdown.Cancel.{cancellation, cancellations, untracked}
use micro_error_framework.Prelude.{
  ℕ, ◌+◌, ◌-◌, ◌%◌, ◌<◌, ◌≡◌, refl, sym, ap, ap₂, ◌∙◌, inl, inr, Bool, true, Option, none, some,
  List, [], ◌∷◌, ◌++◌, append-nil, append_assoc, arith, ◌==◌, if◌then◌else◌, Option-cases, is_some,
  length,
}
use micro_error_framework.Error.{err}
use micro_error_framework.Pool.Word.{fetch_sub, fetch_or_stopping, size_mod}
use micro_error_framework.Pool.Word.Fields.{word, fetch_sub-cancelled, fetch_or_stopping-word}
use micro_error_framework.Pool.Slots.{Ring, reset_head}
use micro_error_framework.Pool.Slots.Refine.{Represents, reset_head-Represents}
use micro_error_framework.Pool.Task.{
  TaskItem, Settlement, value, task_cancelled_error, drain, cancel_pending,
}
use micro_error_framework.Pool.{Pool}
use micro_error_framework.Pool.Shutdown.{
  cancel_items, clear_queue, stop_accepting, request_stop, take_workers, signal_shutdown,
}
use micro_error_framework.Pool.Refine.{IsValid, IsValid-Fits, queries_lem}

-- `clear_queue` cancels exactly the queued tasks, in queue order, and returns their number. The
-- claimed tasks are left alone, and no empty slot is looked at.
pub record Cleared (p : Pool) (queue : List TaskItem) (active : ℕ) (stopping : Bool)
    (result : Option (Pool × ℕ)) : Type 0 where
  pub after : Pool
  pub done : result ≡ some (after, length queue)
  pub emptied : IsValid after [] active stopping
  pub told : after.futures ≡ p.futures ++ cancellations queue
  pub counted : after.cancelled_dispatches ≡ (p.cancelled_dispatches + untracked queue) % size_mod
  pub tokens_kept : after.stop_requested ≡ p.stop_requested
  pub joining_kept : after.joining ≡ p.joining

cleared_state :
    (p : Pool) (queue : List TaskItem) (active : ℕ) (stopping : Bool)
    → IsValid p queue active stopping
    → (if length queue == 0 then p.queue_state else fetch_sub p.queue_state (length queue))
      ≡ word 0 active stopping
cleared_state p [] active stopping v = v.state
cleared_state p (x ∷ queue) active stopping v =
    let n = length (x ∷ queue) in
    let taken =
      ap (λ s. fetch_sub s n) v.state
      ∙ fetch_sub-cancelled n active n stopping (omega arith)
          (IsValid-Fits p (x ∷ queue) active stopping v)
      ∙ ap (λ m. word m active stopping) (omega_sub n) in
    ground (arith, taken)
  where
    omega_sub : (m : ℕ) → m - m ≡ 0
    omega_sub m = omega arith

-- Clearing a valid pool, whose counter of cancelled tasks is in its range, succeeds: it empties the
-- queue, settles the futures in it and counts the other tasks in it.
pub clear_queue_lem :
    (p : Pool) (queue : List TaskItem) (active : ℕ) (stopping : Bool)
    → IsValid p queue active stopping
    → p.cancelled_dispatches < size_mod
    → Cleared p queue active stopping (clear_queue p)
unfolding clear_queue
clear_queue_lem p queue active stopping v h =
    let fields = queries_lem p queue active stopping v in
    let c = cancel_items-Cancelled queue p v.ring h in
    let tasks = record c.after.tasks { tail = c.after.tasks.head } in
    let state =
      if length queue == 0 then p.queue_state else fetch_sub p.queue_state (length queue) in
    record {
      after = record c.after { tasks = tasks; queue_state = state };
      done = ground (arith, fields.0, c.done, c.rest_kept);
      emptied = record {
        ring = record {
          sized = c.emptied.sized;
          head_in = c.emptied.head_in;
          bounded = omega arith;
          ends = refl;
          holds = tt;
        };
        small = rw c.capacity_kept v.small;
        claims = v.claims;
        state = cleared_state p queue active stopping v;
      };
      told = c.told;
      counted = c.counted;
      tokens_kept = ap (λ q. q.stop_requested) c.rest_kept;
      joining_kept = ap (λ q. q.joining) c.rest_kept;
    }

pub stop_accepting-IsValid :
    (p : Pool) (queue : List TaskItem) (active : ℕ) (stopping : Bool)
    → IsValid p queue active stopping
    → IsValid (stop_accepting p) queue active true
unfolding stop_accepting
stop_accepting-IsValid p queue active stopping v = record {
  ring = v.ring;
  small = v.small;
  claims = v.claims;
  state =
      ap fetch_or_stopping v.state
      ∙ fetch_or_stopping-word (length queue) active stopping
          (IsValid-Fits p queue active stopping v);
}

pub request_stop-IsValid :
    (p : Pool) (queue : List TaskItem) (active : ℕ) (stopping : Bool)
    → IsValid p queue active stopping
    → IsValid (request_stop p) queue active stopping
unfolding request_stop
request_stop-IsValid p queue active stopping v = record {
  ring = v.ring;
  small = v.small;
  claims = v.claims;
  state = v.state;
}

pub take_workers-IsValid :
    (p : Pool) (queue : List TaskItem) (active : ℕ) (stopping : Bool)
    → IsValid p queue active stopping
    → IsValid (take_workers p) queue active stopping
unfolding take_workers
take_workers-IsValid p queue active stopping v = record {
  ring = v.ring;
  small = v.small;
  claims = v.claims;
  state = v.state;
}

-- Signalling a shutdown to a valid pool, whose counter of cancelled tasks is in its range, leaves a
-- valid pool that is stopping. With `drain` the queue stays and the stop request is as before; with
-- `cancel_pending` the queue is cancelled, every future in it settled and every other task counted,
-- and a stop is requested, unless the workers are already being joined, when the request stays as it
-- was.
pub signal_shutdown_lem :
    (p : Pool) (queue : List TaskItem) (active : ℕ) (stopping : Bool)
    → IsValid p queue active stopping
    → p.cancelled_dispatches < size_mod
    → ((q : Pool) × (signal_shutdown p drain ≡ some q)
        × IsValid q queue active true
        × (q.futures ≡ p.futures)
        × (q.cancelled_dispatches ≡ p.cancelled_dispatches)
        × (q.stop_requested ≡ p.stop_requested))
      × ((q : Pool) × (signal_shutdown p cancel_pending ≡ some q)
          × IsValid q [] active true
          × (q.futures ≡ p.futures ++ cancellations queue)
          × (q.cancelled_dispatches ≡ (p.cancelled_dispatches + untracked queue) % size_mod)
          × (q.stop_requested ≡ (if p.joining then p.stop_requested else true)))
unfolding signal_shutdown stop_accepting request_stop
signal_shutdown_lem p queue active stopping v h =
    let w = stop_accepting-IsValid p queue active stopping v in
    let c = clear_queue_lem (stop_accepting p) queue active true w h in
    (
      (stop_accepting p, refl, w, refl, refl, refl),
      (
        request_stop c.after,
        ground (arith, c.done),
        request_stop-IsValid c.after [] active true c.emptied,
        c.told,
        c.counted,
        ap₂ (λ b t. if b then t else true) c.joining_kept c.tokens_kept,
      ),
    )
