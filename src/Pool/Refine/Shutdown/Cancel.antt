-- ===== src/Pool/Refine/Shutdown/Cancel.antt =====
-- `cancel_items` of include/vosp/worker_pool.hpp, one task after the other.
use micro_error_framework.Prelude.{
  ℕ, ◌+◌, ◌%◌, ◌<◌, ◌≡◌, refl, sym, ◌∙◌, inl, inr, Option, none, some, List, [], ◌∷◌, ◌++◌,
  append-nil, append_assoc, arith, if◌then◌else◌, Option-cases, is_some, length,
}
use micro_error_framework.Error.{err}
use micro_error_framework.Pool.Word.{size_mod}
use micro_error_framework.Pool.Slots.{Ring, reset_head}
use micro_error_framework.Pool.Slots.Refine.{Represents, reset_head-Represents}
use micro_error_framework.Pool.Task.{TaskItem, Settlement, value, task_cancelled_error}
use micro_error_framework.Pool.{Pool}
use micro_error_framework.Pool.Shutdown.{cancel_items}

abbrev pub cancellation : ℕ → Settlement
cancellation future = record { future = future; delivery = value (err task_cancelled_error) }

-- The settlements of the futures of the queued tasks, in queue order.
abbrev pub cancellations : List TaskItem → List Settlement
cancellations [] = []
cancellations (x ∷ queue) = elim x.completion [
  | none ↦ cancellations queue
  | some future ↦ cancellation future ∷ cancellations queue
]

-- The number of queued tasks without a future.
abbrev pub untracked : List TaskItem → ℕ
untracked [] = 0
untracked (x ∷ queue) = (if is_some x.completion then 0 else 1) + untracked queue

-- The pool after the cancellation of a queue: each future in it holds the cancellation error, each
-- task without one is counted, and nothing else has changed.
pub record Cancelled (p : Pool) (queue : List TaskItem) (result : Option Pool) : Type 0 where
  pub after : Pool
  pub done : result ≡ some after
  pub emptied : Represents after.tasks []
  pub capacity_kept : after.tasks.capacity ≡ p.tasks.capacity
  pub told : after.futures ≡ p.futures ++ cancellations queue
  pub counted : after.cancelled_dispatches ≡ (p.cancelled_dispatches + untracked queue) % size_mod
  pub rest_kept : after ≡ record p {
    tasks = after.tasks;
    futures = after.futures;
    cancelled_dispatches = after.cancelled_dispatches;
  }

capacity-reset_head : (r : Ring TaskItem) → (reset_head r).capacity ≡ r.capacity
unfolding reset_head
capacity-reset_head r = refl

pub cancel_items-Cancelled :
    (queue : List TaskItem) (p : Pool)
    → Represents p.tasks queue
    → p.cancelled_dispatches < size_mod
    → Cancelled p queue (cancel_items (length queue) p)
unfolding cancel_items
cancel_items-Cancelled [] p v h = record {
  after = p;
  done = refl;
  emptied = v;
  capacity_kept = refl;
  told = sym (append-nil p.futures);
  counted = omega arith;
  rest_kept = refl;
}
cancel_items-Cancelled (x ∷ queue) p v h =
    let (here, later) = reset_head-Represents p.tasks x queue v in
    elim (Option-cases x.completion) [
      | inl e ↦
          let p' = record p {
            tasks = reset_head p.tasks;
            cancelled_dispatches = (p.cancelled_dispatches + 1) % size_mod;
          } in
          let rec = cancel_items-Cancelled queue p' later (omega arith) in
          record {
            after = rec.after;
            done = ground (arith, here, e, rec.done);
            emptied = rec.emptied;
            capacity_kept = rec.capacity_kept ∙ capacity-reset_head p.tasks;
            told = simp e rec.told;
            counted = ground (arith, rec.counted);
            rest_kept = rec.rest_kept;
          }
      | inr (future, e) ↦
          let p' = record p {
            tasks = reset_head p.tasks;
            futures = p.futures ++ (cancellation future ∷ []);
          } in
          let rec = cancel_items-Cancelled queue p' later h in
          record {
            after = rec.after;
            done = ground (arith, here, e, rec.done);
            emptied = rec.emptied;
            capacity_kept = rec.capacity_kept ∙ capacity-reset_head p.tasks;
            told = simp e (
                rec.told ∙ append_assoc p.futures (cancellation future ∷ []) (cancellations queue));
            counted = ground (arith, rec.counted);
            rest_kept = rec.rest_kept;
          }
    ]
