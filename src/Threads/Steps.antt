-- ===== src/Threads/Steps.antt =====
-- The steps of include/vosp/worker_pool.hpp and the invariant.
pub mod Producers
mod Workers
mod Shutdown
use mathlib.Core.Option.{some-injective}
use micro_error_framework.Prelude.{
  ℕ, zero, suc, ◌+◌, ◌-◌, ◌*◌, ◌/◌, ◌%◌, ◌^◌, ◌≤◌, ◌<◌, min, compare, Ordering, bit_xor, String,
  ◌≡◌, refl, sym, ap, ap₂, subst, fun_ext, ◌∙◌, ◌≡⟨◌⟩◌, ◌∎, ◌≢◌, ◌↔◌, ◌⊎◌, inl, inr, Bool, true,
  false, not, ◌&&◌, ◌||◌, Option, none, some, List, [], ◌∷◌, ◌++◌, map, append-nil, append_assoc,
  arith, dec_lt, ℕ_discrete, ltb, leb, ◌==◌, if◌then◌else◌, ltb→lt, lt→ltb, leb→le, ==_iff, ==_refl,
  Bool-cases, Option-cases, is_some, Text, codes, text_eq, text_eq_refl, text_eq_iff, length,
  get_elem?, set, take, drop, length-append, length-set, get_elem?-set_self, get_elem?-set_ne,
  length-take, length-drop, take-append-drop, length-map, All, All-map, All-implies,
  get_elem?-bound, get_elem?-map, All-set, All-get,
}
use micro_error_framework.Pool.Word.{size_mod}
use micro_error_framework.Pool.Task.{
  invoke, delivery_of, drain, cancel_pending, ShutdownMode, TaskItem, Settlement, bulk_item,
}
use micro_error_framework.Error.{OperationResult, Outcome}
use micro_error_framework.Pool.{
  Pool, accepted, enqueue, refill, claim, execute, finish_tasks, bulk_claim_size, pending_tasks,
  is_stopping,
}
use micro_error_framework.Pool.Shutdown.{clear_queue, signal_shutdown}
use micro_error_framework.Pool.Refine.{
  IsValid, queries_lem, EnqueueSpec, enqueue_lem, RefillSpec, refill_lem,
}
use micro_error_framework.Pool.Refine.Claims.{
  Claimed, claimable_seen, claimable_seen_bounds, claim_seen_lem,
}
use micro_error_framework.Pool.Refine.Workers.{execute-IsValid, finish_tasks-IsValid}
use micro_error_framework.Pool.Refine.Shutdown.{clear_queue_lem, cancellations, signal_shutdown_lem}
use micro_error_framework.Threads.{
  Worker, idle, running, exited, System, future_of, Step, submits, refills, claims, executes,
  finishes, exits, clears, stops_accepting, requests_stop, takes_workers, Reach, here, next,
}
use micro_error_framework.Threads.Total.{
  total, total-set, total-ge, occurrences, occurrences-append, futures_of, futures_of-append,
  settled, settled-append, claimed_by, held_by, occurrences-enqueued, occurrences-split, drop-nil,
  exited-set,
}
use micro_error_framework.Threads.Invariant.{IsBounded, Inv, IsFresh, start-Inv, claimed-le}
use Producers.{submits-Inv, refills-Inv}
use Workers.{claims-Inv, executes-Inv, finishes-Inv, exits-Inv}
use Shutdown.{clears-Inv, stops-Inv, requests_stop-Inv, takes_workers-Inv}

-- Every step of every thread keeps the invariant: the ring holds a queue within its capacity, the
-- word counts its tasks and those claimed, at most sixteen for each worker, every future handed out is
-- settled, queued or with a worker as often as it was handed out, and a worker that has returned left
-- an empty queue of a stopping pool.
pub Step-Inv : (p₀ : Pool) (s t : System) → Step s t → Inv p₀ s → Inv p₀ t
Step-Inv p₀ s t (submits item p e) inv = submits-Inv p₀ s item p e inv
Step-Inv p₀ s t (refills callbacks p n e) inv = refills-Inv p₀ s callbacks p n e inv
Step-Inv p₀ s t (claims i seen p items at few_seen e ne) inv =
    claims-Inv p₀ s i seen p items at few_seen e ne inv
Step-Inv p₀ s t (executes i item items n at) inv = executes-Inv p₀ s i item items n at inv
Step-Inv p₀ s t (finishes i n at) inv = finishes-Inv p₀ s i n at inv
Step-Inv p₀ s t (exits i at e stops) inv = exits-Inv p₀ s i at e stops inv
Step-Inv p₀ s t (clears p n e) inv = clears-Inv p₀ s p n e inv
Step-Inv p₀ s t stops_accepting inv = stops-Inv p₀ s inv
Step-Inv p₀ s t (requests_stop h) inv = requests_stop-Inv p₀ s inv
Step-Inv p₀ s t (takes_workers h) inv = takes_workers-Inv p₀ s inv

-- So it holds in every state that a pool reaches from its construction.
pub Reach-Inv : (p₀ : Pool) {s : System} → IsFresh p₀ → Reach p₀ s → Inv p₀ s
Reach-Inv p₀ f here = start-Inv p₀ f
Reach-Inv p₀ f (next {s = s} {t = t} r st) = Step-Inv p₀ s t st (Reach-Inv p₀ f r)
