-- ===== src/Threads/Order.antt =====
-- The order in which the pool of include/vosp/worker_pool.hpp takes, queues and runs its tasks.
pub mod Steps
pub mod Fifo
pub mod Tests
use micro_error_framework.Prelude.{
  ℕ, zero, suc, ◌+◌, ◌-◌, ◌*◌, ◌/◌, ◌%◌, ◌^◌, ◌≤◌, ◌<◌, min, compare, Ordering, bit_xor, String,
  ◌≡◌, refl, sym, ap, ap₂, subst, fun_ext, ◌∙◌, ◌≡⟨◌⟩◌, ◌∎, ◌≢◌, ◌↔◌, ◌⊎◌, inl, inr, Bool, true,
  false, not, ◌&&◌, ◌||◌, Option, none, some, List, [], ◌∷◌, ◌++◌, map, append-nil, append_assoc,
  arith, dec_lt, ℕ_discrete, ltb, leb, ◌==◌, if◌then◌else◌, ltb→lt, lt→ltb, leb→le, ==_iff, ==_refl,
  Bool-cases, Option-cases, is_some, Text, codes, text_eq, text_eq_refl, text_eq_iff, length,
  get_elem?, set, take, drop, length-append, length-set, get_elem?-set_self, get_elem?-set_ne,
  length-take, length-drop, take-append-drop, length-map, All, All-map, All-implies,
  get_elem?-bound, get_elem?-map, All-set, All-get,
}
use micro_error_framework.Pool.Task.{TaskItem, bulk_item}
use micro_error_framework.Pool.{Pool}
use micro_error_framework.Threads.{
  Worker, idle, running, exited, System, Step, submits, refills, claims, executes, finishes, exits,
  clears, stops_accepting, requests_stop, takes_workers, Reach, here, next,
}

-- The tasks that a step accepts, in their order.
abbrev pub accepted_by : {s t : System} → Step s t → List TaskItem
accepted_by (submits item p e) = item ∷ []
accepted_by (refills callbacks p n e) = map bulk_item (take n callbacks)
accepted_by (claims i seen p items at few_seen e ne) = []
accepted_by (executes i item items n at) = []
accepted_by (finishes i n at) = []
accepted_by (exits i at e stops) = []
accepted_by (clears p n e) = []
accepted_by stops_accepting = []
accepted_by (requests_stop h) = []
accepted_by (takes_workers h) = []

-- The tasks that a worker takes from the queue in a step.
abbrev pub taken_by : {s t : System} → Step s t → List TaskItem
taken_by (submits item p e) = []
taken_by (refills callbacks p n e) = []
taken_by (claims i seen p items at few_seen e ne) = items
taken_by (executes i item items n at) = []
taken_by (finishes i n at) = []
taken_by (exits i at e stops) = []
taken_by (clears p n e) = []
taken_by stops_accepting = []
taken_by (requests_stop h) = []
taken_by (takes_workers h) = []

-- The task that a step runs.
abbrev pub executed_by : {s t : System} → Step s t → List TaskItem
executed_by (submits item p e) = []
executed_by (refills callbacks p n e) = []
executed_by (claims i seen p items at few_seen e ne) = []
executed_by (executes i item items n at) = item ∷ []
executed_by (finishes i n at) = []
executed_by (exits i at e stops) = []
executed_by (clears p n e) = []
executed_by stops_accepting = []
executed_by (requests_stop h) = []
executed_by (takes_workers h) = []

-- The step does not cancel the queue.
abbrev pub IsKeeping : {s t : System} → Step s t → Type 0
IsKeeping (submits item p e) = Unit {0}
IsKeeping (refills callbacks p n e) = Unit {0}
IsKeeping (claims i seen p items at few_seen e ne) = Unit {0}
IsKeeping (executes i item items n at) = Unit {0}
IsKeeping (finishes i n at) = Unit {0}
IsKeeping (exits i at e stops) = Unit {0}
IsKeeping (clears p n e) = ⊥
IsKeeping stops_accepting = Unit {0}
IsKeeping (requests_stop h) = Unit {0}
IsKeeping (takes_workers h) = Unit {0}

-- The same of all steps of a run, oldest first.
abbrev pub accepted_of : {p : Pool} {s : System} → Reach p s → List TaskItem
accepted_of here = []
accepted_of (next r st) = accepted_of r ++ accepted_by st

abbrev pub taken_of : {p : Pool} {s : System} → Reach p s → List TaskItem
taken_of here = []
taken_of (next r st) = taken_of r ++ taken_by st

abbrev pub executed_of : {p : Pool} {s : System} → Reach p s → List TaskItem
executed_of here = []
executed_of (next r st) = executed_of r ++ executed_by st

abbrev pub IsKept : {p : Pool} {s : System} → Reach p s → Type 0
IsKept here = Unit {0}
IsKept (next r st) = IsKept r × IsKeeping st

-- The tasks that the workers have claimed and not yet run.
abbrev pub left_by : Worker → List TaskItem
left_by idle = []
left_by (running items n) = items
left_by exited = []

abbrev pub left_of : List Worker → List TaskItem
left_of [] = []
left_of (w ∷ ws) = left_by w ++ left_of ws
