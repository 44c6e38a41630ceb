-- ===== src/Systems/Pooled.antt =====
-- The asynchronous `ErrorSystem` of include/vosp/error.hpp with the pool of include/vosp/worker_pool.hpp
-- as its executor: a run of the pool in which tasks are calls of `add` and `remove`.
pub mod Calls
pub mod Runs
pub mod Steps
pub mod Answers
use micro_error_framework.Prelude.{
  ℕ, zero, suc, ◌+◌, ◌-◌, ◌*◌, ◌/◌, ◌%◌, ◌^◌, ◌≤◌, ◌<◌, min, compare, Ordering, bit_xor, String,
  ◌≡◌, refl, sym, ap, ap₂, subst, fun_ext, ◌∙◌, ◌≡⟨◌⟩◌, ◌∎, ◌≢◌, ◌↔◌, ◌⊎◌, inl, inr, Bool, true,
  false, not, ◌&&◌, ◌||◌, Option, none, some, List, [], ◌∷◌, ◌++◌, map, append-nil, append_assoc,
  arith, dec_lt, ℕ_discrete, ltb, leb, ◌==◌, if◌then◌else◌, ltb→lt, lt→ltb, leb→le, ==_iff, ==_refl,
  Bool-cases, Option-cases, is_some, Text, codes, text_eq, text_eq_refl, text_eq_iff, length,
  get_elem?, set, take, drop, length-append, length-set, get_elem?-set_self, get_elem?-set_ne,
  length-take, length-drop, take-append-drop, length-map, All, All-map, All-implies,
  get_elem?-bound, get_elem?-map, All-set, All-get,
}
use micro_error_framework.Error.{Error, OperationResult, Outcome, returned}
use micro_error_framework.Handler.{RegisterMethods, Operation, adds, removes}
use micro_error_framework.Pool.Task.{TaskItem, task, submit_item}
use micro_error_framework.Pool.{Pool, accepted, enqueue}
use micro_error_framework.Threads.{
  System, running, Step, submits, refills, claims, executes, finishes, exits, clears,
  stops_accepting, requests_stop, takes_workers, Reach, here, next, start,
}
use micro_error_framework.Systems.{ExecutorMethods, Job, run_job, async_add, async_remove}

-- `submit` of the pool, up to `enqueue`: it keeps the job, and numbers its future.
abbrev pub promises : ExecutorMethods Job (List Job) ℕ
promises = record { submit = λ jobs job. (jobs ++ (job ∷ []), length jobs) }

-- A step that has no part in the error system: its tasks have no future.
abbrev pub IsOther : {s t : System} → Step s t → Type 0
IsOther (submits item p e) = item.completion ≡ none
IsOther (refills callbacks p n e) = Unit {0}
IsOther (claims i seen p items at few e some_item) = Unit {0}
IsOther (executes i item items n at) = item.completion ≡ none
IsOther (finishes i n at) = Unit {0}
IsOther (exits i at e stops) = Unit {0}
IsOther (clears p n e) = Unit {0}
IsOther stops_accepting = Unit {0}
IsOther (requests_stop h) = Unit {0}
IsOther (takes_workers h) = Unit {0}

-- The registers, the jobs that were submitted, and the calls as they were made.
pub record Service (R : Type 0) : Type 0 where
  pub store : List R
  pub jobs : List Job
  pub asked : List (Error × Operation)

module _ {R : Type 0} (methods : RegisterMethods R) (references : List ℕ) (store₀ : List R)
    (p : Pool) where
  -- The callback of a task is named by its outcome. For a job that is what the job returns when it is
  -- run, on the registers of that moment.
  pub data Serves : (t : System) → Reach p t → Service R → Type 0 where
    begins : Serves (start p) here (record { store = store₀; jobs = []; asked = [] })
    calls_add :
        {t : System} {r : Reach p t} {s : Service R}
        → Serves t r s
        → (error : Error) (outcome : Outcome OperationResult) (q : Pool)
        → (e : enqueue t.pool (submit_item outcome (async_add promises s.jobs error).1)
            ≡ accepted q)
        → Serves _
            (next r (submits (submit_item outcome (async_add promises s.jobs error).1) q e))
            (record s {
              jobs = (async_add promises s.jobs error).0;
              asked = s.asked ++ ((error, adds) ∷ []);
            })
    calls_remove :
        {t : System} {r : Reach p t} {s : Service R}
        → Serves t r s
        → (error : Error) (outcome : Outcome OperationResult) (q : Pool)
        → (e : enqueue t.pool (submit_item outcome (async_remove promises s.jobs error).1)
            ≡ accepted q)
        → Serves _
            (next r (submits (submit_item outcome (async_remove promises s.jobs error).1) q e))
            (record s {
              jobs = (async_remove promises s.jobs error).0;
              asked = s.asked ++ ((error, removes) ∷ []);
            })
    runs :
        {t : System} {r : Reach p t} {s : Service R}
        → Serves t r s
        → (i : ℕ) (item : TaskItem) (items : List TaskItem) (n : ℕ)
        → (at : get_elem? t.workers i ≡ some (running (item ∷ items) n))
        → (future : ℕ) (job : Job) (store' : List R) (result : OperationResult)
        → item.completion ≡ some future
        → get_elem? s.jobs future ≡ some job
        → run_job methods s.store references job ≡ some (store', result)
        → item.callback ≡ task (returned result)
        → Serves _ (next r (executes i item items n at)) (record s { store = store' })
    others :
        {t u : System} {r : Reach p t} {s : Service R}
        → Serves t r s
        → (st : Step t u) → IsOther st
        → Serves _ (next r st) s
