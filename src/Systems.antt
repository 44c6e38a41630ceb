-- ===== src/Systems.antt =====
-- include/vosp/error.hpp: the error systems, which put a handler behind one interface: at once, or as
-- jobs of an executor.
pub mod Schedules
pub mod Pooled
mod Tests
use micro_error_framework.Prelude.{
  ℕ, zero, suc, ◌+◌, ◌-◌, ◌*◌, ◌/◌, ◌%◌, ◌^◌, ◌≤◌, ◌<◌, min, compare, Ordering, bit_xor, String,
  ◌≡◌, refl, sym, ap, ap₂, subst, fun_ext, ◌∙◌, ◌≡⟨◌⟩◌, ◌∎, ◌≢◌, ◌↔◌, ◌⊎◌, inl, inr, Bool, true,
  false, not, ◌&&◌, ◌||◌, Option, none, some, List, [], ◌∷◌, ◌++◌, map, append-nil, append_assoc,
  arith, dec_lt, ℕ_discrete, ltb, leb, ◌==◌, if◌then◌else◌, ltb→lt, lt→ltb, leb→le, ==_iff, ==_refl,
  Bool-cases, Option-cases, is_some, Text, codes, text_eq, text_eq_refl, text_eq_iff, length,
  get_elem?, set, take, drop, length-append, length-set, get_elem?-set_self, get_elem?-set_ne,
  length-take, length-drop, take-append-drop, length-map, All,
}
use micro_error_framework.Error.{Error, OperationResult}
use micro_error_framework.Handler
use micro_error_framework.Handler.{RegisterMethods}

-- `AsyncExecutor`: `submit` takes a job and gives a future. When it runs the job is its own matter.
pub record ExecutorMethods (Job Executor Future : Type 0) : Type 0 where
  pub submit : Executor → Job → Executor × Future

-- What the lambda of `submit` captures, besides the handler.
pub record Job : Type 0 where
  pub error : Error
  pub remove_error : Bool

module _ {R : Type 0} (methods : RegisterMethods R) where
  -- `detail::SynchronousErrorSystem`: the registers live in a store, and the handler refers to them.
  unfoldable pub sync_add : List R → List ℕ → Error → Option (List R × OperationResult)
  unfolding Handler.add
  sync_add store references error = Handler.add methods store references error

  unfoldable pub sync_remove : List R → List ℕ → Error → Option (List R × OperationResult)
  unfolding Handler.remove
  sync_remove store references error = Handler.remove methods store references error

  -- The body of the lambda.
  unfoldable pub run_job : List R → List ℕ → Job → Option (List R × OperationResult)
  unfolding Handler.add Handler.remove
  run_job store references job =
      if job.remove_error
      then Handler.remove methods store references job.error
      else Handler.add methods store references job.error

  -- Jobs in the order in which an executor runs them, each with its future; the results come in the
  -- same order. Each register has a lock, so that a job is one step.
  unfoldable pub run_jobs :
      List R → List ℕ → List (ℕ × Job) → Option (List R × List (ℕ × OperationResult))
  unfolding run_job
  run_jobs store references [] = some (store, [])
  run_jobs store references ((future, job) ∷ jobs) = elim (run_job store references job) [
    | none ↦ none
    | some (store', result) ↦ elim (run_jobs store' references jobs) [
      | none ↦ none
      | some (store'', results) ↦ some (store'', (future, result) ∷ results)
    ]
  ]

module _ {Executor Future : Type 0} (executor : ExecutorMethods Job Executor Future) where
  -- The asynchronous `submit`, `add` and `remove`.
  unfoldable pub async_submit : Executor → Error → Bool → Executor × Future
  async_submit ex error remove_error =
      executor.submit ex (record { error = error; remove_error = remove_error })

  unfoldable pub async_add : Executor → Error → Executor × Future
  unfolding async_submit
  async_add ex error = async_submit ex error false

  unfoldable pub async_remove : Executor → Error → Executor × Future
  unfolding async_submit
  async_remove ex error = async_submit ex error true
