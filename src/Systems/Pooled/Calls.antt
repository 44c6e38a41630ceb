-- ===== src/Systems/Pooled/Calls.antt =====
-- The synchronous error system of include/vosp/error.hpp, called by one thread.
use micro_error_framework.Prelude.{
  ℕ, ◌≡◌, refl, sym, ap, ◌∙◌, inl, inr, true, false, Option, none, some, List, [], ◌∷◌, ◌++◌, arith,
  Option-cases, length,
}
use mathlib.Core.Option.{some-injective}
use micro_error_framework.Error.{Error, OperationResult}
use micro_error_framework.Handler.{RegisterMethods, Operation, adds, removes}
use micro_error_framework.Handler.Routing.{IsBound}
use micro_error_framework.Systems.{Job, sync_add, sync_remove, run_job}
use micro_error_framework.Systems.Schedules.{run_job-IsBound}

-- The job that stands for a call.
abbrev pub job_of : Error × Operation → Job
job_of (error, operation) = record {
  error = error;
  remove_error = elim operation [ adds ↦ false | removes ↦ true ];
}

module _ {R : Type 0} (methods : RegisterMethods R) (references : List ℕ) where
  abbrev pub sync_call : List R → Error × Operation → Option (List R × OperationResult)
  sync_call store (error, adds) = sync_add methods store references error
  sync_call store (error, removes) = sync_remove methods store references error

  -- The calls in turn, with their answers in the same order.
  abbrev pub sync_calls : List R → List (Error × Operation) → Option (List R × List OperationResult)
  sync_calls store [] = some (store, [])
  sync_calls store (call ∷ calls) = elim (sync_call store call) [
    | none ↦ none
    | some (store', result) ↦ elim (sync_calls store' calls) [
      | none ↦ none
      | some (store'', results) ↦ some (store'', result ∷ results)
    ]
  ]

  pub sync_call-run_job :
      (store : List R) (call : Error × Operation)
      → sync_call store call ≡ run_job methods store references (job_of call)
  unfolding sync_add sync_remove run_job
  sync_call-run_job store (error, adds) = refl
  sync_call-run_job store (error, removes) = refl

  pub sync_calls-cons :
      (store store' store'' : List R) (call : Error × Operation) (calls : List (Error × Operation))
      (result : OperationResult) (results : List OperationResult)
      → sync_call store call ≡ some (store', result)
      → sync_calls store' calls ≡ some (store'', results)
      → sync_calls store (call ∷ calls) ≡ some (store'', result ∷ results)
  sync_calls-cons store store' store'' call calls result results h k = rw (sync_calls, h, k) refl

  -- The first call of some that were answered.
  sync_calls-uncons :
      (store store'' : List R) (call : Error × Operation) (calls : List (Error × Operation))
      (answers : List OperationResult)
      → sync_calls store (call ∷ calls) ≡ some (store'', answers)
      → (store' : List R) × (result : OperationResult) × (results : List OperationResult)
        × (sync_call store call ≡ some (store', result))
        × (sync_calls store' calls ≡ some (store'', results))
        × (answers ≡ result ∷ results)
  sync_calls-uncons store store'' call calls answers h =
      elim (Option-cases (sync_call store call)) [
        | inl e ↦
            (let none_here : sync_calls store (call ∷ calls) ≡ none = rw (sync_calls, e) refl in cc)
        | inr ((store', result), e) ↦ elim (Option-cases (sync_calls store' calls)) [
          | inl k ↦
              (let none_here : sync_calls store (call ∷ calls) ≡ none =
                  rw (sync_calls, e, k) refl in
                cc)
          | inr ((last, results), k) ↦
              let whole =
                some-injective _ _
                  (sym (sync_calls-cons store store' last call calls result results e k) ∙ h) in
              (
                store',
                result,
                results,
                e,
                k ∙ ap (λ x. some (x, results)) (ap (λ w. w.0) whole),
                sym (ap (λ w. w.1) whole),
              )
        ]
      ]

  -- Calls after calls.
  pub sync_calls-append :
      (store middle last : List R) (calls more : List (Error × Operation))
      (answers later : List OperationResult)
      → sync_calls store calls ≡ some (middle, answers)
      → sync_calls middle more ≡ some (last, later)
      → sync_calls store (calls ++ more) ≡ some (last, answers ++ later)
  sync_calls-append store middle last [] more answers later h k =
      let whole = some-injective _ _ h in
      ap (λ x. sync_calls x more) (ap (λ w. w.0) whole)
      ∙ k
      ∙ ap (λ l. some (last, l ++ later)) (ap (λ w. w.1) whole)
  sync_calls-append store middle last (call ∷ calls) more answers later h k =
      let (store', result, results, e, rest, split) =
        sync_calls-uncons store middle call calls answers h in
      sync_calls-cons store store' last call (calls ++ more) result (results ++ later) e
        (sync_calls-append store' middle last calls more results later rest k)
      ∙ ap (λ l. some (last, l ++ later)) (sym split)

  -- If no reference of the handler dangles, all calls are answered.
  pub sync_calls_total :
      (store : List R) (calls : List (Error × Operation))
      → IsBound methods store references
      → (store' : List R) × (answers : List OperationResult) × (sync_calls store calls
          ≡ some (store', answers))
        × (length answers ≡ length calls)
  sync_calls_total store [] bound = (store, [], refl, refl)
  sync_calls_total store (call ∷ calls) bound =
      let (s, x, e, b) = run_job-IsBound methods store references (job_of call) bound in
      let (t, xs, h, size) = sync_calls_total s calls b in
      (
        t,
        x ∷ xs,
        sync_calls-cons store s t call calls x xs (sync_call-run_job store call ∙ e) h,
        omega (arith, size),
      )
