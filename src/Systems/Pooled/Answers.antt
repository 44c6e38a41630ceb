-- ===== src/Systems/Pooled/Answers.antt =====
-- What the asynchronous `ErrorSystem` of include/vosp/error.hpp answers over a pool with one worker,
-- against the synchronous one.
use micro_error_framework.Prelude.{
  ℕ, zero, suc, ◌≡◌, refl, sym, ap, ◌∙◌, ◌⊎◌, inl, inr, false, some, List, [], ◌∷◌, ◌++◌,
  append-nil, arith, length, length-append,
}
use mathlib.Core.Option.{some-injective}
use micro_error_framework.Error.{Error, OperationResult}
use micro_error_framework.Handler.{RegisterMethods, Operation}
use micro_error_framework.Handler.Routing.{IsBound}
use micro_error_framework.Pool.Task.{TaskItem}
use micro_error_framework.Pool.{Pool, is_idle}
use micro_error_framework.Threads.{System, Reach}
use micro_error_framework.Threads.Total.{futures_of}
use micro_error_framework.Threads.Invariant.{IsFresh}
use micro_error_framework.Threads.Order.{accepted_of, executed_of, IsKept}
use micro_error_framework.Threads.Order.Fifo.{one_worker_order}
use micro_error_framework.Systems.Pooled.{Service, Serves}
use micro_error_framework.Systems.Pooled.Calls.{sync_calls, sync_calls-append, sync_calls_total}
use micro_error_framework.Systems.Pooled.Runs.{from, settle}
use micro_error_framework.Systems.Pooled.Steps.{Answered, Serves-Answered}

module _ {R : Type 0} (methods : RegisterMethods R) (references : List ℕ) (store₀ : List R)
    (p : Pool) (bound₀ : IsBound methods store₀ references) (fresh : IsFresh p)
    (one : p.worker_count ≡ 1) where
  -- The futures are settled in the order of the calls, with what the synchronous system answers to the
  -- same calls in that order; and unless the test of `wait` fails, all are, and the registers are the
  -- same.
  pub record IsAsSync (t : System) (s : Service R) : Type 0 where
    pub answers : List OperationResult
    pub later : List OperationResult
    pub registers : List R
    pub sync : sync_calls methods references store₀ s.asked ≡ some (registers, answers ++ later)
    pub told : t.pool.futures ≡ settle 0 answers
    pub all : (is_idle t.pool ≡ false) ⊎ ((s.store ≡ registers) × (later ≡ []))

  nothing_waits :
      (store store' : List R) (calls : List (Error × Operation)) (later : List OperationResult)
      → length calls ≡ 0
      → sync_calls methods references store calls ≡ some (store', later)
      → (store ≡ store') × (later ≡ [])
  nothing_waits store store' [] later h e =
      let whole = some-injective _ _ e in (ap (λ w. w.0) whole, sym (ap (λ w. w.1) whole))
  nothing_waits store store' (call ∷ calls) later h e = absurd (omega arith)

  length-from : (k n : ℕ) → length (from k n) ≡ n
  length-from k zero = refl
  length-from k (suc n) = omega (arith, length-from (suc k) n)

  all_run :
      (t : System) (r : Reach p t) (s : Service R) (rest : List TaskItem)
      → (a : Answered methods references store₀ p bound₀ fresh one t r s)
      → accepted_of r ≡ executed_of r ++ rest
      → rest ≡ []
      → length a.waiting ≡ 0
  all_run t r s rest a order over =
      let whole : from 0 (length s.asked) ≡ from 0 (length a.ran) =
        sym a.handed_out
        ∙ ap futures_of (order ∙ ap (λ l. executed_of r ++ l) over ∙ append-nil (executed_of r))
        ∙ a.ran_out in
      omega (
        arith,
        ap length whole,
        length-from 0 (length s.asked),
        length-from 0 (length a.ran),
        ap length a.split,
        length-append a.ran a.waiting,
      )

  -- Let a fresh pool have one worker, serve `add` and `remove` of an asynchronous system and perhaps
  -- tasks without a future, and never cancel its queue; let the task of a call have as its outcome what
  -- the job of the call returns when it is run; and let no reference of the handler dangle. In any
  -- interleaving, the futures of the calls are settled in the order in which the calls were accepted,
  -- each with what the synchronous system answers to it when it is called in that order; and unless the
  -- test of `wait` fails, all are settled, and the registers are those of the synchronous system.
  pub pooled-IsAsSync :
      (t : System) (r : Reach p t) (s : Service R)
      → Serves methods references store₀ p t r s
      → IsKept r
      → IsAsSync t s
  pooled-IsAsSync t r s v kept =
      let a = Serves-Answered methods references store₀ p bound₀ fresh one t r s v kept in
      let (rest, order, over) = one_worker_order p t r fresh one kept in
      let (store', later, e, size) =
        sync_calls_total methods references s.store a.waiting a.bound in
      record {
        answers = a.answers;
        later = later;
        registers = store';
        sync =
            ap (sync_calls methods references store₀) a.split
            ∙ sync_calls-append methods references store₀ s.store store' a.ran a.waiting a.answers
                later a.synced e;
        told = a.told;
        all = elim over [
          | inl busy ↦ inl busy
          | inr done ↦
              inr (nothing_waits s.store store' a.waiting later (all_run t r s rest a order done) e)
        ];
      }
