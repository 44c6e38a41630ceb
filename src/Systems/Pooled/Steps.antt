-- ===== src/Systems/Pooled/Steps.antt =====
-- A run of the asynchronous `ErrorSystem` of include/vosp/error.hpp over a pool with one worker, step by
-- step: which calls have been answered, and with what.
use micro_error_framework.Prelude.{
  ℕ, suc, ◌+◌, ◌<◌, ◌≡◌, refl, sym, ap, ap₂, subst, ◌∙◌, some, List, [], ◌∷◌, ◌++◌, map, append-nil,
  append_assoc, arith, length, get_elem?, length-append, length-map,
}
use mathlib.Core.Option.{some-injective}
use micro_error_framework.Error.{Error, OperationResult, Outcome, returned}
use micro_error_framework.Handler.{RegisterMethods, Operation, adds, removes}
use micro_error_framework.Handler.Routing.{IsBound}
use micro_error_framework.Pool.Task.{TaskItem, value, task, submit_item}
use micro_error_framework.Pool.{Pool, accepted, enqueue}
use micro_error_framework.Threads.{System, Step, running, submits, executes, Reach, here, next}
use micro_error_framework.Threads.Total.{futures_of, futures_of-append}
use micro_error_framework.Threads.Invariant.{IsFresh}
use micro_error_framework.Threads.Steps.{Reach-Inv}
use micro_error_framework.Threads.Order.{
  accepted_by, executed_by, accepted_of, executed_of, IsKeeping, IsKept,
}
use micro_error_framework.Threads.Order.Fifo.{one_worker_order}
use micro_error_framework.Systems.{Job, run_job, async_submit, async_add, async_remove}
use micro_error_framework.Systems.Schedules.{run_job-IsBound}
use micro_error_framework.Systems.Pooled.{
  promises, IsOther, Service, Serves, begins, calls_add, calls_remove, runs, others,
}
use micro_error_framework.Systems.Pooled.Calls.{
  job_of, sync_calls, sync_call-run_job, sync_calls-cons, sync_calls-append,
}
use micro_error_framework.Systems.Pooled.Runs.{
  from, from-append, from-next, settle, settle-append, get_elem?-middle, execute-told,
  enqueue-untold, Step-IsOther,
}

submitted_add :
    (jobs : List Job) (error : Error)
    → async_add promises jobs error ≡ (jobs ++ (job_of (error, adds) ∷ []), length jobs)
unfolding async_add async_submit
submitted_add jobs error = refl

submitted_remove :
    (jobs : List Job) (error : Error)
    → async_remove promises jobs error ≡ (jobs ++ (job_of (error, removes) ∷ []), length jobs)
unfolding async_remove async_submit
submitted_remove jobs error = refl

future-submit_item :
    (outcome : Outcome OperationResult) (future : ℕ)
    → futures_of (submit_item outcome future ∷ []) ≡ future ∷ []
unfolding submit_item
future-submit_item outcome future = refl

map-snoc :
    (asked : List (Error × Operation)) (call : Error × Operation)
    → map job_of (asked ++ (call ∷ [])) ≡ map job_of asked ++ (job_of call ∷ [])
map-snoc [] call = refl
map-snoc (c ∷ asked) call = ap (λ l. job_of c ∷ l) (map-snoc asked call)

map_split :
    (xs ys : List (Error × Operation)) → map job_of (xs ++ ys) ≡ map job_of xs ++ map job_of ys
map_split [] ys = refl
map_split (c ∷ xs) ys = ap (λ l. job_of c ∷ l) (map_split xs ys)

module _ {R : Type 0} (methods : RegisterMethods R) (references : List ℕ) (store₀ : List R)
    (p : Pool) (bound₀ : IsBound methods store₀ references) (fresh : IsFresh p)
    (one : p.worker_count ≡ 1) where
  -- The calls up to now are those whose jobs were run and those that wait; the futures go out and are
  -- settled in the order of the calls, with the answers of the synchronous system.
  pub record Answered (t : System) (r : Reach p t) (s : Service R) : Type 0 where
    pub ran : List (Error × Operation)
    pub waiting : List (Error × Operation)
    pub answers : List OperationResult
    pub split : s.asked ≡ ran ++ waiting
    pub jobs_asked : s.jobs ≡ map job_of s.asked
    pub handed_out : futures_of (accepted_of r) ≡ from 0 (length s.asked)
    pub ran_out : futures_of (executed_of r) ≡ from 0 (length ran)
    pub synced : sync_calls methods references store₀ ran ≡ some (s.store, answers)
    pub told : t.pool.futures ≡ settle 0 answers
    pub counted : length answers ≡ length ran
    pub bound : IsBound methods s.store references

  begins-Answered : Answered _ here (record { store = store₀; jobs = []; asked = [] })
  begins-Answered = record {
    ran = [];
    waiting = [];
    answers = [];
    split = refl;
    jobs_asked = refl;
    handed_out = refl;
    ran_out = refl;
    synced = refl;
    told = fresh.untold;
    counted = refl;
    bound = bound₀;
  }

  call-Answered :
      (t : System) (r : Reach p t) (s : Service R) (call : Error × Operation) (jobs : List Job)
      (future : ℕ) (outcome : Outcome OperationResult) (q : Pool)
      → (e : enqueue t.pool (submit_item outcome future) ≡ accepted q)
      → jobs ≡ s.jobs ++ (job_of call ∷ [])
      → future ≡ length s.jobs
      → Answered t r s
      → Answered _
          (next r (submits (submit_item outcome future) q e))
          (record s { jobs = jobs; asked = s.asked ++ (call ∷ []) })
  call-Answered t r s call jobs future outcome q e packed counted a =
      let item = submit_item outcome future in
      let longer : suc (length s.asked) ≡ length (s.asked ++ (call ∷ [])) =
        omega (arith, length-append s.asked (call ∷ [])) in
      let numbered : future ≡ 0 + length s.asked =
        omega (arith, counted, ap length a.jobs_asked, length-map job_of s.asked) in
      record {
        ran = a.ran;
        waiting = a.waiting ++ (call ∷ []);
        answers = a.answers;
        split = ap (λ l. l ++ (call ∷ [])) a.split ∙ append_assoc a.ran a.waiting (call ∷ []);
        jobs_asked =
            packed ∙ ap (λ l. l ++ (job_of call ∷ [])) a.jobs_asked ∙ sym (map-snoc s.asked call);
        handed_out =
            futures_of-append (accepted_of r) (item ∷ [])
            ∙ ap₂ (λ x y. x ++ y) a.handed_out
                (future-submit_item outcome future ∙ ap (λ k. k ∷ []) numbered)
            ∙ from-append 0 (length s.asked)
            ∙ ap (from 0) longer;
        ran_out = ap futures_of (append-nil (executed_of r)) ∙ a.ran_out;
        synced = a.synced;
        told = enqueue-untold p t item q e (Reach-Inv p fresh r) ∙ a.told;
        counted = a.counted;
        bound = a.bound;
      }

  other-Answered :
      (t u : System) (r : Reach p t) (s : Service R) (st : Step t u)
      → IsOther st
      → IsKeeping st
      → Answered t r s
      → Answered u (next r st) s
  other-Answered t u r s st other keeps a =
      let (told, none_in, none_out) = Step-IsOther p t u st (Reach-Inv p fresh r) other keeps in
      record {
        ran = a.ran;
        waiting = a.waiting;
        answers = a.answers;
        split = a.split;
        jobs_asked = a.jobs_asked;
        handed_out =
            futures_of-append (accepted_of r) (accepted_by st)
            ∙ ap (λ l. futures_of (accepted_of r) ++ l) none_in
            ∙ append-nil _
            ∙ a.handed_out;
        ran_out =
            futures_of-append (executed_of r) (executed_by st)
            ∙ ap (λ l. futures_of (executed_of r) ++ l) none_out
            ∙ append-nil _
            ∙ a.ran_out;
        synced = a.synced;
        told = told ∙ a.told;
        counted = a.counted;
        bound = a.bound;
      }

  futures_of-one :
      (item : TaskItem) (future : ℕ)
      → item.completion ≡ some future
      → futures_of (item ∷ []) ≡ future ∷ []
  futures_of-one item future e = ground (arith, e)

  -- A task with a future that is run has the oldest future that waits.
  next_future :
      (t : System) (r : Reach p t) (s : Service R) (i : ℕ) (item : TaskItem) (items : List TaskItem)
      (n : ℕ) (at : get_elem? t.workers i ≡ some (running (item ∷ items) n)) (future : ℕ)
      → item.completion ≡ some future
      → IsKept r
      → (a : Answered t r s) → (future ≡ length a.ran) × (length a.ran < length s.asked)
  next_future t r s i item items n at future e kept a =
      let (rest, order, all_run) =
        one_worker_order p _ (next r (executes i item items n at)) fresh one (kept, tt) in
      let whole : from 0 (length s.asked) ≡ from 0 (length a.ran) ++ (future ∷ futures_of rest) =
        sym a.handed_out
        ∙ ap futures_of (sym (append-nil (accepted_of r)) ∙ order)
        ∙ futures_of-append (executed_of r ++ (item ∷ [])) rest
        ∙ ap (λ l. l ++ futures_of rest)
            (futures_of-append (executed_of r) (item ∷ [])
              ∙ ap₂ (λ x y. x ++ y) a.ran_out (futures_of-one item future e))
        ∙ append_assoc (from 0 (length a.ran)) (future ∷ []) (futures_of rest) in
      let (numbered, less) = from-next 0 (length s.asked) (length a.ran) future _ whole in
      (omega arith, less)

  run_next :
      (t : System) (r : Reach p t) (s : Service R) (i : ℕ) (item : TaskItem) (items : List TaskItem)
      (n : ℕ) (at : get_elem? t.workers i ≡ some (running (item ∷ items) n)) (future : ℕ)
      (job : Job) (store' : List R) (result : OperationResult)
      → item.completion ≡ some future
      → get_elem? s.jobs future ≡ some job
      → run_job methods s.store references job ≡ some (store', result)
      → item.callback ≡ task (returned result)
      → (a : Answered t r s) → future ≡ length a.ran
      → (call : Error × Operation) (later : List (Error × Operation))
      → s.asked ≡ a.ran ++ (call ∷ later)
      → Answered _ (next r (executes i item items n at)) (record s { store = store' })
  run_next t r s i item items n at future job store' result e found done callback a numbered call
        later split =
      let longer : suc (length a.ran) ≡ length (a.ran ++ (call ∷ [])) =
        omega (arith, length-append a.ran (call ∷ [])) in
      let before = map job_of a.ran in
      let behind = map job_of later in
      let listed : s.jobs ≡ before ++ (job_of call ∷ behind) =
        a.jobs_asked ∙ ap (map job_of) split ∙ map_split a.ran (call ∷ later) in
      let place : length before ≡ future = omega (arith, length-map job_of a.ran, numbered) in
      let same : job_of call ≡ job = some-injective _ _ (
        sym (get_elem?-middle before (job_of call) behind)
        ∙ ap (get_elem? (before ++ (job_of call ∷ behind))) place
        ∙ ap (λ l. get_elem? l future) (sym listed)
        ∙ found) in
      let answered =
        sync_call-run_job methods references s.store call
        ∙ ap (run_job methods s.store references) same
        ∙ done in
      let (store'', x, e', b) = run_job-IsBound methods s.store references job a.bound in
      let kept_bound =
        subst (λ st. IsBound methods st references)
          (ap (λ w. w.0) (some-injective _ _ (sym e' ∙ done))) b in
      record {
        ran = a.ran ++ (call ∷ []);
        waiting = later;
        answers = a.answers ++ (result ∷ []);
        split = split ∙ sym (append_assoc a.ran (call ∷ []) later);
        jobs_asked = a.jobs_asked;
        handed_out = ap futures_of (append-nil (accepted_of r)) ∙ a.handed_out;
        ran_out =
            futures_of-append (executed_of r) (item ∷ [])
            ∙ ap₂ (λ y z. y ++ z) a.ran_out
                (futures_of-one item future e ∙ ap (λ k. k ∷ []) (omega (arith, numbered)))
            ∙ from-append 0 (length a.ran)
            ∙ ap (from 0) longer;
        synced =
            sync_calls-append methods references store₀ s.store store' a.ran (call ∷ []) a.answers
              (result ∷ []) a.synced
              (sync_calls-cons methods references s.store store' store' call [] result [] answered
                refl);
        told =
            execute-told t.pool item future result e callback
            ∙ ap₂ (λ l k. l ++ (record { future = k; delivery = value result } ∷ [])) a.told
                (omega (arith, numbered, a.counted))
            ∙ sym (settle-append 0 a.answers result);
        counted = omega (
          arith,
          a.counted,
          length-append a.answers (result ∷ []),
          length-append a.ran (call ∷ []),
        );
        bound = kept_bound;
      }

  waiting_one :
      (ran waiting asked : List (Error × Operation))
      → asked ≡ ran ++ waiting
      → length ran < length asked
      → (call : Error × Operation) × (later : List (Error × Operation)) × (asked
          ≡ ran ++ (call ∷ later))
  waiting_one ran [] asked e h = absurd (omega (arith, ap length e, length-append ran []))
  waiting_one ran (call ∷ later) asked e h = (call, later, e)

  run-Answered :
      (t : System) (r : Reach p t) (s : Service R) (i : ℕ) (item : TaskItem) (items : List TaskItem)
      (n : ℕ) (at : get_elem? t.workers i ≡ some (running (item ∷ items) n)) (future : ℕ)
      (job : Job) (store' : List R) (result : OperationResult)
      → item.completion ≡ some future
      → get_elem? s.jobs future ≡ some job
      → run_job methods s.store references job ≡ some (store', result)
      → item.callback ≡ task (returned result)
      → IsKept r
      → Answered t r s
      → Answered _ (next r (executes i item items n at)) (record s { store = store' })
  run-Answered t r s i item items n at future job store' result e found done callback kept a =
      let (numbered, less) = next_future t r s i item items n at future e kept a in
      let (call, later, split) = waiting_one a.ran a.waiting s.asked a.split less in
      run_next t r s i item items n at future job store' result e found done callback a numbered
        call later split

  pub Serves-Answered :
      (t : System) (r : Reach p t) (s : Service R)
      → Serves methods references store₀ p t r s
      → IsKept r
      → Answered t r s
  Serves-Answered t r s begins kept = begins-Answered
  Serves-Answered _ _ _ (calls_add {t = t} {r = r} {s = s} v error outcome q e) kept =
      let packed = submitted_add s.jobs error in
      call-Answered t r s (error, adds) _ _ outcome q e (ap (λ x. x.0) packed)
        (ap (λ x. x.1) packed) (Serves-Answered t r s v kept.0)
  Serves-Answered _ _ _ (calls_remove {t = t} {r = r} {s = s} v error outcome q e) kept =
      let packed = submitted_remove s.jobs error in
      call-Answered t r s (error, removes) _ _ outcome q e (ap (λ x. x.0) packed)
        (ap (λ x. x.1) packed) (Serves-Answered t r s v kept.0)
  Serves-Answered _ _ _
        (runs {t = t} {r = r} {s = s} v i item items n at future job store' result e found done
          callback)
        kept =
      run-Answered t r s i item items n at future job store' result e found done callback kept.0
        (Serves-Answered t r s v kept.0)
  Serves-Answered _ _ _ (others {t = t} {u = u} {r = r} {s = s} v st other) kept =
      other-Answered t u r s st other kept.1 (Serves-Answered t r s v kept.0)
