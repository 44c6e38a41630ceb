-- ===== src/Systems/Schedules.antt =====
-- Jobs of the asynchronous error system in different orders (include/vosp/error.hpp, `ErrorSystem`).
use micro_error_framework.Prelude.{
  ℕ, ◌≡◌, refl, sym, ap, ◌∙◌, ◌≢◌, inl, inr, some, List, [], ◌∷◌, arith, ◌==◌, if◌then◌else◌,
  ==_iff, Bool-cases, set, length-set,
}
use micro_error_framework.Error.{OperationResult}
use micro_error_framework.Handler
use micro_error_framework.Handler.{RegisterMethods, Operation, adds, removes, invoke, dispatch}
use micro_error_framework.Handler.Routing.{IsBound, dispatch-first, dispatch-missing, route-cases}
use micro_error_framework.Systems.{Job, run_job, run_jobs}
use micro_error_framework.Handler.Commute.{dispatch_two-eq, crossed, dispatch_comm}
use mathlib.Core.Option.{some-injective}

-- The results that a future is given.
abbrev pub results_of : ℕ → List (ℕ × OperationResult) → List OperationResult
results_of k [] = []
results_of k ((future, result) ∷ rest) =
    if future == k then result ∷ results_of k rest else results_of k rest

-- Jobs with different futures, on errors of different categories, in another order.
pub data Reorders : List (ℕ × Job) → List (ℕ × Job) → Type 0 where
  same_order : {js : List (ℕ × Job)} → Reorders js js
  exchange :
      {a b : ℕ × Job} {js : List (ℕ × Job)}
      → a.0 ≢ b.0
      → a.1.error.category ≢ b.1.error.category
      → Reorders (a ∷ b ∷ js) (b ∷ a ∷ js)
  after_first : {a : ℕ × Job} {js ks : List (ℕ × Job)} → Reorders js ks → Reorders (a ∷ js) (a ∷ ks)
  then_on : {js ks ls : List (ℕ × Job)} → Reorders js ks → Reorders ks ls → Reorders js ls

abbrev operation_of : Job → Operation
operation_of job = if job.remove_error then removes else adds

module _ {R : Type 0} (methods : RegisterMethods R) where
  run_job-dispatch :
      (store : List R) (references : List ℕ) (job : Job)
      → run_job methods store references job
        ≡ dispatch methods store references job.error (operation_of job)
  unfolding run_job Handler.add Handler.remove
  run_job-dispatch store references job = elim (Bool-cases job.remove_error) [
    | inl y ↦ rw (y) refl
    | inr n ↦ rw (n) refl
  ]

  IsBound-set :
      (store : List R) (i : ℕ) (r : R) (references : List ℕ)
      → IsBound methods store references
      → IsBound methods (set store i r) references
  IsBound-set store i r [] h = tt
  IsBound-set store i r (j ∷ references) h =
      (omega (arith, length-set store i r, h.0), IsBound-set store i r references h.1)

  pub run_job-IsBound :
      (store : List R) (references : List ℕ) (job : Job)
      → IsBound methods store references
      → (store' : List R) × (result : OperationResult) × (run_job methods store references job
          ≡ some (store', result))
        × IsBound methods store' references
  run_job-IsBound store references job bound =
      let d = run_job-dispatch store references job in
      elim (route-cases methods store job.error.category references bound) [
        | inl misses ↦ (
          store,
          _,
          d ∙ dispatch-missing methods store references job.error (operation_of job) misses,
          bound,
        )
        | inr hit ↦ (
          _,
          _,
          d ∙ dispatch-first methods store references job.error (operation_of job) hit,
          IsBound-set store hit.place _ references bound,
        )
      ]

  pub run_jobs-cons :
      (store store' store'' : List R) (references : List ℕ) (a : ℕ × Job) (js : List (ℕ × Job))
      (x : OperationResult) (rs : List (ℕ × OperationResult))
      → run_job methods store references a.1 ≡ some (store', x)
      → run_jobs methods store' references js ≡ some (store'', rs)
      → run_jobs methods store references (a ∷ js) ≡ some (store'', (a.0, x) ∷ rs)
  unfolding run_jobs
  run_jobs-cons store store' store'' references a js x rs h k = ground (arith, h, k)

  pub run_jobs_total :
      (store : List R) (references : List ℕ) (js : List (ℕ × Job))
      → IsBound methods store references
      → (store' : List R) × (rs : List (ℕ × OperationResult)) × (run_jobs methods store references
            js
          ≡ some (store', rs))
  unfolding run_jobs
  run_jobs_total store references [] bound = (store, [], refl)
  run_jobs_total store references (a ∷ js) bound =
      let (s, x, e, b) = run_job-IsBound store references a.1 bound in
      let (t, rs, h) = run_jobs_total s references js b in
      (t, (a.0, x) ∷ rs, run_jobs-cons store s t references a js x rs e h)

  -- Both orders run, to the same registers, and give each future the same results.
  pub record Agrees (store : List R) (references : List ℕ) (js ks : List (ℕ × Job)) : Type 0 where
    pub store' : List R
    pub results : List (ℕ × OperationResult)
    pub results' : List (ℕ × OperationResult)
    pub runs : run_jobs methods store references js ≡ some (store', results)
    pub runs' : run_jobs methods store references ks ≡ some (store', results')
    pub same : (k : ℕ) → results_of k results ≡ results_of k results'

  -- Two jobs on different categories, in both orders.
  run_two :
      (store : List R) (references : List ℕ) (a b : Job)
      → IsBound methods store references
      → a.error.category ≢ b.error.category
      → (s1 s2 t1 : List R) × (x y : OperationResult) × (run_job methods store references a
          ≡ some (s1, x))
        × (run_job methods s1 references b ≡ some (s2, y))
        × (run_job methods store references b ≡ some (t1, y))
        × (run_job methods t1 references a ≡ some (s2, x))
        × IsBound methods s2 references
  run_two store references a b bound ne =
      let (s1, x, ea, b1) = run_job-IsBound store references a bound in
      let (s2, y, eb, b2) = run_job-IsBound s1 references b b1 in
      let (t1, y', fb, c1) = run_job-IsBound store references b bound in
      let (t2, x', fa, c2) = run_job-IsBound t1 references a c1 in
      let p = operation_of a in
      let q = operation_of b in
      let one =
        dispatch_two-eq methods store s1 s2 references a.error p b.error q x y
          (sym (run_job-dispatch store references a) ∙ ea)
          (sym (run_job-dispatch s1 references b) ∙ eb) in
      let two =
        dispatch_two-eq methods store t1 t2 references b.error q a.error p y' x'
          (sym (run_job-dispatch store references b) ∙ fb)
          (sym (run_job-dispatch t1 references a) ∙ fa) in
      let comm = dispatch_comm methods store references a.error b.error p q bound ne in
      let equal = some-injective _ _ (sym one ∙ comm ∙ ap (crossed methods) two) in
      (
        s1,
        s2,
        t1,
        x,
        y,
        ea,
        eb,
        fb ∙ ap (λ r. some (t1, r.2)) (sym equal),
        fa ∙ ap (λ r. some (r.0, r.1)) (sym equal),
        b2,
      )

  exchange-Agrees :
      (store : List R) (references : List ℕ) (a b : ℕ × Job) (js : List (ℕ × Job))
      → IsBound methods store references
      → a.0 ≢ b.0
      → a.1.error.category ≢ b.1.error.category
      → Agrees store references (a ∷ b ∷ js) (b ∷ a ∷ js)
  exchange-Agrees store references a b js bound apart ne =
      let (s1, s2, t1, x, y, ea, eb, fb, fa, b2) = run_two store references a.1 b.1 bound ne in
      let (t, rs, e) = run_jobs_total s2 references js b2 in
      record {
        store' = t;
        results = (a.0, x) ∷ (b.0, y) ∷ rs;
        results' = (b.0, y) ∷ (a.0, x) ∷ rs;
        runs =
            run_jobs-cons store s1 t references a (b ∷ js) x ((b.0, y) ∷ rs) ea
              (run_jobs-cons s1 s2 t references b js y rs eb e);
        runs' =
            run_jobs-cons store t1 t references b (a ∷ js) y ((a.0, x) ∷ rs) fb
              (run_jobs-cons t1 s2 t references a js x rs fa e);
        same = λ k. ground (arith, (==_iff a.0 k).0, (==_iff b.0 k).0, apart);
      }

  -- Two orders of jobs in which jobs on errors of the same category keep their order leave the same
  -- registers and give each future the same results, if no reference of the handler dangles and the
  -- jobs that change places have different futures.
  pub Reorders-agree :
      (store : List R) (references : List ℕ) {js ks : List (ℕ × Job)}
      → IsBound methods store references
      → Reorders js ks
      → Agrees store references js ks
  Reorders-agree store references {js = js} bound same_order =
      let (t, rs, e) = run_jobs_total store references js bound in
      record { store' = t; results = rs; results' = rs; runs = e; runs' = e; same = λ k. refl }
  Reorders-agree store references bound (exchange {a = a} {b = b} {js = js} apart ne) =
      exchange-Agrees store references a b js bound apart ne
  Reorders-agree store references bound (after_first {a = a} {js = js} {ks = ks} r) =
      let (s, x, e, b) = run_job-IsBound store references a.1 bound in
      let tail = Reorders-agree s references b r in
      record {
        store' = tail.store';
        results = (a.0, x) ∷ tail.results;
        results' = (a.0, x) ∷ tail.results';
        runs = run_jobs-cons store s tail.store' references a js x tail.results e tail.runs;
        runs' = run_jobs-cons store s tail.store' references a ks x tail.results' e tail.runs';
        same = λ k. ground (arith, tail.same k);
      }
  Reorders-agree store references bound (then_on r q) =
      let one = Reorders-agree store references bound r in
      let two = Reorders-agree store references bound q in
      let meet = some-injective _ _ (sym two.runs ∙ one.runs') in
      record {
        store' = one.store';
        results = one.results;
        results' = two.results';
        runs = one.runs;
        runs' = two.runs' ∙ ap (λ p. some (p.0, two.results')) meet;
        same = λ k. one.same k ∙ ap (λ p. results_of k p.1) (sym meet) ∙ two.same k;
      }
