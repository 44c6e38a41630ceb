-- ===== src/Threads/Blocking.antt =====
-- Threads that block on `queue_state_` of include/vosp/worker_pool.hpp, and who wakes them: producers
-- in `wait_for_space`, workers in `run`, and the calls of `notify_one` and `notify_all`.
use micro_error_framework.Prelude.{
  ℕ, ◌≡◌, ◌≢◌, ◌⊎◌, true, false, some, List, [], ◌∷◌, ◌++◌, ◌==◌, if◌then◌else◌, get_elem?, All,
}
use micro_error_framework.Pool.Task.{TaskItem}
use micro_error_framework.Pool.{Pool, pending_tasks, is_stopping}
use micro_error_framework.Threads.{
  idle, System, Step, submits, refills, claims, executes, finishes, exits, clears, stops_accepting,
  requests_stop, takes_workers, start,
}

-- `producers` are the calls of `enqueue` that block, by their tasks, and `sleepers` the workers that
-- block, by their numbers.
pub record Parked : Type 0 where
  pub system : System
  pub producers : List TaskItem
  pub sleepers : List ℕ

-- `notify_one`: one blocked thread or more, of either kind; nobody only if nobody blocks.
pub data Notified : List TaskItem → List ℕ → List TaskItem → List ℕ → Type 0 where
  nobody : Notified [] [] [] []
  wakes_producer :
      (before after : List TaskItem) (item : TaskItem) (sleepers : List ℕ)
      → Notified (before ++ (item ∷ after)) sleepers (before ++ after) sleepers
  wakes_worker :
      (before after : List ℕ) (i : ℕ) (producers : List TaskItem)
      → Notified producers (before ++ (i ∷ after)) producers (before ++ after)
  wakes_more :
      {ps qs rs : List TaskItem} {is js ks : List ℕ}
      → Notified ps is qs js
      → Notified qs js rs ks
      → Notified ps is rs ks

-- `if (waiting != 0) queue_state_.notify_one()`, where `counted` says whether the counter is zero.
abbrev pub Notifies : Type 0 → List TaskItem → List ℕ → List TaskItem → List ℕ → Type 0
Notifies none_waiting ps is qs js =
    (none_waiting × (ps ≡ qs) × (is ≡ js)) ⊎ ((none_waiting → ⊥) × Notified ps is qs js)

-- `notify_all`
abbrev Everybody : List TaskItem → List ℕ → Type 0
Everybody qs js = (qs ≡ []) × (js ≡ [])

abbrev Nobody : Parked → List TaskItem → List ℕ → Type 0
Nobody s qs js = (s.producers ≡ qs) × (s.sleepers ≡ js)

-- Who is woken after a step.
abbrev pub Wakes : (s : Parked) {t : System} → Step s.system t → List TaskItem → List ℕ → Type 0
Wakes s (submits item p e) qs js = Notifies (s.sleepers ≡ []) s.producers s.sleepers qs js
Wakes s (refills callbacks p n e) qs js =
    if n == 1
    then Notifies (s.sleepers ≡ []) s.producers s.sleepers qs js
    else ((s.sleepers ≡ []) × Nobody s qs js)
    ⊎ ((s.sleepers ≢ []) × Everybody qs js)
Wakes s (claims i seen p items at few_seen e ne) qs js =
    Notifies (s.producers ≡ []) s.producers s.sleepers qs js
Wakes s (executes i item items n at) qs js = Nobody s qs js
Wakes s (finishes i n at) qs js = Nobody s qs js
Wakes s (exits i at e stops) qs js = Nobody s qs js
Wakes s (clears p n e) qs js = if n == 0 then Nobody s qs js else Everybody qs js
Wakes s stops_accepting qs js = Nobody s qs js
Wakes s (requests_stop h) qs js = Nobody s qs js
Wakes s (takes_workers h) qs js = Nobody s qs js

-- The step is not one of a worker that sleeps.
abbrev pub IsAwake : List ℕ → {s t : System} → Step s t → Type 0
IsAwake sleepers (claims i seen p items at few_seen e ne) = All (λ j. i ≢ j) sleepers
IsAwake sleepers (exits i at e stops) = All (λ j. i ≢ j) sleepers
IsAwake sleepers _ = Unit {0}

pub data BlockingStep (s : Parked) : Parked → Type 0 where
  -- `wait_for_space` on a full queue
  parks :
      (item : TaskItem)
      → pending_tasks s.system.pool ≡ s.system.pool.tasks.capacity
      → is_stopping s.system.pool ≡ false
      → BlockingStep s (record s { producers = item ∷ s.producers })
  -- a worker on an empty queue
  sleeps :
      (i : ℕ)
      → get_elem? s.system.workers i ≡ some idle
      → All (λ j. i ≢ j) s.sleepers
      → pending_tasks s.system.pool ≡ 0
      → is_stopping s.system.pool ≡ false
      → BlockingStep s (record s { sleepers = i ∷ s.sleepers })
  acts :
      {t : System} (st : Step s.system t) (producers : List TaskItem) (sleepers : List ℕ)
      → IsAwake s.sleepers st
      → Wakes s st producers sleepers
      → BlockingStep s (record { system = t; producers = producers; sleepers = sleepers })
  -- the `notify_all` at the end of `signal_shutdown`
  announces :
      is_stopping s.system.pool ≡ true → BlockingStep s (record s { producers = []; sleepers = [] })

pub data BlockingReach (p : Pool) : Parked → Type 0 where
  here : BlockingReach p (record { system = start p; producers = []; sleepers = [] })
  next : {s t : Parked} → BlockingReach p s → BlockingStep s t → BlockingReach p t
