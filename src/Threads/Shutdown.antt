-- ===== src/Threads/Shutdown.antt =====
-- `shutdown` of include/vosp/worker_pool.hpp as the sequence of its sections, and what it leaves the
-- workers to do before it can join them.
use micro_error_framework.Prelude.{
  ℕ, ◌≤◌, ◌<◌, ◌≡◌, refl, ap, ◌∙◌, Bool, true, false, some, [], arith, length, All,
}
use micro_error_framework.Pool.Task.{drain, cancel_pending, ShutdownMode}
use micro_error_framework.Pool.{Pool, is_stopping}
use micro_error_framework.Pool.Shutdown.{
  stop_accepting, request_stop, take_workers, signal_shutdown, shutdown,
}
use micro_error_framework.Pool.Refine.{queries_lem}
use micro_error_framework.Pool.Word.{size_mod}
use micro_error_framework.Pool.Refine.Shutdown.{clear_queue_lem, stop_accepting-IsValid}
use micro_error_framework.Threads.{
  exited, System, Step, claims, executes, finishes, exits, clears, stops_accepting, requests_stop,
  takes_workers,
}
use micro_error_framework.Threads.Total.{total, occurrences, settled, claimed_by}
use micro_error_framework.Threads.Invariant.{Inv}
use micro_error_framework.Threads.Steps.{Step-Inv}
use micro_error_framework.Threads.Futures.{settled_of_exited}
use micro_error_framework.Threads.Moves.{IsMoveOf}
use micro_error_framework.Threads.Drain.{Moves, done, more, drains}

-- Steps one after the other, as one thread takes them when no other one interferes.
pub data Course (s : System) : System → Type 0 where
  arrived : Course s s
  step : {t u : System} → Course s t → Step t u → Course s u

pub Course-Inv : (p₀ : Pool) {s t : System} → Course s t → Inv p₀ s → Inv p₀ t
Course-Inv p₀ arrived inv = inv
Course-Inv p₀ (step {t = t} {u = u} path st) inv = Step-Inv p₀ t u st (Course-Inv p₀ path inv)

pub Moves-Inv : (p₀ : Pool) {s u : System} {n : ℕ} → Moves s n u → Inv p₀ s → Inv p₀ u
Moves-Inv p₀ done inv = inv
Moves-Inv p₀ (more {s = s} {t = t} i st m rest) inv = Moves-Inv p₀ rest (Step-Inv p₀ s t st inv)

move-submitted : {s t : System} (i : ℕ) (st : Step s t) → IsMoveOf i st → t.submitted ≡ s.submitted
move-submitted i (claims j seen p items at few_seen e ne) m = refl
move-submitted i (executes j item items n at) m = refl
move-submitted i (finishes j n at) m = refl
move-submitted i (exits j at e stops) m = refl
move-submitted i _ m = absurd m

Moves-submitted : {s u : System} {n : ℕ} → Moves s n u → u.submitted ≡ s.submitted
Moves-submitted done = refl
Moves-submitted (more i st m rest) = Moves-submitted rest ∙ move-submitted i st m

counter-stop_accepting :
    (p : Pool)
    → p.cancelled_dispatches < size_mod
    → (stop_accepting p).cancelled_dispatches < size_mod
unfolding stop_accepting
counter-stop_accepting p h = h

stopping-request_stop : (p : Pool) → is_stopping (request_stop p) ≡ is_stopping p
unfolding is_stopping request_stop
stopping-request_stop p = refl

-- `signal_shutdown` as steps: it succeeds, and no section of it is an impossible one.
signals :
    (p₀ : Pool) (s : System) (mode : ShutdownMode)
    → Inv p₀ s
    → (q : Pool) × (signal_shutdown s.pool mode ≡ some q)
      × Course s (record s { pool = q })
      × (is_stopping q ≡ true)
unfolding signal_shutdown is_stopping
signals p₀ s drain inv =
    let active = total claimed_by s.workers in
    let v = stop_accepting-IsValid s.pool inv.queue active inv.stopping inv.valid in
    (
      stop_accepting s.pool,
      refl,
      step arrived stops_accepting,
      (queries_lem (stop_accepting s.pool) inv.queue active true v).2,
    )
signals p₀ s cancel_pending inv =
    let active = total claimed_by s.workers in
    let v = stop_accepting-IsValid s.pool inv.queue active inv.stopping inv.valid in
    let counter = counter-stop_accepting s.pool inv.counter in
    let c = clear_queue_lem (stop_accepting s.pool) inv.queue active true v counter in
    let stops = (queries_lem c.after [] active true c.emptied).2 in
    (
      request_stop c.after,
      ground (arith, c.done),
      step (step (step arrived stops_accepting) (clears c.after (length inv.queue) c.done))
          (requests_stop stops),
      stopping-request_stop c.after ∙ stops,
    )

stopping-take_workers : (p : Pool) → is_stopping (take_workers p) ≡ is_stopping p
unfolding is_stopping take_workers
stopping-take_workers p = refl

-- `shutdown` as steps, by a worker or by another thread.
shuts_down :
    (p₀ : Pool) (s : System) (is_worker : Bool) (mode : ShutdownMode)
    → Inv p₀ s
    → (q : Pool) × (shutdown is_worker s.pool mode ≡ some q)
      × Course s (record s { pool = q })
      × (is_stopping q ≡ true)
unfolding shutdown
shuts_down p₀ s true mode inv = signals p₀ s mode inv
shuts_down p₀ s false mode inv =
    let (q, e, path, stops) = signals p₀ s mode inv in
    (take_workers q, rw (e) refl, step path (takes_workers stops), stopping-take_workers q ∙ stops)

-- From any state in which the invariant holds, for a pool with at least one worker, a call of
-- `shutdown`, by a worker or by another thread, in either mode, succeeds and leaves the pool stopping;
-- it is a sequence of steps. The workers alone then reach a state in which all of them have returned,
-- as the joins of the call wait for, and there every future has been settled exactly as often as it
-- had been handed out when `shutdown` was called.
pub shutdown_joins :
    (p₀ : Pool) (s : System) (is_worker : Bool) (mode : ShutdownMode)
    → Inv p₀ s
    → 1 ≤ p₀.worker_count
    → (q : Pool) × (shutdown is_worker s.pool mode ≡ some q)
      × Course s (record s { pool = q })
      × (is_stopping q ≡ true)
      × (n : ℕ) × (u : System) × Moves (record s { pool = q }) n u
      × All (λ w. w ≡ exited) u.workers
      × ((k : ℕ) → occurrences k (settled u.pool.futures) ≡ occurrences k s.submitted)
shutdown_joins p₀ s is_worker mode inv some_worker =
    let (q, e, path, stops) = shuts_down p₀ s is_worker mode inv in
    let after = Course-Inv p₀ path inv in
    let (n, u, moves, all) = drains p₀ (record s { pool = q }) after stops in
    (
      q,
      e,
      path,
      stops,
      n,
      u,
      moves,
      all,
      λ k.
          settled_of_exited p₀ u k (Moves-Inv p₀ moves after) some_worker all
          ∙ ap (occurrences k) (Moves-submitted moves),
    )
