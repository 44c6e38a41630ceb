-- ===== src/Threads/Drain.antt =====
-- How the workers of include/vosp/worker_pool.hpp come to the end of a shutdown.
use mathlib.Core.Option.{some-injective}
use micro_error_framework.Prelude.{
  ℕ, zero, suc, ◌+◌, ◌-◌, ◌*◌, ◌≤◌, ◌<◌, ◌≡◌, refl, sym, ap, ◌∙◌, ◌≢◌, ◌⊎◌, inl, inr, true, some,
  List, [], ◌∷◌, arith, length, get_elem?, take, drop, length-take, length-drop, All,
}
use micro_error_framework.Pool.Word.{pending_from_state, is_stopping_state}
use micro_error_framework.Pool.Task.{TaskItem}
use micro_error_framework.Pool.{Pool, execute, finish_tasks, pending_tasks, is_stopping}
use micro_error_framework.Pool.Refine.{queries_lem}
use micro_error_framework.Pool.Refine.Claims.{claimable_seen, claimable_seen_bounds, claim_seen_lem}
use micro_error_framework.Pool.Refine.Workers.{finish_tasks-IsValid}
use micro_error_framework.Threads.{
  Worker, idle, running, exited, System, Step, claims, executes, finishes, exits,
}
use micro_error_framework.Threads.Total.{total, total-set, total-ge, claimed_by}
use micro_error_framework.Threads.Invariant.{Inv, room}
use micro_error_framework.Threads.Steps.{Step-Inv}
use micro_error_framework.Threads.Moves.{IsMoveOf, worker_can_move}

abbrev weight : Worker → ℕ
weight idle = 1
weight (running items n) = 2 * length items + 2
weight exited = 0

-- What the workers have still to do: moves to come, counted from above.
abbrev pub work : System → ℕ
work s = 4 * pending_tasks s.pool + total weight s.workers

pub pending-execute :
    (p : Pool) (item : TaskItem) → pending_tasks (execute p item) ≡ pending_tasks p
unfolding execute pending_tasks
pending-execute p item = ground arith

pub some_item : (items : List TaskItem) → items ≢ [] → 1 ≤ length items
some_item [] h = absurd (h refl)
some_item (x ∷ items) h = omega arith

-- A move of a worker leaves less to do.
work-lt :
    (p : Pool) (s t : System) (i : ℕ) (st : Step s t) → Inv p s → IsMoveOf i st → work t < work s
unfolding pending_tasks
work-lt p s t i (claims j seen q items at few_seen e ne) inv m =
    let active = total claimed_by s.workers in
    let c =
      claim_seen_lem s.pool inv.queue active inv.stopping seen inv.valid (room p s inv) few_seen in
    let before = queries_lem s.pool inv.queue active inv.stopping inv.valid in
    let n = claimable_seen seen inv.queue in
    let after = queries_lem c.rest (drop n inv.queue) (active + n) inv.stopping c.kept in
    let same = some-injective _ _ (sym c.done ∙ e) in
    let left : pending_from_state q.queue_state ≡ length (drop n inv.queue) =
      sym (ap (λ r. pending_from_state r.0.queue_state) same) ∙ after.0 in
    let size : length (take n inv.queue) ≡ length items = ap (λ r. length r.1) same in
    omega (
      arith,
      before.0,
      left,
      size,
      length-take n inv.queue,
      length-drop n inv.queue,
      (claimable_seen_bounds seen inv.queue).1,
      some_item items ne,
      total-set weight s.workers j idle (running items (length items)) at,
    )
work-lt p s t i (executes j x items n at) inv m = omega (
  arith,
  pending-execute s.pool x,
  total-set weight s.workers j (running (x ∷ items) n) (running items n) at,
)
work-lt p s t i (finishes j n at) inv m =
    let active = total claimed_by s.workers in
    let w = running [] n in
    let few = total-ge claimed_by s.workers j w at in
    let v = (finish_tasks-IsValid s.pool inv.queue active n inv.stopping inv.valid few).0 in
    let before = queries_lem s.pool inv.queue active inv.stopping inv.valid in
    let after = queries_lem (finish_tasks s.pool n).0 inv.queue (active - n) inv.stopping v in
    omega (arith, before.0, after.0, total-set weight s.workers j w idle at)
work-lt p s t i (exits j at e stops) inv m =
    omega (arith, total-set weight s.workers j idle exited at)
work-lt p s t i _ inv m = absurd m

-- `n` moves of workers, one after the other, with no other thread in between.
pub data Moves : System → ℕ → System → Type 0 where
  done : {s : System} → Moves s 0 s
  more :
      {s t u : System} {n : ℕ} (i : ℕ) (st : Step s t)
      → IsMoveOf i st
      → Moves t n u
      → Moves s (suc n) u

-- From a state in which the invariant holds, `n` moves of workers in a row leave at least `n` less
-- of `work`, which is four for each queued task, two for each task left to run, and at most two for
-- each worker.
pub Moves-le :
    (p : Pool) {s : System} (n : ℕ) (u : System) → Inv p s → Moves s n u → n + work u ≤ work s
Moves-le p n u inv done = omega arith
Moves-le p n u inv (more {s = s} {t = t} {n = k} i st m rest) =
    omega (arith, work-lt p s t i st inv m, Moves-le p k u (Step-Inv p s t st inv) rest)

stopping-execute : (p : Pool) (item : TaskItem) → is_stopping (execute p item) ≡ is_stopping p
unfolding execute is_stopping
stopping-execute p item = ground arith

-- The workers never take the stop flag back.
stopping-move :
    (p : Pool) (s t : System) (i : ℕ) (st : Step s t)
    → Inv p s
    → IsMoveOf i st
    → is_stopping t.pool ≡ is_stopping s.pool
unfolding is_stopping
stopping-move p s t i (claims j seen q items at few_seen e ne) inv m =
    let active = total claimed_by s.workers in
    let c =
      claim_seen_lem s.pool inv.queue active inv.stopping seen inv.valid (room p s inv) few_seen in
    let before = queries_lem s.pool inv.queue active inv.stopping inv.valid in
    let n = claimable_seen seen inv.queue in
    let after = queries_lem c.rest (drop n inv.queue) (active + n) inv.stopping c.kept in
    let same = some-injective _ _ (sym c.done ∙ e) in
    sym (ap (λ r. is_stopping_state r.0.queue_state) same) ∙ after.2 ∙ sym before.2
stopping-move p s t i (executes j x items n at) inv m = stopping-execute s.pool x
stopping-move p s t i (finishes j n at) inv m =
    let active = total claimed_by s.workers in
    let few = total-ge claimed_by s.workers j (running [] n) at in
    let v = (finish_tasks-IsValid s.pool inv.queue active n inv.stopping inv.valid few).0 in
    let before = queries_lem s.pool inv.queue active inv.stopping inv.valid in
    let after = queries_lem (finish_tasks s.pool n).0 inv.queue (active - n) inv.stopping v in
    after.2 ∙ sym before.2
stopping-move p s t i (exits j at e stops) inv m = refl
stopping-move p s t i _ inv m = absurd m

-- Somebody has still to return, or nobody.
remaining :
    (ws : List Worker)
    → All (λ w. w ≡ exited) ws ⊎ ((i : ℕ) × (w : Worker) × (get_elem? ws i ≡ some w) × (w ≢ exited))
remaining [] = inl tt
remaining (idle ∷ ws) = inr (0, idle, refl, λ e. cc)
remaining (running items n ∷ ws) = inr (0, running items n, refl, λ e. cc)
remaining (exited ∷ ws) = elim (remaining ws) [
  | inl all ↦ inl (refl, all)
  | inr (i, w, at, ne) ↦ inr (suc i, w, at, ne)
]

drains_within :
    (p : Pool) (fuel : ℕ) (s : System)
    → Inv p s
    → is_stopping s.pool ≡ true
    → work s < fuel
    → (n : ℕ) × (u : System) × Moves s n u × All (λ w. w ≡ exited) u.workers
drains_within p zero s inv stops h = absurd (omega arith)
drains_within p (suc fuel) s inv stops h = elim (remaining s.workers) [
  | inl all ↦ (0, s, done, all)
  | inr (i, w, at, ne) ↦
      let (t, st, m) = worker_can_move p s i w inv stops at ne in
      let less = work-lt p s t i st inv m in
      let (n, u, moves, all) =
        drains_within p fuel t (Step-Inv p s t st inv) (stopping-move p s t i st inv m ∙ stops)
          (omega arith) in
      (suc n, u, more i st m moves, all)
]

-- From any state of a stopping pool in which the invariant holds, the workers by themselves reach a
-- state in which all of them have returned.
pub drains :
    (p : Pool) (s : System)
    → Inv p s
    → is_stopping s.pool ≡ true
    → (n : ℕ) × (u : System) × Moves s n u × All (λ w. w ≡ exited) u.workers
drains p s inv stops = drains_within p (suc (work s)) s inv stops (omega arith)
