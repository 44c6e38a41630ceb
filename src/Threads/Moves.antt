-- ===== src/Threads/Moves.antt =====
-- The moves of the workers of include/vosp/worker_pool.hpp, in a stopping pool too.
use micro_error_framework.Prelude.{
  ℕ, ◌≤◌, ◌≡◌, refl, ap, ◌∙◌, ◌≢◌, ◌⊎◌, inl, inr, true, some, List, [], ◌∷◌, arith, length,
  get_elem?, take, length-take,
}
use micro_error_framework.Pool.Task.{TaskItem}
use micro_error_framework.Pool.{Pool, pending_tasks, is_stopping}
use micro_error_framework.Pool.Refine.{queries_lem}
use micro_error_framework.Pool.Refine.Claims.{claimable_seen, claimable_seen_bounds, claim_seen_lem}
use micro_error_framework.Threads.{
  Worker, idle, running, exited, System, Step, submits, refills, claims, executes, finishes, exits,
  clears, stops_accepting, requests_stop, takes_workers,
}
use micro_error_framework.Threads.Total.{total, claimed_by}
use micro_error_framework.Threads.Invariant.{Inv, room}

-- The moves of the workers themselves, and of which worker.
abbrev pub IsMoveOf : ℕ → {s t : System} → Step s t → Type 0
IsMoveOf i (submits item p e) = ⊥
IsMoveOf i (refills callbacks p n e) = ⊥
IsMoveOf i (claims j seen p items at few_seen e ne) = i ≡ j
IsMoveOf i (executes j item items n at) = i ≡ j
IsMoveOf i (finishes j n at) = i ≡ j
IsMoveOf i (exits j at e stops) = i ≡ j
IsMoveOf i (clears p n e) = ⊥
IsMoveOf i stops_accepting = ⊥
IsMoveOf i (requests_stop h) = ⊥
IsMoveOf i (takes_workers h) = ⊥

pub queue-cases : (queue : List TaskItem) → (queue ≡ []) ⊎ (1 ≤ length queue)
queue-cases [] = inl refl
queue-cases (x ∷ queue) = inr (omega arith)

pub claimed-ne :
    (seen : ℕ) (queue : List TaskItem)
    → 1 ≤ seen
    → 1 ≤ length queue
    → take (claimable_seen seen queue) queue ≢ []
claimed-ne seen [] k h e = absurd (omega arith)
claimed-ne seen (x ∷ queue) k h e = absurd (
    omega (
      arith,
      ap length e,
      length-take (claimable_seen seen (x ∷ queue)) (x ∷ queue),
      (claimable_seen_bounds seen (x ∷ queue)).2 k (λ q. cc),
    ))

idle_can_move :
    (p : Pool) (s : System) (i : ℕ)
    → Inv p s
    → is_stopping s.pool ≡ true
    → get_elem? s.workers i ≡ some idle
    → (t : System) × (st : Step s t) × IsMoveOf i st
unfolding pending_tasks
idle_can_move p s i inv stops at =
    let active = total claimed_by s.workers in
    let fields = queries_lem s.pool inv.queue active inv.stopping inv.valid in
    let seen = pending_tasks s.pool in
    elim (queue-cases inv.queue) [
      | inl e ↦ (_, exits i at (fields.0 ∙ ap length e) stops, refl)
      | inr some_task ↦
          let c =
            claim_seen_lem s.pool inv.queue active inv.stopping seen inv.valid (room p s inv)
              (omega arith) in
          (
            _,
            claims i seen c.rest (take (claimable_seen seen inv.queue) inv.queue) at (omega arith)
                c.done (claimed-ne seen inv.queue (omega (arith, fields.0)) some_task),
            refl,
          )
    ]

-- In a stopping pool every worker that has not returned can move: it is never left waiting.
pub worker_can_move :
    (p : Pool) (s : System) (i : ℕ) (w : Worker)
    → Inv p s
    → is_stopping s.pool ≡ true
    → get_elem? s.workers i ≡ some w
    → w ≢ exited
    → (t : System) × (st : Step s t) × IsMoveOf i st
worker_can_move p s i idle inv stops at ne = idle_can_move p s i inv stops at
worker_can_move p s i (running [] n) inv stops at ne = (_, finishes i n at, refl)
worker_can_move p s i (running (x ∷ items) n) inv stops at ne = (_, executes i x items n at, refl)
worker_can_move p s i exited inv stops at ne = absurd (ne refl)
