-- ===== src/Threads/Quiet.antt =====
-- `is_idle`, the test of `wait` of include/vosp/worker_pool.hpp: what it says of the pool.
use micro_error_framework.Prelude.{
  ℕ, ◌%◌, ◌≤◌, ◌≡◌, refl, ap, ◌↔◌, Bool, true, List, [], ◌∷◌, arith, length, All,
}
use micro_error_framework.Pool.Task.{TaskItem}
use micro_error_framework.Pool.{Pool, is_idle}
use micro_error_framework.Pool.Refine.{IsValid, queries_lem}
use micro_error_framework.Threads.{Worker, idle, running, exited, System}
use micro_error_framework.Threads.Total.{total, claimed_by}
use micro_error_framework.Threads.Invariant.{IsBounded, Inv, claimed-le}

-- The worker executes nothing.
abbrev pub IsQuiet : Worker → Type 0
IsQuiet idle = Unit {0}
IsQuiet (running items n) = ⊥
IsQuiet exited = Unit {0}

IsQuiet-total : (ws : List Worker) → All IsBounded ws → total claimed_by ws ≡ 0 → All IsQuiet ws
IsQuiet-total [] b h = tt
IsQuiet-total (idle ∷ ws) b h = (tt, IsQuiet-total ws b.1 (omega arith))
IsQuiet-total (running items n ∷ ws) b h = absurd (omega (arith, b.0))
IsQuiet-total (exited ∷ ws) b h = (tt, IsQuiet-total ws b.1 (omega arith))

total_of_quiet : (ws : List Worker) → All IsQuiet ws → total claimed_by ws ≡ 0
total_of_quiet [] q = refl
total_of_quiet (idle ∷ ws) q = omega (arith, total_of_quiet ws q.1)
total_of_quiet (running items n ∷ ws) q = absurd q.0
total_of_quiet (exited ∷ ws) q = omega (arith, total_of_quiet ws q.1)

empty_of_length : (queue : List TaskItem) → length queue ≡ 0 → queue ≡ []
empty_of_length [] h = refl
empty_of_length (x ∷ queue) h = absurd (omega arith)

-- The test on a valid pool: no task is queued, and the word shows none claimed.
pub idle_fields :
    (p : Pool) (queue : List TaskItem) (active : ℕ) (stopping : Bool)
    → IsValid p queue active stopping
    → (is_idle p ≡ true) ↔ ((length queue ≡ 0) × (active % 2048 ≡ 0))
unfolding is_idle
idle_fields p queue active stopping v =
    let fields = queries_lem p queue active stopping v in
    (
      λ h. (ground (arith, fields.0), ground (arith, fields.1)),
      λ h. ground (arith, fields.0, fields.1, h.0, h.1),
    )

-- In a state in which the invariant holds, with at most 127 workers, the test that `wait` makes
-- holds exactly if no task is queued and no worker is executing any.
pub is_idle_iff :
    (p : Pool) (s : System) (inv : Inv p s)
    → p.worker_count ≤ 127
    → (is_idle s.pool ≡ true) ↔ ((inv.queue ≡ []) × All IsQuiet s.workers)
is_idle_iff p s inv few =
    let active = total claimed_by s.workers in
    let fields = idle_fields s.pool inv.queue active inv.stopping inv.valid in
    let exact : active % 2048 ≡ active = omega (arith, claimed-le p s inv) in
    (
      λ h. (
        empty_of_length inv.queue (fields.0 h).0,
        IsQuiet-total s.workers inv.bounded (omega (arith, (fields.0 h).1, exact)),
      ),
      λ h. fields.1 (ap length h.0, omega (arith, total_of_quiet s.workers h.1)),
    )
