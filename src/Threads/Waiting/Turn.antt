-- ===== src/Threads/Waiting/Turn.antt =====
-- The steps of include/vosp/worker_pool.hpp that turn a pool idle: each of them calls somebody to think
-- of the threads in `wait`.
use mathlib.Core.Option.{some-injective}
use micro_error_framework.Prelude.{
  ℕ, ◌+◌, ◌-◌, ◌%◌, ◌≤◌, ◌≡◌, refl, sym, ap, subst, ◌∙◌, ◌⊎◌, inl, inr, true, false, some, [], ◌∷◌,
  ◌++◌, arith, ◌==◌, ==_iff, Bool-cases, length, take, drop, length-append, length-take,
}
use micro_error_framework.Pool.Task.{TaskItem}
use micro_error_framework.Pool.{Pool, is_idle, accepted, execute, finish_tasks}
use micro_error_framework.Pool.Shutdown.{stop_accepting, request_stop, take_workers}
use micro_error_framework.Pool.Refine.{EnqueueSpec, enqueue_lem, RefillSpec, refill_lem}
use micro_error_framework.Pool.Refine.Claims.{claimable_seen, claimable_seen_bounds, claim_seen_lem}
use micro_error_framework.Pool.Refine.Workers.{finish_tasks-IsValid}
use micro_error_framework.Pool.Refine.Shutdown.{clear_queue_lem, stop_accepting-IsValid}
use micro_error_framework.Threads.{
  idle, running, System, Step, submits, refills, claims, executes, finishes, exits, clears,
  stops_accepting, requests_stop, takes_workers,
}
use micro_error_framework.Threads.Total.{total, total-set, total-ge, claimed_by}
use micro_error_framework.Threads.Invariant.{Inv, claimed-le, room}
use micro_error_framework.Threads.Steps.{Step-Inv}
use micro_error_framework.Threads.Quiet.{idle_fields}
use micro_error_framework.Threads.Drain.{some_item}
use micro_error_framework.Threads.Waiting.{
  Notifier, cancelled, asked, counting, telling, finished, called,
}

-- The thread has still to raise the epoch, or to find out that it need not.
abbrev pub under_way : Notifier → ℕ
under_way cancelled = 1
under_way asked = 1
under_way counting = 1
under_way telling = 0
under_way finished = 0

idle-execute : (p : Pool) (item : TaskItem) → is_idle (execute p item) ≡ is_idle p
unfolding execute is_idle
idle-execute p item = ground arith

idle-request_stop : (p : Pool) → is_idle (request_stop p) ≡ is_idle p
unfolding request_stop is_idle
idle-request_stop p = refl

idle-take_workers : (p : Pool) → is_idle (take_workers p) ≡ is_idle p
unfolding take_workers is_idle
idle-take_workers p = refl

-- After a step that leaves the pool idle, it was idle before, or somebody has been called.
pub turned_idle :
    (p : Pool) (s t : System) (st : Step s t)
    → Inv p s
    → p.worker_count ≤ 127
    → is_idle t.pool ≡ true
    → (is_idle s.pool ≡ true) ⊎ (1 ≤ total under_way (called st))
turned_idle p s t (submits item q e) inv few h =
    let active = total claimed_by s.workers in
    let done : EnqueueSpec s.pool inv.queue active inv.stopping item (accepted q) =
      subst (EnqueueSpec s.pool inv.queue active inv.stopping item) e
        (enqueue_lem s.pool inv.queue active inv.stopping item inv.valid) in
    let fields = (idle_fields q (inv.queue ++ (item ∷ [])) active false done.2).0 h in
    absurd (omega (arith, fields.0, length-append inv.queue (item ∷ [])))
turned_idle p s t (refills callbacks q n e) inv few h =
    let active = total claimed_by s.workers in
    let done : RefillSpec s.pool inv.queue active inv.stopping callbacks (some (q, n)) =
      subst (RefillSpec s.pool inv.queue active inv.stopping callbacks) e
        (refill_lem s.pool inv.queue active inv.stopping callbacks inv.valid) in
    let fields = (idle_fields q _ active false done.2).0 h in
    inl (
      (idle_fields s.pool inv.queue active inv.stopping inv.valid).1
        (omega (arith, fields.0, length-append inv.queue _), fields.1))
turned_idle p s t (claims i seen q items at few_seen e ne) inv few h =
    let active = total claimed_by s.workers in
    let n = claimable_seen seen inv.queue in
    let c =
      claim_seen_lem s.pool inv.queue active inv.stopping seen inv.valid (room p s inv) few_seen in
    let same = some-injective _ _ (sym c.done ∙ e) in
    let idle_after : is_idle c.rest ≡ true = ap (λ r. is_idle r.0) same ∙ h in
    let fields =
      (idle_fields c.rest (drop n inv.queue) (active + n) inv.stopping c.kept).0 idle_after in
    let size : length (take n inv.queue) ≡ length items = ap (λ r. length r.1) same in
    absurd (
      omega (
        arith,
        fields.1,
        size,
        length-take n inv.queue,
        (claimable_seen_bounds seen inv.queue).1,
        some_item items ne,
        claimed-le p t (Step-Inv p s t (claims i seen q items at few_seen e ne) inv),
        total-set claimed_by s.workers i idle (running items (length items)) at,
      ))
turned_idle p s t (executes i item items n at) inv few h = inl (sym (idle-execute s.pool item) ∙ h)
turned_idle p s t (finishes i n at) inv few h =
    let active = total claimed_by s.workers in
    let held = total-ge claimed_by s.workers i (running [] n) at in
    let v = finish_tasks-IsValid s.pool inv.queue active n inv.stopping inv.valid held in
    let fields =
      (idle_fields (finish_tasks s.pool n).0 inv.queue (active - n) inv.stopping v.0).0 h in
    let all : active % 2048 ≡ n = omega (arith, fields.1, claimed-le p s inv) in
    inr (ground (arith, v.1, all, fields.0))
turned_idle p s t (exits i at e stops) inv few h = inl h
turned_idle p s t (clears q n e) inv few h =
    let active = total claimed_by s.workers in
    let c = clear_queue_lem s.pool inv.queue active inv.stopping inv.valid inv.counter in
    let same = some-injective _ _ (sym c.done ∙ e) in
    let idle_after : is_idle c.after ≡ true = ap (λ r. is_idle r.0) same ∙ h in
    let fields = (idle_fields c.after [] active inv.stopping c.emptied).0 idle_after in
    let size : length inv.queue ≡ n = ap (λ r. r.1) same in
    elim (Bool-cases (n == 0)) [
      | inl none_left ↦ inl (
          (idle_fields s.pool inv.queue active inv.stopping inv.valid).1
            (size ∙ (==_iff n 0).0 none_left, fields.1))
      | inr some_left ↦ inr (rw (some_left) (omega arith))
    ]
turned_idle p s t stops_accepting inv few h =
    let active = total claimed_by s.workers in
    let v = stop_accepting-IsValid s.pool inv.queue active inv.stopping inv.valid in
    inl (
      (idle_fields s.pool inv.queue active inv.stopping inv.valid).1
        ((idle_fields (stop_accepting s.pool) inv.queue active true v).0 h))
turned_idle p s t (requests_stop k) inv few h = inl (sym (idle-request_stop s.pool) ∙ h)
turned_idle p s t (takes_workers k) inv few h = inl (sym (idle-take_workers s.pool) ∙ h)
