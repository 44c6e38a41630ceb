-- ===== src/Threads/Order/Steps.antt =====
-- A step of the pool of include/vosp/worker_pool.hpp, and the order of its tasks.
use micro_error_framework.Prelude.{
  ℕ, zero, suc, ◌+◌, ◌≤◌, ◌≡◌, refl, sym, ap, ap₂, subst, ◌∙◌, Bool, true, false, some, List, [],
  ◌∷◌, ◌++◌, map, append-nil, arith, length, get_elem?, set, take, drop, take-append-drop,
}
use mathlib.Core.Option.{some-injective}
use micro_error_framework.Pool.Task.{TaskItem, bulk_item}
use micro_error_framework.Pool.{Pool, claim_seen, pending_tasks}
use micro_error_framework.Pool.Slots.Refine.{Represents-unique}
use micro_error_framework.Pool.Refine.{
  IsValid, queries_lem, EnqueueSpec, enqueue_lem, RefillSpec, refill_lem,
}
use micro_error_framework.Pool.Refine.Claims.{claimable_seen, claim_seen_lem}
use micro_error_framework.Pool.Refine.Workers.{execute-IsValid, finish_tasks-IsValid}
use micro_error_framework.Pool.Refine.Shutdown.{
  stop_accepting-IsValid, request_stop-IsValid, take_workers-IsValid,
}
use micro_error_framework.Threads.{
  Worker, idle, running, exited, System, Step, submits, refills, claims, executes, finishes, exits,
  clears, stops_accepting, requests_stop, takes_workers,
}
use micro_error_framework.Threads.Total.{total, total-ge, claimed_by}
use micro_error_framework.Threads.Invariant.{Inv, room}
use micro_error_framework.Threads.Order.{
  accepted_by, taken_by, executed_by, IsKeeping, left_by, left_of,
}

-- A pool holds one queue.
pub IsValid-unique :
    (p : Pool) (xs ys : List TaskItem) (a b : ℕ) (c d : Bool)
    → IsValid p xs a c
    → IsValid p ys b d
    → xs ≡ ys
IsValid-unique p xs ys a b c d v w =
    Represents-unique p.tasks xs ys v.ring w.ring
      (sym (queries_lem p xs a c v).0 ∙ (queries_lem p ys b d w).0)

-- What a single worker has left, before and after a move of it.
left_of-set :
    (ws : List Worker) (i : ℕ) (w v : Worker)
    → length ws ≡ 1
    → get_elem? ws i ≡ some w
    → (left_of ws ≡ left_by w) × (left_of (set ws i v) ≡ left_by v)
left_of-set [] i w v one at = absurd (omega arith)
left_of-set (x ∷ []) zero w v one at =
    (append-nil (left_by x) ∙ ap left_by (some-injective _ _ at), append-nil (left_by v))
left_of-set (x ∷ []) (suc i) w v one at = cc
left_of-set (x ∷ y ∷ ws) i w v one at = absurd (omega arith)

-- If `queue` is what the pool holds after a step, it is the queue of the invariant.
after :
    {p₀ : Pool} (t : System) (inv : Inv p₀ t) (queue : List TaskItem) (active : ℕ) (stopping : Bool)
    → IsValid t.pool queue active stopping
    → queue ≡ inv.queue
after t inv queue active stopping v =
    IsValid-unique t.pool queue inv.queue active _ stopping inv.stopping v inv.valid

claims-queue :
    (p₀ : Pool) (s t : System) (seen : ℕ) (items : List TaskItem)
    → seen ≤ pending_tasks s.pool
    → claim_seen seen s.pool ≡ some (t.pool, items)
    → (inv : Inv p₀ s) → (inv' : Inv p₀ t) → inv.queue ≡ items ++ inv'.queue
claims-queue p₀ s t seen items few e inv inv' =
    let active = total claimed_by s.workers in
    let n = claimable_seen seen inv.queue in
    let c =
      claim_seen_lem s.pool inv.queue active inv.stopping seen inv.valid (room p₀ s inv) few in
    let same = some-injective _ _ (sym c.done ∙ e) in
    let valid =
      subst (λ q. IsValid q (drop n inv.queue) (active + n) inv.stopping) (ap (λ r. r.0) same)
        c.kept in
    sym (take-append-drop n inv.queue)
    ∙ ap₂ (λ l q. l ++ q) (ap (λ r. r.1) same)
        (after t inv' (drop n inv.queue) (active + n) inv.stopping valid)

-- A step of any thread that cancels nothing: what it accepts goes behind the queue, and what a worker
-- takes comes from the front of it.
pub Step-queue :
    (p₀ : Pool) (s t : System) (st : Step s t) (inv : Inv p₀ s) (inv' : Inv p₀ t)
    → IsKeeping st
    → inv.queue ++ accepted_by st ≡ taken_by st ++ inv'.queue
Step-queue p₀ s t (submits item p e) inv inv' keeps =
    let active = total claimed_by s.workers in
    let spec =
      subst (EnqueueSpec s.pool inv.queue active inv.stopping item) e
        (enqueue_lem s.pool inv.queue active inv.stopping item inv.valid) in
    after t inv' (inv.queue ++ (item ∷ [])) active false spec.2
Step-queue p₀ s t (refills callbacks p n e) inv inv' keeps =
    let active = total claimed_by s.workers in
    let spec =
      subst (RefillSpec s.pool inv.queue active inv.stopping callbacks) e
        (refill_lem s.pool inv.queue active inv.stopping callbacks inv.valid) in
    after t inv' (inv.queue ++ map bulk_item (take n callbacks)) active false spec.2
Step-queue p₀ s t (claims i seen p items at few e ne) inv inv' keeps =
    append-nil _ ∙ claims-queue p₀ s t seen items few e inv inv'
Step-queue p₀ s t (executes i item items n at) inv inv' keeps =
    append-nil _
    ∙ after t inv' inv.queue _ inv.stopping
        (execute-IsValid s.pool inv.queue _ inv.stopping item inv.valid)
Step-queue p₀ s t (finishes i n at) inv inv' keeps =
    append-nil _
    ∙ after t inv' inv.queue _ inv.stopping
        (finish_tasks-IsValid s.pool inv.queue _ n inv.stopping inv.valid
          (total-ge claimed_by s.workers i (running [] n) at)).0
Step-queue p₀ s t (exits i at e stops) inv inv' keeps =
    append-nil _ ∙ after t inv' inv.queue _ inv.stopping inv.valid
Step-queue p₀ s t (clears p n e) inv inv' keeps = absurd keeps
Step-queue p₀ s t stops_accepting inv inv' keeps =
    append-nil _
    ∙ after t inv' inv.queue _ true
        (stop_accepting-IsValid s.pool inv.queue _ inv.stopping inv.valid)
Step-queue p₀ s t (requests_stop h) inv inv' keeps =
    append-nil _
    ∙ after t inv' inv.queue _ inv.stopping
        (request_stop-IsValid s.pool inv.queue _ inv.stopping inv.valid)
Step-queue p₀ s t (takes_workers h) inv inv' keeps =
    append-nil _
    ∙ after t inv' inv.queue _ inv.stopping
        (take_workers-IsValid s.pool inv.queue _ inv.stopping inv.valid)

-- A move of the one worker.
move-left :
    (ws : List Worker) (i : ℕ) (w v : Worker) (taken run : List TaskItem)
    → length ws ≡ 1
    → get_elem? ws i ≡ some w
    → left_by w ++ taken ≡ run ++ left_by v
    → left_of ws ++ taken ≡ run ++ left_of (set ws i v)
move-left ws i w v taken run one at e =
    let left = left_of-set ws i w v one at in
    ap (λ l. l ++ taken) left.0 ∙ e ∙ ap (λ l. run ++ l) (sym left.1)

-- If there is one worker, a step adds what the worker takes behind what it has left, and what it runs
-- comes from the front of that.
pub Step-left :
    (s t : System) (st : Step s t)
    → length s.workers ≡ 1
    → IsKeeping st
    → left_of s.workers ++ taken_by st ≡ executed_by st ++ left_of t.workers
Step-left s t (claims i seen p items at few e ne) one keeps =
    move-left s.workers i idle (running items (length items)) items [] one at refl
Step-left s t (executes i item items n at) one keeps =
    move-left s.workers i (running (item ∷ items) n) (running items n) [] (item ∷ []) one at
      (append-nil _)
Step-left s t (finishes i n at) one keeps =
    move-left s.workers i (running [] n) idle [] [] one at refl
Step-left s t (exits i at e stops) one keeps = move-left s.workers i idle exited [] [] one at refl
Step-left s t (submits item p e) one keeps = append-nil _
Step-left s t (refills callbacks p n e) one keeps = append-nil _
Step-left s t (clears p n e) one keeps = absurd keeps
Step-left s t stops_accepting one keeps = append-nil _
Step-left s t (requests_stop h) one keeps = append-nil _
Step-left s t (takes_workers h) one keeps = append-nil _
