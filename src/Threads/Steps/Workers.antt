-- ===== src/Threads/Steps/Workers.antt =====
-- The moves of the workers of include/vosp/worker_pool.hpp, and the invariant.
use mathlib.Core.Option.{some-injective}
use micro_error_framework.Prelude.{
  ℕ, zero, suc, ◌≤◌, ◌+◌, ◌-◌, ◌≡◌, refl, sym, ap, subst, ◌∙◌, ◌≢◌, inl, inr, true, some, List, [],
  ◌∷◌, ◌++◌, append-nil, arith, Option-cases, length, get_elem?, set, take, drop, length-set,
  length-take, All-set, All-get,
}
use micro_error_framework.Pool.Task.{invoke, delivery_of, TaskItem, Settlement}
use micro_error_framework.Pool.{Pool, claim_seen, execute, finish_tasks, pending_tasks, is_stopping}
use micro_error_framework.Pool.Refine.{IsValid, queries_lem}
use micro_error_framework.Pool.Refine.Claims.{
  Claimed, claimable_seen, claimable_seen_bounds, claim_seen_lem,
}
use micro_error_framework.Pool.Refine.Workers.{execute-IsValid, finish_tasks-IsValid}
use micro_error_framework.Threads.{idle, running, exited, System, future_of}
use micro_error_framework.Threads.Total.{
  total, total-set, total-ge, occurrences, occurrences-append, futures_of, settled, settled-append,
  claimed_by, held_by, occurrences-split, drop-nil, exited-set,
}
use micro_error_framework.Threads.Invariant.{IsBounded, Inv, room}

take-positive : (n : ℕ) (queue : List TaskItem) → take n queue ≢ [] → 1 ≤ n
take-positive zero queue h = absurd (h refl)
take-positive (suc n) queue h = omega arith

pub claimed-Inv :
    (p₀ : Pool) (s : System) (i seen : ℕ)
    → get_elem? s.workers i ≡ some idle
    → (inv : Inv p₀ s)
    → (c : Claimed s.pool inv.queue
        (total claimed_by s.workers)
        (claimable_seen seen inv.queue)
        inv.stopping
        (claim_seen seen s.pool))
    → 1 ≤ claimable_seen seen inv.queue
    → let items = take (claimable_seen seen inv.queue) inv.queue in
      Inv p₀ (record s { pool = c.rest; workers = set s.workers i (running items (length items)) })
claimed-Inv p₀ s i seen at inv c some_item =
    let n = claimable_seen seen inv.queue in
    let items = take n inv.queue in
    let v = running items (length items) in
    let bounds = claimable_seen_bounds seen inv.queue in
    let size : length items ≡ n = omega (arith, length-take n inv.queue, bounds.1) in
    let moved : total claimed_by s.workers + n ≡ total claimed_by (set s.workers i v) =
      omega (arith, total-set claimed_by s.workers i idle v at, size) in
    record {
      queue = drop n inv.queue;
      stopping = inv.stopping;
      valid = subst (λ a. IsValid c.rest (drop n inv.queue) a inv.stopping) moved c.kept;
      counter = rw (ap (λ q. q.cancelled_dispatches) c.unchanged) inv.counter;
      crew = length-set s.workers i v ∙ inv.crew;
      small_crew = inv.small_crew;
      bounded =
          All-set IsBounded s.workers i v inv.bounded (omega (arith, size, bounds.0, some_item));
      kept = λ k. omega (
        arith,
        inv.kept k,
        occurrences-split k n inv.queue,
        total-set (held_by k) s.workers i idle v at,
        ap (λ q. occurrences k (settled q.futures)) c.unchanged,
      );
      gone = λ j h.
          let g = inv.gone j (exited-set s.workers i j v (λ e. cc) h) in
          (g.0, drop-nil n inv.queue g.1);
    }

pub claims-Inv :
    (p₀ : Pool) (s : System) (i seen : ℕ) (p : Pool) (items : List TaskItem)
    → get_elem? s.workers i ≡ some idle
    → seen ≤ pending_tasks s.pool
    → claim_seen seen s.pool ≡ some (p, items)
    → items ≢ []
    → Inv p₀ s
    → Inv p₀ (record s { pool = p; workers = set s.workers i (running items (length items)) })
claims-Inv p₀ s i seen p items at few_seen e ne inv =
    let c =
      claim_seen_lem s.pool inv.queue (total claimed_by s.workers) inv.stopping seen inv.valid
        (room p₀ s inv) few_seen in
    let same = some-injective _ _ (sym c.done ∙ e) in
    let some_item : 1 ≤ claimable_seen seen inv.queue =
      take-positive _ inv.queue (λ q. ne (sym (ap (λ r. r.1) same) ∙ q)) in
    subst
      (λ r. Inv p₀ (record s { pool = r.0; workers = set s.workers i (running r.1 (length r.1)) }))
      same (claimed-Inv p₀ s i seen at inv c some_item)

execute-rest :
    (p : Pool) (item : TaskItem)
    → (settled (execute p item).futures ≡ settled p.futures ++ future_of item)
      × ((execute p item).cancelled_dispatches ≡ p.cancelled_dispatches)
unfolding execute
execute-rest p item = elim (Option-cases item.completion) [
  | inl e ↦ ground (arith, append-nil (settled p.futures))
  | inr (future, e) ↦
      let told : Settlement = record {
        future = future;
        delivery = delivery_of (invoke item.callback p.stop_requested);
      } in
      ground (arith, e, settled-append p.futures (told ∷ []))
]

pub executes-Inv :
    (p₀ : Pool) (s : System) (i : ℕ) (item : TaskItem) (items : List TaskItem) (n : ℕ)
    → get_elem? s.workers i ≡ some (running (item ∷ items) n)
    → Inv p₀ s
    → Inv p₀ (record s { pool = execute s.pool item; workers = set s.workers i (running items n) })
executes-Inv p₀ s i item items n at inv =
    let w = running (item ∷ items) n in
    let v = running items n in
    let was = All-get IsBounded s.workers i w inv.bounded at in
    let same : total claimed_by s.workers ≡ total claimed_by (set s.workers i v) =
      omega (arith, total-set claimed_by s.workers i w v at) in
    let rest = execute-rest s.pool item in
    record {
      queue = inv.queue;
      stopping = inv.stopping;
      valid =
          subst (λ a. IsValid (execute s.pool item) inv.queue a inv.stopping) same
            (execute-IsValid s.pool inv.queue (total claimed_by s.workers) inv.stopping item
              inv.valid);
      counter = rw rest.1 inv.counter;
      crew = length-set s.workers i v ∙ inv.crew;
      small_crew = inv.small_crew;
      bounded = All-set IsBounded s.workers i v inv.bounded (omega (arith, was));
      kept = λ k. omega (
        arith,
        inv.kept k,
        total-set (held_by k) s.workers i w v at,
        occurrences-append k (future_of item) (futures_of items),
        ap (occurrences k) rest.0,
        occurrences-append k (settled s.pool.futures) (future_of item),
      );
      gone = λ j h. inv.gone j (exited-set s.workers i j v (λ e. cc) h);
    }

pub finishes-Inv :
    (p₀ : Pool) (s : System) (i n : ℕ)
    → get_elem? s.workers i ≡ some (running [] n)
    → Inv p₀ s
    → Inv p₀ (record s { pool = (finish_tasks s.pool n).0; workers = set s.workers i idle })
unfolding finish_tasks
finishes-Inv p₀ s i n at inv =
    let w = running [] n in
    let active = total claimed_by s.workers in
    let moved : active - n ≡ total claimed_by (set s.workers i idle) =
      omega (arith, total-set claimed_by s.workers i w idle at) in
    record {
      queue = inv.queue;
      stopping = inv.stopping;
      valid =
          subst (λ a. IsValid (finish_tasks s.pool n).0 inv.queue a inv.stopping) moved
            (finish_tasks-IsValid s.pool inv.queue active n inv.stopping inv.valid
              (total-ge claimed_by s.workers i w at)).0;
      counter = inv.counter;
      crew = length-set s.workers i idle ∙ inv.crew;
      small_crew = inv.small_crew;
      bounded = All-set IsBounded s.workers i idle inv.bounded tt;
      kept = λ k. omega (arith, inv.kept k, total-set (held_by k) s.workers i w idle at);
      gone = λ j h. inv.gone j (exited-set s.workers i j idle (λ e. cc) h);
    }

queue-empty : (queue : List TaskItem) → length queue ≡ 0 → queue ≡ []
queue-empty [] h = refl
queue-empty (x ∷ queue) h = absurd (omega arith)

pub exits-Inv :
    (p₀ : Pool) (s : System) (i : ℕ)
    → get_elem? s.workers i ≡ some idle
    → pending_tasks s.pool ≡ 0
    → is_stopping s.pool ≡ true
    → Inv p₀ s
    → Inv p₀ (record s { workers = set s.workers i exited })
unfolding pending_tasks is_stopping
exits-Inv p₀ s i at none_left stops inv =
    let active = total claimed_by s.workers in
    let same : active ≡ total claimed_by (set s.workers i exited) =
      omega (arith, total-set claimed_by s.workers i idle exited at) in
    let fields = queries_lem s.pool inv.queue active inv.stopping inv.valid in
    record {
      queue = inv.queue;
      stopping = inv.stopping;
      valid = subst (λ a. IsValid s.pool inv.queue a inv.stopping) same inv.valid;
      counter = inv.counter;
      crew = length-set s.workers i exited ∙ inv.crew;
      small_crew = inv.small_crew;
      bounded = All-set IsBounded s.workers i exited inv.bounded tt;
      kept = λ k. omega (arith, inv.kept k, total-set (held_by k) s.workers i idle exited at);
      gone = λ j h. (sym fields.2 ∙ stops, queue-empty inv.queue (sym fields.0 ∙ none_left));
    }
