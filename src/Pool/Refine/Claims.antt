-- ===== src/Pool/Refine/Claims.antt =====
-- What a worker of include/vosp/worker_pool.hpp takes from the queue.
pub mod Counts
use micro_error_framework.Pool.Refine.Claims.Counts.{
  Claims, capacity-reset_head, claim_bulk-Claims, claimable_seen-all, leading_bulk,
}
pub use micro_error_framework.Pool.Refine.Claims.Counts.{
  claimable, claimable_seen, claimable_seen_bounds,
}
use micro_error_framework.Prelude.{
  ℕ, zero, suc, ◌+◌, ◌-◌, ◌*◌, ◌^◌, ◌≤◌, ◌<◌, min, ◌≡◌, refl, sym, ap, subst, ◌∙◌, ◌≢◌, inl, inr,
  Bool, true, false, Option, some, List, [], ◌∷◌, arith, ◌==◌, if◌then◌else◌, Bool-cases, length,
  take, drop, length-take, length-drop,
}
use micro_error_framework.Pool.Word.{pending_from_state, fetch_add, active_unit}
use micro_error_framework.Pool.Word.Fields.{word, Fits, fetch_add-claimed}
use micro_error_framework.Pool.Slots.{Ring, reset_head}
use micro_error_framework.Pool.Slots.Refine.{Represents, reset_head-Represents}
use micro_error_framework.Pool.Task.{TaskItem}
use micro_error_framework.Pool.{Pool, bulk_claim_size, claim_bulk, claim_seen, claim, pending_tasks}
use micro_error_framework.Pool.Refine.{IsValid, IsValid-Fits, queries_lem}

-- The pool after a claim of `n` items, of which nothing else is changed.
pub record Claimed (p : Pool) (queue : List TaskItem) (active n : ℕ) (stopping : Bool)
    (result : Option (Pool × List TaskItem)) : Type 0 where
  pub rest : Pool
  pub done : result ≡ some (rest, take n queue)
  pub kept : IsValid rest (drop n queue) (active + n) stopping
  pub capacity_kept : rest.tasks.capacity ≡ p.tasks.capacity
  pub unchanged : rest ≡ record p { tasks = rest.tasks; queue_state = rest.queue_state }

claimed-state :
    (p : Pool) (queue : List TaskItem) (active n : ℕ) (stopping : Bool)
    → IsValid p queue active stopping
    → n ≤ length queue
    → active + n < 2 ^ 52
    → fetch_add p.queue_state (n * (active_unit - 1))
      ≡ word (length (drop n queue)) (active + n) stopping
claimed-state p queue active n stopping v h k =
    let fits : Fits (length queue) (active + n) = record {
      pending_fits = (IsValid-Fits p queue active stopping v).pending_fits;
      active_fits = k;
    } in
    ap (λ s. fetch_add s (n * (active_unit - 1))) v.state
    ∙ fetch_add-claimed (length queue) active n stopping h fits
    ∙ ap (λ m. word m (active + n) stopping) (sym (length-drop n queue))

length-take_le : (n : ℕ) (queue : List TaskItem) → n ≤ length queue → length (take n queue) ≡ n
length-take_le n queue h = omega (arith, length-take n queue)

claim_bulk_case :
    (p : Pool) (x : TaskItem) (queue : List TaskItem) (active : ℕ) (stopping : Bool) (seen : ℕ)
    → IsValid p (x ∷ queue) active stopping
    → active + bulk_claim_size < 2 ^ 52
    → seen ≤ length (x ∷ queue)
    → (seen == 0) ≡ false
    → x.bulk ≡ true
    → Claimed p (x ∷ queue) active (claimable_seen seen (x ∷ queue)) stopping (claim_seen seen p)
unfolding claim_seen
claim_bulk_case p x queue active stopping seen v h few some_seen b =
    let here = (reset_head-Represents p.tasks x queue v.ring).0 in
    let m = min bulk_claim_size seen in
    let n = claimable_seen seen (x ∷ queue) in
    let bounds = claimable_seen_bounds seen (x ∷ queue) in
    let count : leading_bulk m (x ∷ queue) ≡ n = simp (some_seen, b) in
    let loop : Claims p.tasks (x ∷ queue) n (claim_bulk m p.tasks) =
      subst (λ k. Claims p.tasks (x ∷ queue) k (claim_bulk m p.tasks)) count
        (claim_bulk-Claims m p.tasks (x ∷ queue) v.ring (omega arith)) in
    let items = take n (x ∷ queue) in
    let size = length-take_le n (x ∷ queue) bounds.1 in
    record {
      rest = record p {
        tasks = loop.rest;
        queue_state = fetch_add p.queue_state (length items * (active_unit - 1));
      };
      done = ground (arith, some_seen, here, b, loop.done);
      kept = record {
        ring = loop.kept;
        small = rw loop.capacity_kept v.small;
        claims = omega (arith, bounds.0);
        state =
            ap (λ k. fetch_add p.queue_state (k * (active_unit - 1))) size
            ∙ claimed-state p (x ∷ queue) active n stopping v bounds.1 (omega (arith, bounds.0));
      };
      capacity_kept = loop.capacity_kept;
      unchanged = refl;
    }

claim_single_case :
    (p : Pool) (x : TaskItem) (queue : List TaskItem) (active : ℕ) (stopping : Bool) (seen : ℕ)
    → IsValid p (x ∷ queue) active stopping
    → active + bulk_claim_size < 2 ^ 52
    → (seen == 0) ≡ false
    → x.bulk ≡ false
    → Claimed p (x ∷ queue) active 1 stopping (claim_seen seen p)
unfolding claim_seen
claim_single_case p x queue active stopping seen v h some_seen b =
    let (here, later) = reset_head-Represents p.tasks x queue v.ring in
    record {
      rest = record p {
        tasks = reset_head p.tasks;
        queue_state = fetch_add p.queue_state (active_unit - 1);
      };
      done = ground (arith, some_seen, here, b);
      kept = record {
        ring = later;
        small = rw (capacity-reset_head p.tasks) v.small;
        claims = omega arith;
        state = claimed-state p (x ∷ queue) active 1 stopping v (omega arith) (omega arith);
      };
      capacity_kept = capacity-reset_head p.tasks;
      unchanged = refl;
    }

-- Nothing seen, nothing claimed.
claim_none :
    (p : Pool) (queue : List TaskItem) (active : ℕ) (stopping : Bool) (seen n : ℕ)
    → IsValid p queue active stopping
    → (seen == 0) ≡ true
    → n ≡ 0
    → Claimed p queue active n stopping (claim_seen seen p)
unfolding claim_seen
claim_none p queue active stopping seen n v none_seen e =
    subst (λ k. Claimed p queue active k stopping (claim_seen seen p)) (sym e)
      (record {
        rest = p;
        done = rw (none_seen, claim_seen) refl;
        kept = subst (λ k. IsValid p queue k stopping) (omega arith) v;
        capacity_kept = refl;
        unchanged = refl;
      })

-- On a valid pool in which the claimed tasks, with sixteen more, are fewer than 2 ^ 52, a worker that
-- has seen no more tasks than are queued takes the oldest ones: one, or of bulk tasks at the front as
-- many as it has seen, up to sixteen. It never looks at an empty slot.
pub claim_seen_lem :
    (p : Pool) (queue : List TaskItem) (active : ℕ) (stopping : Bool) (seen : ℕ)
    → IsValid p queue active stopping
    → active + bulk_claim_size < 2 ^ 52
    → seen ≤ pending_tasks p
    → Claimed p queue active (claimable_seen seen queue) stopping (claim_seen seen p)
unfolding pending_tasks
claim_seen_lem p [] active stopping seen v h few =
    let fields = queries_lem p [] active stopping v in
    claim_none p [] active stopping seen 0 v (ground (arith, fields.0)) refl
claim_seen_lem p (x ∷ queue) active stopping seen v h few =
    let fields = queries_lem p (x ∷ queue) active stopping v in
    elim (Bool-cases (seen == 0)) [
      | inl none_seen ↦ claim_none p (x ∷ queue) active stopping seen _ v none_seen (simp none_seen)
      | inr some_seen ↦ elim (Bool-cases x.bulk) [
        | inl b ↦
            claim_bulk_case p x queue active stopping seen v h (omega (arith, fields.0)) some_seen b
        | inr b ↦
            let one : 1 ≡ claimable_seen seen (x ∷ queue) = simp (some_seen, b) in
            subst (λ n. Claimed p (x ∷ queue) active n stopping (claim_seen seen p)) one
              (claim_single_case p x queue active stopping seen v h some_seen b)
      ]
    ]

-- On a valid pool in which the claimed tasks, with sixteen more, are fewer than 2 ^ 52, a claim
-- takes the oldest tasks: one, or of bulk tasks at the front up to sixteen. It takes nothing
-- exactly from an empty queue, and it never looks at an empty slot.
pub claim_lem :
    (p : Pool) (queue : List TaskItem) (active : ℕ) (stopping : Bool)
    → IsValid p queue active stopping
    → active + bulk_claim_size < 2 ^ 52
    → Claimed p queue active (claimable queue) stopping (claim p)
unfolding claim pending_tasks
claim_lem p queue active stopping v h =
    let fields = queries_lem p queue active stopping v in
    let all = ap (λ k. claimable_seen k queue) fields.0 ∙ claimable_seen-all queue in
    subst (λ n. Claimed p queue active n stopping (claim p)) all
      (claim_seen_lem p queue active stopping (pending_from_state p.queue_state) v h (omega arith))
