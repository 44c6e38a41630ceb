-- ===== src/Pool/Refine/Claims/Counts.antt =====
-- How many tasks a worker of include/vosp/worker_pool.hpp takes from the ring, one after the other.
use micro_error_framework.Prelude.{
  ℕ, zero, suc, ◌≤◌, min, ◌≡◌, refl, ap, ◌∙◌, ◌≢◌, inl, inr, true, Option, some, List, [], ◌∷◌,
  arith, ◌==◌, if◌then◌else◌, Bool-cases, length, take, drop,
}
use micro_error_framework.Pool.Slots.{Ring, reset_head}
use micro_error_framework.Pool.Slots.Refine.{Represents, reset_head-Represents}
use micro_error_framework.Pool.Task.{TaskItem}
use micro_error_framework.Pool.{bulk_claim_size, claim_bulk}

-- How many items at the front of the queue are bulk, counting at most `limit`.
abbrev pub leading_bulk : ℕ → List TaskItem → ℕ
leading_bulk zero queue = 0
leading_bulk (suc limit) [] = 0
leading_bulk (suc limit) (x ∷ queue) = if x.bulk then suc (leading_bulk limit queue) else 0

-- How many items a worker takes from the front of the queue, if it has seen `seen` of them.
abbrev pub claimable_seen : ℕ → List TaskItem → ℕ
claimable_seen seen [] = 0
claimable_seen seen (x ∷ queue) =
    if seen == 0
    then 0
    else if x.bulk
    then leading_bulk (min bulk_claim_size seen) (x ∷ queue)
    else 1

-- And if it has seen them all.
abbrev pub claimable : List TaskItem → ℕ
claimable [] = 0
claimable (x ∷ queue) = if x.bulk then leading_bulk bulk_claim_size (x ∷ queue) else 1

pub capacity-reset_head : (r : Ring TaskItem) → (reset_head r).capacity ≡ r.capacity
unfolding reset_head
capacity-reset_head r = refl

-- What the claiming loop leaves.
pub record Claims (r : Ring TaskItem) (queue : List TaskItem) (n : ℕ)
    (result : Option (Ring TaskItem × List TaskItem)) : Type 0 where
  pub rest : Ring TaskItem
  pub done : result ≡ some (rest, take n queue)
  pub kept : Represents rest (drop n queue)
  pub capacity_kept : rest.capacity ≡ r.capacity

pub claim_bulk-Claims :
    (limit : ℕ) (r : Ring TaskItem) (queue : List TaskItem)
    → Represents r queue
    → limit ≤ length queue
    → Claims r queue (leading_bulk limit queue) (claim_bulk limit r)
unfolding claim_bulk
claim_bulk-Claims zero r queue v h = record {
  rest = r;
  done = refl;
  kept = v;
  capacity_kept = refl;
}
claim_bulk-Claims (suc limit) r [] v h = absurd (omega arith)
claim_bulk-Claims (suc limit) r (x ∷ queue) v h =
    let (here, later) = reset_head-Represents r x queue v in
    let rec = claim_bulk-Claims limit (reset_head r) queue later (omega arith) in
    elim (Bool-cases x.bulk) [
      | inl b ↦ record {
        rest = rec.rest;
        done = ground (arith, here, b, rec.done);
        kept = simp b rec.kept;
        capacity_kept = rec.capacity_kept ∙ capacity-reset_head r;
      }
      | inr b ↦ record {
        rest = r;
        done = ground (arith, here, b);
        kept = simp b v;
        capacity_kept = refl;
      }
    ]

leading_bulk-min :
    (n m : ℕ) (queue : List TaskItem)
    → m ≡ min n (length queue)
    → leading_bulk m queue ≡ leading_bulk n queue
leading_bulk-min zero zero queue h = refl
leading_bulk-min zero (suc m) queue h = absurd (omega arith)
leading_bulk-min (suc n) zero [] h = refl
leading_bulk-min (suc n) zero (x ∷ queue) h = absurd (omega arith)
leading_bulk-min (suc n) (suc m) [] h = absurd (omega arith)
leading_bulk-min (suc n) (suc m) (x ∷ queue) h =
    let rest : m ≡ min n (length queue) = omega arith in
    ap (λ k. if x.bulk then suc k else 0) (leading_bulk-min n m queue rest)

leading_bulk-le : (n : ℕ) (queue : List TaskItem) → leading_bulk n queue ≤ n
leading_bulk-le zero queue = omega arith
leading_bulk-le (suc n) [] = omega arith
leading_bulk-le (suc n) (x ∷ queue) = ground (arith, leading_bulk-le n queue)

leading_bulk-le_length : (n : ℕ) (queue : List TaskItem) → leading_bulk n queue ≤ length queue
leading_bulk-le_length zero queue = omega arith
leading_bulk-le_length (suc n) [] = omega arith
leading_bulk-le_length (suc n) (x ∷ queue) = ground (arith, leading_bulk-le_length n queue)

leading_bulk-positive :
    (n : ℕ) (x : TaskItem) (queue : List TaskItem)
    → 1 ≤ n
    → x.bulk ≡ true
    → 1 ≤ leading_bulk n (x ∷ queue)
leading_bulk-positive zero x queue h b = absurd (omega arith)
leading_bulk-positive (suc n) x queue h b = ground arith

-- A worker takes a task if it has seen one, and never more than sixteen.
pub claimable_seen_bounds :
    (seen : ℕ) (queue : List TaskItem)
    → (claimable_seen seen queue ≤ bulk_claim_size)
      × (claimable_seen seen queue ≤ length queue)
      × (1 ≤ seen → queue ≢ [] → 1 ≤ claimable_seen seen queue)
claimable_seen_bounds seen [] = (omega arith, omega arith, λ k h. absurd (h refl))
claimable_seen_bounds seen (x ∷ queue) =
    let m = min bulk_claim_size seen in
    (
      ground (arith, leading_bulk-le m (x ∷ queue)),
      ground (arith, leading_bulk-le_length m (x ∷ queue)),
      λ k h. ground (arith, leading_bulk-positive m x queue (omega arith)),
    )

pub claimable_seen-all :
    (queue : List TaskItem) → claimable_seen (length queue) queue ≡ claimable queue
claimable_seen-all [] = refl
claimable_seen-all (x ∷ queue) = ground (
  arith,
  leading_bulk-min bulk_claim_size (min bulk_claim_size (length (x ∷ queue))) (x ∷ queue) refl,
)
