-- ===== src/Pool/Overlap/Invariant.antt =====
-- How the ring and the word of include/vosp/worker_pool.hpp stand for the queue while a producer and a
-- consumer are in their sections.
use micro_error_framework.Prelude.{
  ℕ, ◌+◌, ◌%◌, ◌^◌, ◌≤◌, ◌<◌, ◌≡◌, ◌⊎◌, Bool, true, false, List, [], ◌∷◌, ◌++◌, arith, length, All,
}
use micro_error_framework.Pool.Word.{size_mod}
use micro_error_framework.Pool.Word.Fields.{word, Fits, word_fields}
use micro_error_framework.Pool.Word.{pending_from_state, active_from_state, is_stopping_state}
use micro_error_framework.Pool.Slots.Refine.{Represents}
use micro_error_framework.Pool.Task.{TaskItem, max_queue_capacity}
use micro_error_framework.Pool.{bulk_claim_size}
use micro_error_framework.Pool.Overlap.{
  Producer, absent, filling, Consumer, taking_one, taking_bulk, taken, Machine,
}
use micro_error_framework.Pool.Overlap.Abstract.{Queue}

-- In the ring and not yet in the word.
abbrev pub emplaced : Producer → List TaskItem
emplaced absent = []
emplaced (filling items done) = done

-- Not yet in the ring.
abbrev pub still_to_come : Producer → List TaskItem
still_to_come absent = []
still_to_come (filling items done) = items

-- Out of the ring, and still queued in the word.
abbrev pub in_hand : Consumer → List TaskItem
in_hand Consumer.absent = []
in_hand taking_one = []
in_hand (taking_bulk batch limit) = batch
in_hand (taken batch) = batch

-- A batch as it may be claimed.
abbrev pub IsBatch : List TaskItem → Type 0
IsBatch batch =
    (1 ≤ length batch)
    × (length batch ≤ bulk_claim_size)
    × ((length batch ≡ 1) ⊎ All (λ x. x.bulk ≡ true) batch)

-- The consumer, where `rest` is what the ring still has of the queue: it never comes to look for a task
-- that is not there.
abbrev pub IsServed : Consumer → List TaskItem → Type 0
IsServed Consumer.absent rest = Unit {0}
IsServed taking_one rest = 1 ≤ length rest
IsServed (taking_bulk batch limit) rest =
    (limit ≤ length batch + length rest)
    × (length batch ≤ limit)
    × (1 ≤ limit)
    × (limit ≤ bulk_claim_size)
    × All (λ x. x.bulk ≡ true) batch
    × ((1 ≤ length batch)
        ⊎ ((x : TaskItem) × (xs : List TaskItem) × (rest ≡ x ∷ xs) × (x.bulk ≡ true)))
IsServed (taken batch) rest = IsBatch batch

abbrev pub sum : List ℕ → ℕ
sum [] = 0
sum (n ∷ ns) = n + sum ns

-- A producer fills the ring of a queue that is not stopping.
abbrev pub IsAdmitted : Producer → Bool → Type 0
IsAdmitted absent stopping = Unit {0}
IsAdmitted (filling items done) stopping = stopping ≡ false

pub record Stands (m : Machine) (a : Queue) : Type 0 where
  pub rest : List TaskItem
  pub queue : a.tasks ≡ in_hand m.consumer ++ rest
  pub ring : Represents m.pool.tasks (rest ++ emplaced m.producer)
  pub small : m.pool.tasks.capacity ≤ max_queue_capacity
  pub state : m.pool.queue_state ≡ word (length a.tasks) a.active a.stopping
  pub claims : a.active ≡ sum m.running
  pub room :
      length a.tasks + length (emplaced m.producer) + length (still_to_come m.producer)
      ≤ m.pool.tasks.capacity
  pub admits : IsAdmitted m.producer a.stopping
  pub served : IsServed m.consumer rest
  pub counter : m.pool.cancelled_dispatches < size_mod

pub Stands-Fits :
    (m : Machine) (a : Queue) → Stands m a → a.active < 2 ^ 52 → Fits (length a.tasks) a.active
Stands-Fits m a v h = record { pending_fits = omega (arith, v.room, v.small); active_fits = h }

-- What a load of the word tells, in the middle of the sections too.
pub loads :
    (m : Machine) (a : Queue)
    → Stands m a
    → a.active < 2 ^ 52
    → (pending_from_state m.pool.queue_state ≡ length a.tasks)
      × (active_from_state m.pool.queue_state ≡ a.active % 2048)
      × (is_stopping_state m.pool.queue_state ≡ a.stopping)
loads m a v h = rw v.state (word_fields (length a.tasks) a.active a.stopping (Stands-Fits m a v h))
