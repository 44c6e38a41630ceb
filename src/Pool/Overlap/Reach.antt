-- ===== src/Pool/Overlap/Reach.antt =====
-- The machines that the pool of include/vosp/worker_pool.hpp reaches from its constructor, access by
-- access.
use micro_error_framework.Prelude.{
  ℕ, ◌+◌, ◌^◌, ◌≤◌, ◌<◌, ◌≡◌, refl, ap, ◌∙◌, false, some, List, [], ◌∷◌, ◌++◌, arith, length,
}
use micro_error_framework.Error.{returned}
use micro_error_framework.Pool.Word.{size_mod}
use micro_error_framework.Pool.Slots.{front}
use micro_error_framework.Pool.Slots.Refine.{Represents, reset_head-Represents}
use micro_error_framework.Pool.Task.{TaskItem}
use micro_error_framework.Pool.{Pool, bulk_claim_size, construct}
use micro_error_framework.Pool.Refine.{construct-IsValid}
use micro_error_framework.Pool.Overlap.{
  Consumer, taking_one, taking_bulk, Machine, machine, absent, Access,
}
use micro_error_framework.Pool.Overlap.Abstract.{Queue}
use micro_error_framework.Pool.Overlap.Invariant.{Stands, emplaced, in_hand, IsServed, sum}
use micro_error_framework.Pool.Overlap.Steps.{Access-Moves}

-- Every access is made with fewer than 2 ^ 52 - 16 tasks claimed and not finished.
pub data AccessReach (p : Pool) : Machine → Type 0 where
  here : AccessReach p (machine p absent Consumer.absent [])
  next :
      {m n : Machine}
      → AccessReach p m
      → sum m.running + bulk_claim_size < 2 ^ 52
      → Access m n
      → AccessReach p n

counter-construct :
    (hardware_concurrency worker_count queue_capacity : ℕ) (p : Pool)
    → construct hardware_concurrency worker_count queue_capacity ≡ returned p
    → p.cancelled_dispatches < size_mod
unfolding construct
counter-construct hardware_concurrency worker_count queue_capacity p h = ground arith

construct-Stands :
    (hardware_concurrency worker_count queue_capacity : ℕ) (p : Pool)
    → construct hardware_concurrency worker_count queue_capacity ≡ returned p
    → Stands
        (machine p absent Consumer.absent [])
        (record { tasks = []; active = 0; stopping = false })
construct-Stands hardware_concurrency worker_count queue_capacity p h =
    let v = (construct-IsValid hardware_concurrency worker_count queue_capacity p h).0 in
    record {
      rest = [];
      queue = refl;
      ring = v.ring;
      small = v.small;
      state = v.state;
      claims = refl;
      room = omega arith;
      admits = tt;
      served = tt;
      counter = counter-construct hardware_concurrency worker_count queue_capacity p h;
    }

-- All of them stand for a queue.
pub AccessReach-Stands :
    (hardware_concurrency worker_count queue_capacity : ℕ) (p : Pool) {m : Machine}
    → construct hardware_concurrency worker_count queue_capacity ≡ returned p
    → AccessReach p m
    → (a : Queue) × Stands m a
AccessReach-Stands hardware_concurrency worker_count queue_capacity p h here =
    (_, construct-Stands hardware_concurrency worker_count queue_capacity p h)
AccessReach-Stands hardware_concurrency worker_count queue_capacity p h
      (next {m = m} {n = n} r few access) =
    let (a, v) = AccessReach-Stands hardware_concurrency worker_count queue_capacity p h r in
    let moved = Access-Moves m n a access v (omega (arith, v.claims)) in (moved.after, moved.stands)

front-Represents :
    (m : Machine) (rest : List TaskItem)
    → 1 ≤ length rest
    → Represents m.pool.tasks (rest ++ emplaced m.producer)
    → (item : TaskItem) × (later : List TaskItem) × (front m.pool.tasks ≡ some item)
      × (rest ≡ item ∷ later)
front-Represents m [] h ring = absurd (omega arith)
front-Represents m (x ∷ rest) h ring =
    (x, rest, (reset_head-Represents m.pool.tasks x (rest ++ emplaced m.producer) ring).0, refl)

-- The consumer is about to look at the front slot.
abbrev pub IsLooking : Consumer → Type 0
IsLooking Consumer.absent = ⊥
IsLooking taking_one = Unit {0}
IsLooking (taking_bulk batch limit) = length batch < limit
IsLooking (Consumer.taken batch) = ⊥

left-positive :
    (c : Consumer) (rest : List TaskItem) → IsServed c rest → IsLooking c → 1 ≤ length rest
left-positive Consumer.absent rest v h = absurd h
left-positive taking_one rest v h = v
left-positive (taking_bulk batch limit) rest v h = omega (arith, v.0)
left-positive (Consumer.taken batch) rest v h = absurd h

-- In any machine that a constructed pool reaches, with fewer than 2 ^ 52 - 16 tasks claimed at every
-- access on the way: when the consumer is about to look at the front slot, before it takes the one task
-- or another one of a bulk, the slot has a task, whatever the producers do at the same time. The machine
-- stands for a queue, and in it that task is the next one after those that the consumer has in hand.
pub consumer-served :
    (hardware_concurrency worker_count queue_capacity : ℕ) (p : Pool) (m : Machine)
    → construct hardware_concurrency worker_count queue_capacity ≡ returned p
    → AccessReach p m
    → IsLooking m.consumer
    → (a : Queue) × (item : TaskItem) × (later : List TaskItem) × Stands m a
      × (front m.pool.tasks ≡ some item)
      × (a.tasks ≡ in_hand m.consumer ++ (item ∷ later))
consumer-served hardware_concurrency worker_count queue_capacity p m h r looking =
    let (a, v) = AccessReach-Stands hardware_concurrency worker_count queue_capacity p h r in
    let some_left = left-positive m.consumer v.rest v.served looking in
    let (item, later, here_now, split) = front-Represents m v.rest some_left v.ring in
    (a, item, later, v, here_now, v.queue ∙ ap (λ l. in_hand m.consumer ++ l) split)
