-- ===== src/Pool/Overlap/Steps.antt =====
-- The accesses of producers and consumers of include/vosp/worker_pool.hpp, interleaved in any order,
-- make the queue that its clients are promised.
use micro_error_framework.Prelude.{
  ℕ, ◌+◌, ◌-◌, ◌^◌, ◌≤◌, ◌<◌, min, ◌≡◌, sym, ◌∙◌, ◌≢◌, false, List, [], ◌∷◌, map, arith, ◌==◌,
  length, take, length-take, length-map,
}
use micro_error_framework.Error.{OperationResult, Outcome}
use micro_error_framework.Pool.Word.{pending_from_state}
use micro_error_framework.Pool.Task.{TaskItem, bulk_item}
use micro_error_framework.Pool.{Pool, bulk_claim_size}
use micro_error_framework.Pool.Overlap.{
  Producer, Consumer, Machine, machine, absent, Access, begins_enqueue, begins_refill, emplaces,
  counts, looks, takes_one, takes_bulk, fills_up, meets_single, claims, finishes, stops, cancels,
}
use micro_error_framework.Pool.Overlap.Abstract.{Queue}
use micro_error_framework.Pool.Overlap.Invariant.{Stands, loads}
use micro_error_framework.Pool.Overlap.Producers.{
  Moves, begins, emplace-Moves, count-Moves, stop-Moves,
}
use micro_error_framework.Pool.Overlap.Consumers.{
  look-Moves, take_one-Moves, take_bulk-Moves, fill_up-Moves, meet_single-Moves,
}
use micro_error_framework.Pool.Overlap.Others.{claim-Moves, finish-Moves, cancel-Moves}

begin_enqueue-Moves :
    (p : Pool) (c : Consumer) (running : List ℕ) (item : TaskItem) (a : Queue)
    → Stands (machine p absent c running) a
    → a.active < 2 ^ 52
    → (pending_from_state p.queue_state == p.tasks.capacity) ≡ false
    → a.stopping ≡ false
    → Moves a (machine p (Producer.filling (item ∷ []) []) c running)
begin_enqueue-Moves p c running item a v h space admits =
    let pending = (loads (machine p absent c running) a v h).0 in
    let other : length a.tasks ≢ p.tasks.capacity = λ e. ground (arith, pending) in
    begins p c running (item ∷ []) a v (omega (arith, v.room, other)) admits

length-bulk_items :
    (n : ℕ) (callbacks : List (Outcome OperationResult))
    → length (map bulk_item (take n callbacks)) ≤ n
length-bulk_items n callbacks =
    omega (arith, length-map bulk_item (take n callbacks), length-take n callbacks)

begin_refill-Moves :
    (p : Pool) (c : Consumer) (running : List ℕ) (callbacks : List (Outcome OperationResult))
    (a : Queue)
    → Stands (machine p absent c running) a
    → a.active < 2 ^ 52
    → a.stopping ≡ false
    → Moves a (
        machine p
          (Producer.filling
            (map bulk_item (
              take
                (min (length callbacks) (p.tasks.capacity - pending_from_state p.queue_state))
                callbacks))
            [])
          c
          running)
begin_refill-Moves p c running callbacks a v h admits =
    let pending = (loads (machine p absent c running) a v h).0 in
    let n = min (length callbacks) (p.tasks.capacity - pending_from_state p.queue_state) in
    begins p c running (map bulk_item (take n callbacks)) a v
      (omega (arith, v.room, pending, length-bulk_items n callbacks)) admits

-- While a producer and a consumer are in their sections at the same time, and with fewer than
-- 2 ^ 52 - 16 tasks claimed: every access to the ring and the word, by any thread, either leaves the
-- queue as it is or makes one step of it. Tasks come in at the end, in the order of submission, within
-- the capacity and only before the stop; they go out at the front, one, or up to sixteen bulk ones; and
-- the ring and the word stand for the queue again.
pub Access-Moves :
    (m m' : Machine) (a : Queue)
    → Access m m'
    → Stands m a
    → a.active + bulk_claim_size < 2 ^ 52
    → Moves a m'
Access-Moves m m' a (begins_enqueue p c running item open_yet space) v h =
    let stopping = (loads m a v (omega arith)).2 in
    begin_enqueue-Moves p c running item a v (omega arith) space (sym stopping ∙ open_yet)
Access-Moves m m' a (begins_refill p c running callbacks open_yet space) v h =
    let stopping = (loads m a v (omega arith)).2 in
    begin_refill-Moves p c running callbacks a v (omega arith) (sym stopping ∙ open_yet)
Access-Moves m m' a (emplaces p item items done c running) v h =
    emplace-Moves p item items done c running a v
Access-Moves m m' a (counts p done c running) v h = count-Moves p done c running a v (omega arith)
Access-Moves m m' a (looks p q running item some_task e) v h =
    look-Moves p q running item a v (omega arith) some_task e
Access-Moves m m' a (takes_one p q running item e) v h = take_one-Moves p q running item a v e
Access-Moves m m' a (takes_bulk p q running batch limit item more e b) v h =
    take_bulk-Moves p q running batch limit item a v more e b
Access-Moves m m' a (fills_up p q running batch limit full) v h =
    fill_up-Moves p q running batch limit a v full
Access-Moves m m' a (meets_single p q running batch limit item more e n) v h =
    meet_single-Moves p q running batch limit item a v more e n
Access-Moves m m' a (claims p q running batch) v h = claim-Moves p q running batch a v h
Access-Moves m m' a (finishes p q c running i n at) v h =
    finish-Moves p q c running i n a v (omega arith) at
Access-Moves m m' a (stops p c running) v h = stop-Moves p c running a v (omega arith)
Access-Moves m m' a (cancels p p' running n e) v h = cancel-Moves p p' running n a v (omega arith) e
