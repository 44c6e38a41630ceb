-- ===== src/Pool/Overlap.antt =====
-- include/vosp/worker_pool.hpp: the sections of the producers, which hold `producer_mutex_`, and of the
-- consumers, which hold `consumer_mutex_`, access by access. A producer and a consumer may be in their
-- sections at the same time; what they share is the ring and the word.
pub mod Abstract
pub mod Invariant
pub mod Producers
pub mod Consumers
pub mod Others
pub mod Steps
pub mod Reach
pub mod Sections
mod Tests
use micro_error_framework.Prelude.{
  ℕ, zero, suc, ◌+◌, ◌-◌, ◌*◌, ◌/◌, ◌%◌, ◌^◌, ◌≤◌, ◌<◌, min, compare, Ordering, bit_xor, String,
  ◌≡◌, refl, sym, ap, ap₂, subst, fun_ext, ◌∙◌, ◌≡⟨◌⟩◌, ◌∎, ◌≢◌, ◌↔◌, ◌⊎◌, inl, inr, Bool, true,
  false, not, ◌&&◌, ◌||◌, Option, none, some, List, [], ◌∷◌, ◌++◌, map, append-nil, append_assoc,
  arith, dec_lt, ℕ_discrete, ltb, leb, ◌==◌, if◌then◌else◌, ltb→lt, lt→ltb, leb→le, ==_iff, ==_refl,
  Bool-cases, Option-cases, is_some, Text, codes, text_eq, text_eq_refl, text_eq_iff, length,
  get_elem?, set, take, drop, length-append, length-set, get_elem?-set_self, get_elem?-set_ne,
  length-take, length-drop, take-append-drop, length-map, All, All-map, All-implies,
}
use micro_error_framework.Error.{OperationResult, Outcome}
use micro_error_framework.Pool.Word.{pending_from_state, is_stopping_state, fetch_add, active_unit}
use micro_error_framework.Pool.Slots.{emplace_tail, front, reset_head}
use micro_error_framework.Pool.Task.{TaskItem, bulk_item}
use micro_error_framework.Pool.{Pool, bulk_claim_size, finish_tasks}
use micro_error_framework.Pool.Shutdown.{stop_accepting, clear_queue}

-- The holder of `producer_mutex_`, if there is one: the tasks that it has still to put into the ring,
-- and those that it has put there and not yet counted in the word.
pub data Producer : Type 0 where
  absent : Producer
  filling : List TaskItem → List TaskItem → Producer

-- The holder of `consumer_mutex_`: before it takes the one task that it has found, in the loop of
-- `process_bulk` with the batch so far and the limit, and before it moves its tasks in the word.
pub data Consumer : Type 0 where
  absent taking_one : Consumer
  taking_bulk : List TaskItem → ℕ → Consumer
  taken : List TaskItem → Consumer

-- `running` are the sizes of the batches that workers have claimed and not yet finished.
pub record Machine : Type 0 where
  pub pool : Pool
  pub producer : Producer
  pub consumer : Consumer
  pub running : List ℕ

abbrev pub machine : Pool → Producer → Consumer → List ℕ → Machine
machine pool producer consumer running = record {
  pool = pool;
  producer = producer;
  consumer = consumer;
  running = running;
}

-- What a consumer does after it has seen the front task.
abbrev pub look : Bool → ℕ → Consumer
look bulk pending = if bulk then taking_bulk [] (min bulk_claim_size pending) else taking_one

abbrev pub count : Pool → ℕ → Pool
count p n = record p { queue_state = fetch_add p.queue_state n }

pub data Access : Machine → Machine → Type 0 where
  -- `enqueue`, the load and the tests under the lock
  begins_enqueue :
      (p : Pool) (c : Consumer) (running : List ℕ) (item : TaskItem)
      → is_stopping_state p.queue_state ≡ false
      → (pending_from_state p.queue_state == p.tasks.capacity) ≡ false
      → Access (machine p absent c running) (machine p (filling (item ∷ []) []) c running)
  -- `dispatch_bulk`, the same
  begins_refill :
      (p : Pool) (c : Consumer) (running : List ℕ) (callbacks : List (Outcome OperationResult))
      → is_stopping_state p.queue_state ≡ false
      → (p.tasks.capacity - pending_from_state p.queue_state == 0) ≡ false
      → Access (machine p absent c running) (
          machine p
            (filling
              (map bulk_item (
                take
                  (min (length callbacks) (p.tasks.capacity - pending_from_state p.queue_state))
                  callbacks))
              [])
            c
            running)
  emplaces :
      (p : Pool) (item : TaskItem) (items done : List TaskItem) (c : Consumer) (running : List ℕ)
      → Access (machine p (filling (item ∷ items) done) c running) (
          machine
            (record p { tasks = emplace_tail p.tasks item })
            (filling items (done ++ (item ∷ [])))
            c
            running)
  -- `queue_state_.fetch_add(enqueued)`, and the end of the lock
  counts :
      (p : Pool) (done : List TaskItem) (c : Consumer) (running : List ℕ)
      → Access
          (machine p (filling [] done) c running)
          (machine (count p (length done)) absent c running)
  -- `run`, the load under the lock and the look at the front task
  looks :
      (p : Pool) (q : Producer) (running : List ℕ) (item : TaskItem)
      → (pending_from_state p.queue_state == 0) ≡ false
      → front p.tasks ≡ some item
      → Access
          (machine p q absent running)
          (machine p q (look item.bulk (pending_from_state p.queue_state)) running)
  takes_one :
      (p : Pool) (q : Producer) (running : List ℕ) (item : TaskItem)
      → front p.tasks ≡ some item
      → Access
          (machine p q taking_one running)
          (machine (record p { tasks = reset_head p.tasks }) q (taken (item ∷ [])) running)
  -- an iteration of the loop of `process_bulk`
  takes_bulk :
      (p : Pool) (q : Producer) (running : List ℕ) (batch : List TaskItem) (limit : ℕ)
      (item : TaskItem)
      → length batch < limit
      → front p.tasks ≡ some item
      → item.bulk ≡ true
      → Access (machine p q (taking_bulk batch limit) running) (
          machine
            (record p { tasks = reset_head p.tasks })
            q
            (taking_bulk (batch ++ (item ∷ [])) limit)
            running)
  -- the end of the loop
  fills_up :
      (p : Pool) (q : Producer) (running : List ℕ) (batch : List TaskItem) (limit : ℕ)
      → limit ≤ length batch
      → Access (machine p q (taking_bulk batch limit) running) (machine p q (taken batch) running)
  meets_single :
      (p : Pool) (q : Producer) (running : List ℕ) (batch : List TaskItem) (limit : ℕ)
      (item : TaskItem)
      → length batch < limit
      → front p.tasks ≡ some item
      → item.bulk ≡ false
      → Access (machine p q (taking_bulk batch limit) running) (machine p q (taken batch) running)
  -- `queue_state_.fetch_add(claimed * (active_unit_ - 1))`, and the end of the lock
  claims :
      (p : Pool) (q : Producer) (running : List ℕ) (batch : List TaskItem)
      → Access
          (machine p q (taken batch) running)
          (machine (count p (length batch * (active_unit - 1))) q absent (length batch ∷ running))
  -- `finish_tasks`, under no lock
  finishes :
      (p : Pool) (q : Producer) (c : Consumer) (running : List ℕ) (i n : ℕ)
      → get_elem? running i ≡ some n
      → Access (machine p q c running) (machine (finish_tasks p n).0 q c (set running i 0))
  -- `signal_shutdown`, under `producer_mutex_`
  stops :
      (p : Pool) (c : Consumer) (running : List ℕ)
      → Access (machine p absent c running) (machine (stop_accepting p) absent c running)
  -- `cancel_pending`, under both
  cancels :
      (p p' : Pool) (running : List ℕ) (n : ℕ)
      → clear_queue p ≡ some (p', n)
      → Access (machine p absent absent running) (machine p' absent absent running)
