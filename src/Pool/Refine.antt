-- ===== src/Pool/Refine.antt =====
-- The pool of include/vosp/worker_pool.hpp against what it stands for: a queue of tasks, a number of
-- claimed tasks, and whether it is stopping. Here are the relation and the operations of producers;
-- those of the workers and of a shutdown are in the children.
pub mod Claims
pub mod Workers
pub mod Shutdown
use micro_error_framework.Prelude.{
  ℕ, zero, suc, ◌+◌, ◌-◌, ◌*◌, ◌/◌, ◌%◌, ◌^◌, ◌≤◌, ◌<◌, min, compare, Ordering, bit_xor, String,
  ◌≡◌, refl, sym, ap, ap₂, subst, fun_ext, ◌∙◌, ◌≡⟨◌⟩◌, ◌∎, ◌≢◌, ◌↔◌, ◌⊎◌, inl, inr, Bool, true,
  false, not, ◌&&◌, ◌||◌, Option, none, some, List, [], ◌∷◌, ◌++◌, map, append-nil, append_assoc,
  arith, dec_lt, ℕ_discrete, ltb, leb, ◌==◌, if◌then◌else◌, ltb→lt, lt→ltb, leb→le, ==_iff, ==_refl,
  Bool-cases, Option-cases, is_some, Text, codes, text_eq, text_eq_refl, text_eq_iff, length,
  get_elem?, set, take, drop, length-append, length-set, get_elem?-set_self, get_elem?-set_ne,
  length-take, length-drop, take-append-drop, length-map, All,
}
use micro_error_framework.Error.{OperationResult, Outcome, returned, threw_exception, threw_unknown}
use micro_error_framework.Pool.Word.{
  pending_from_state, is_stopping_state, active_from_state, fetch_add,
}
use micro_error_framework.Pool.Word.Fields.{word, Fits, word_fields, fetch_add-queued}
use micro_error_framework.Pool.Slots.{Ring, create, emplace_tail}
use micro_error_framework.Pool.Slots.Refine.{Represents, create-Represents, emplace_tail-Represents}
use micro_error_framework.Pool.Task.{max_worker_count, max_queue_capacity, TaskItem, bulk_item}
use micro_error_framework.Pool.{
  Pool, construct, pending_tasks, active_tasks, is_stopping, Enqueued, shut_down, full, accepted,
  enqueue, emplace_all, refill,
}

-- `p` holds `queue`, oldest first, and `active` claimed tasks.
pub record IsValid (p : Pool) (queue : List TaskItem) (active : ℕ) (stopping : Bool) : Type 0 where
  pub ring : Represents p.tasks queue
  pub small : p.tasks.capacity ≤ max_queue_capacity
  pub claims : active < 2 ^ 52
  pub state : p.queue_state ≡ word (length queue) active stopping

pub IsValid-Fits :
    (p : Pool) (queue : List TaskItem) (active : ℕ) (stopping : Bool)
    → IsValid p queue active stopping
    → Fits (length queue) active
IsValid-Fits p queue active stopping v = record {
  pending_fits = omega (arith, v.ring.bounded);
  active_fits = v.claims;
}

-- What the queries answer: the length of the queue, the stop flag, and the number of claimed tasks
-- modulo 2048.
pub queries_lem :
    (p : Pool) (queue : List TaskItem) (active : ℕ) (stopping : Bool)
    → IsValid p queue active stopping
    → (pending_from_state p.queue_state ≡ length queue)
      × (active_from_state p.queue_state ≡ active % 2048)
      × (is_stopping_state p.queue_state ≡ stopping)
queries_lem p queue active stopping v =
    rw v.state (word_fields (length queue) active stopping (IsValid-Fits p queue active stopping v))

-- The constructor throws, or gives an idle pool whose limits are in range.
pub construct-IsValid :
    (hardware_concurrency worker_count queue_capacity : ℕ) (p : Pool)
    → construct hardware_concurrency worker_count queue_capacity ≡ returned p
    → IsValid p [] 0 false
      × (1 ≤ p.worker_count)
      × (p.worker_count ≤ max_worker_count)
      × (p.tasks.capacity ≡ queue_capacity)
unfolding construct word
construct-IsValid hardware_concurrency worker_count queue_capacity p h =
    ground (arith, create-Represents {A = TaskItem} queue_capacity)

enqueued-IsValid :
    (p : Pool) (queue : List TaskItem) (active : ℕ) (item : TaskItem)
    → IsValid p queue active false
    → length queue < p.tasks.capacity
    → IsValid
        (record p { tasks = emplace_tail p.tasks item; queue_state = fetch_add p.queue_state 1 })
        (queue ++ (item ∷ []))
        active
        false
unfolding emplace_tail
enqueued-IsValid p queue active item v h =
    let longer = length-append queue (item ∷ []) in
    let fits : Fits (length queue + 1) active = record {
      pending_fits = omega arith;
      active_fits = v.claims;
    } in
    let grown : length queue + 1 ≡ length (queue ++ (item ∷ [])) = omega (arith, longer) in
    record {
      ring = emplace_tail-Represents p.tasks queue item v.ring h;
      small = v.small;
      claims = v.claims;
      state =
          ap (λ s. fetch_add s 1) v.state
          ∙ fetch_add-queued (length queue) active 1 false fits
          ∙ ap (λ n. word n active false) grown;
    }

-- What must hold where a round of `enqueue` ends in each of the three ways; the conditions on the
-- pool exclude one another.
abbrev pub EnqueueSpec :
    (p : Pool) (queue : List TaskItem) (active : ℕ) (stopping : Bool) (item : TaskItem)
    → Enqueued
    → Type 0
EnqueueSpec p queue active stopping item shut_down = stopping ≡ true
EnqueueSpec p queue active stopping item full =
    (stopping ≡ false) × (length queue ≡ p.tasks.capacity)
EnqueueSpec p queue active stopping item (accepted q) =
    (stopping ≡ false)
    × (length queue < p.tasks.capacity)
    × IsValid q (queue ++ (item ∷ [])) active false
    × (q ≡ record p { tasks = q.tasks; queue_state = q.queue_state })

-- On a valid pool, a round of `enqueue` throws exactly if the pool is stopping, waits exactly if it
-- is full, and otherwise puts the task at the end of the queue and changes nothing else.
pub enqueue_lem :
    (p : Pool) (queue : List TaskItem) (active : ℕ) (stopping : Bool) (item : TaskItem)
    → IsValid p queue active stopping
    → EnqueueSpec p queue active stopping item (enqueue p item)
unfolding enqueue
enqueue_lem p queue active true item v = rw ((queries_lem p queue active true v).2, enqueue) refl
enqueue_lem p queue active false item v =
    let fields = queries_lem p queue active false v in
    elim (Bool-cases (pending_from_state p.queue_state == p.tasks.capacity)) [
      | inl e ↦ rw (fields.2, e) (refl, sym fields.0 ∙ (==_iff _ _).0 e)
      | inr e ↦
          let room : length queue < p.tasks.capacity = ground (arith, fields.0, v.ring.bounded) in
          rw (fields.2, e) (refl, room, enqueued-IsValid p queue active item v room, refl)
    ]

emplace_all-Represents :
    (r : Ring TaskItem) (queue items : List TaskItem)
    → Represents r queue
    → length queue + length items ≤ r.capacity
    → Represents (emplace_all r items) (queue ++ items)
unfolding emplace_all
emplace_all-Represents r queue [] v h = subst (Represents r) (sym (append-nil queue)) v
emplace_all-Represents r queue (x ∷ items) v h =
    let one = emplace_tail-Represents r queue x v (omega arith) in
    let longer = length-append queue (x ∷ []) in
    subst (Represents (emplace_all (emplace_tail r x) items)) (append_assoc queue (x ∷ []) items) (
      emplace_all-Represents (emplace_tail r x) (queue ++ (x ∷ [])) items one
        (emplace_capacity r x (omega (arith, longer))))
  where
    emplace_capacity :
        (s : Ring TaskItem) (y : TaskItem) {n : ℕ}
        → n ≤ s.capacity
        → n ≤ (emplace_tail s y).capacity
    emplace_capacity s y k = unfold emplace_tail in k

-- What must hold where `refill` ends: it sees the pool stopping, or it has put as many callbacks as
-- there was room for at the end of the queue, in their order, each marked as bulk.
abbrev pub RefillSpec :
    (p : Pool) (queue : List TaskItem) (active : ℕ) (stopping : Bool)
    (callbacks : List (Outcome OperationResult))
    → Option (Pool × ℕ)
    → Type 0
RefillSpec p queue active stopping callbacks none = stopping ≡ true
RefillSpec p queue active stopping callbacks (some (q, n)) =
    (stopping ≡ false)
    × (n ≡ min (length callbacks) (p.tasks.capacity - length queue))
    × IsValid q (queue ++ map bulk_item (take n callbacks)) active false
    × (q.tasks.capacity ≡ p.tasks.capacity)

length-taken :
    (n : ℕ) (callbacks : List (Outcome OperationResult))
    → n ≤ length callbacks
    → length (map bulk_item (take n callbacks)) ≡ n
length-taken n callbacks h =
    omega (arith, length-map bulk_item (take n callbacks), length-take n callbacks)

capacity-emplace_all :
    (r : Ring TaskItem) (items : List TaskItem) → (emplace_all r items).capacity ≡ r.capacity
unfolding emplace_all emplace_tail
capacity-emplace_all r [] = refl
capacity-emplace_all r (x ∷ items) = capacity-emplace_all (emplace_tail r x) items

-- On a valid pool, a refill of `dispatch_bulk` stops exactly if the pool is stopping. Otherwise it
-- takes the first callbacks, as many as there is room for, and puts them at the end of the queue in
-- their order.
pub refill_lem :
    (p : Pool) (queue : List TaskItem) (active : ℕ) (stopping : Bool)
    (callbacks : List (Outcome OperationResult))
    → IsValid p queue active stopping
    → RefillSpec p queue active stopping callbacks (refill p callbacks)
unfolding refill
refill_lem p queue active true callbacks v = rw ((queries_lem p queue active true v).2, refill) refl
refill_lem p queue active false callbacks v =
    let fields = queries_lem p queue active false v in
    let n = min (length callbacks) (p.tasks.capacity - length queue) in
    let items = map bulk_item (take n callbacks) in
    let many = length-taken n callbacks (omega arith) in
    let fits : Fits (length queue + n) active = record {
      pending_fits = omega (arith, v.ring.bounded, v.small);
      active_fits = v.claims;
    } in
    let grown : length queue + n ≡ length (queue ++ items) =
      omega (arith, many, length-append queue items) in
    rw (fields.2, fields.0)
      (
        refl,
        refl,
        record {
          ring =
              emplace_all-Represents p.tasks queue items v.ring
                (omega (arith, many, v.ring.bounded));
          small = rw (capacity-emplace_all p.tasks items) v.small;
          claims = v.claims;
          state =
              ap (λ s. fetch_add s n) v.state
              ∙ fetch_add-queued (length queue) active n false fits
              ∙ ap (λ m. word m active false) grown;
        },
        capacity-emplace_all p.tasks items,
      )
