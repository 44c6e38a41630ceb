-- ===== src/Pool/Overlap/Consumers.antt =====
-- The accesses of the consumers of include/vosp/worker_pool.hpp, with a producer at work, and those of
-- other threads.
use mathlib.Core.Option.{some-injective}
use micro_error_framework.Prelude.{
  ℕ, ◌^◌, ◌≤◌, ◌<◌, min, ◌≡◌, refl, sym, ap, ◌∙◌, inl, inr, true, false, some, List, [], ◌∷◌, ◌++◌,
  append_assoc, arith, ◌==◌, Bool-cases, length, length-append, All,
}
use micro_error_framework.Pool.Word.{pending_from_state}
use micro_error_framework.Pool.Slots.{Ring, front, reset_head}
use micro_error_framework.Pool.Slots.Refine.{Represents, reset_head-Represents}
use micro_error_framework.Pool.Task.{TaskItem}
use micro_error_framework.Pool.{Pool, bulk_claim_size}
use micro_error_framework.Pool.Overlap.{
  Producer, absent, Consumer, taking_one, taking_bulk, taken, machine, look,
}
use micro_error_framework.Pool.Overlap.Abstract.{Queue}
use micro_error_framework.Pool.Overlap.Invariant.{emplaced, in_hand, IsServed, Stands, loads}
use micro_error_framework.Pool.Overlap.Producers.{Moves}

-- The task that a consumer finds at the front of the ring is the oldest that is left of the queue.
pub record Front (r : Ring TaskItem) (rest more : List TaskItem) (item : TaskItem) : Type 0 where
  pub later : List TaskItem
  pub first : rest ≡ item ∷ later
  pub ring : Represents (reset_head r) (later ++ more)

pub front-first :
    (r : Ring TaskItem) (rest more : List TaskItem) (item : TaskItem)
    → Represents r (rest ++ more)
    → 1 ≤ length rest
    → front r ≡ some item
    → Front r rest more item
front-first r [] more item v h e = absurd (omega arith)
front-first r (x ∷ rest) more item v h e =
    let (here, later) = reset_head-Represents r x (rest ++ more) v in
    let same : x ≡ item = some-injective _ _ (sym here ∙ e) in
    record { later = rest; first = ap (λ y. y ∷ rest) same; ring = later }

-- A consumer that has not moved its tasks in the word leaves the queue as it is.
still :
    (p p' : Pool) (q : Producer) (c c' : Consumer) (running : List ℕ) (rest : List TaskItem)
    (a : Queue)
    → Stands (machine p q c running) a
    → p' ≡ record p { tasks = p'.tasks }
    → p'.tasks.capacity ≡ p.tasks.capacity
    → a.tasks ≡ in_hand c' ++ rest
    → Represents p'.tasks (rest ++ emplaced q)
    → IsServed c' rest
    → Moves a (machine p' q c' running)
still p p' q c c' running rest a v same kept queue ring served = record {
  after = a;
  follows = inl refl;
  stands = record {
    rest = rest;
    queue = queue;
    ring = ring;
    small = rw kept v.small;
    state = ap (λ s. s.queue_state) same ∙ v.state;
    claims = v.claims;
    room = omega (arith, v.room, kept);
    admits = v.admits;
    served = served;
    counter = rw (ap (λ s. s.cancelled_dispatches) same) v.counter;
  };
}

pub look-Moves :
    (p : Pool) (q : Producer) (running : List ℕ) (item : TaskItem) (a : Queue)
    → Stands (machine p q absent running) a
    → a.active < 2 ^ 52
    → (pending_from_state p.queue_state == 0) ≡ false
    → front p.tasks ≡ some item
    → Moves a (machine p q (look item.bulk (pending_from_state p.queue_state)) running)
look-Moves p q running item a v h some_task e =
    let pending = (loads (machine p q absent running) a v h).0 in
    let size = ap length v.queue in
    let some_left : 1 ≤ length v.rest = ground (arith, pending, size) in
    let f = front-first p.tasks v.rest (emplaced q) item v.ring some_left e in
    elim (Bool-cases item.bulk) [
      | inl b ↦ rw (b) (
          still p p q absent
            (taking_bulk [] (min bulk_claim_size (pending_from_state p.queue_state))) running v.rest
            a v refl refl v.queue v.ring
            (
              omega (arith, pending, size),
              omega arith,
              omega (arith, pending, size, some_left),
              omega arith,
              tt,
              inr (item, f.later, f.first, b),
            ))
      | inr n ↦
          rw (n)
            (still p p q absent taking_one running v.rest a v refl refl v.queue v.ring some_left)
    ]

capacity-reset_head : (r : Ring TaskItem) → (reset_head r).capacity ≡ r.capacity
unfolding reset_head
capacity-reset_head r = refl

pub take_one-Moves :
    (p : Pool) (q : Producer) (running : List ℕ) (item : TaskItem) (a : Queue)
    → Stands (machine p q taking_one running) a
    → front p.tasks ≡ some item
    → Moves a (machine (record p { tasks = reset_head p.tasks }) q (taken (item ∷ [])) running)
take_one-Moves p q running item a v e =
    let f = front-first p.tasks v.rest (emplaced q) item v.ring v.served e in
    still p (record p { tasks = reset_head p.tasks }) q taking_one (taken (item ∷ [])) running
      f.later a v refl (capacity-reset_head p.tasks) (v.queue ∙ f.first) f.ring
      (omega arith, omega arith, inl refl)

All-end :
    (batch : List TaskItem) (item : TaskItem)
    → All (λ x. x.bulk ≡ true) batch
    → item.bulk ≡ true
    → All (λ x. x.bulk ≡ true) (batch ++ (item ∷ []))
All-end [] item h b = (b, tt)
All-end (x ∷ batch) item h b = (h.0, All-end batch item h.1 b)

pub take_bulk-Moves :
    (p : Pool) (q : Producer) (running : List ℕ) (batch : List TaskItem) (limit : ℕ)
    (item : TaskItem) (a : Queue)
    → Stands (machine p q (taking_bulk batch limit) running) a
    → length batch < limit
    → front p.tasks ≡ some item
    → item.bulk ≡ true
    → Moves a (
        machine
          (record p { tasks = reset_head p.tasks })
          q
          (taking_bulk (batch ++ (item ∷ [])) limit)
          running)
take_bulk-Moves p q running batch limit item a v more e b =
    let (enough, within, positive, few, bulk, first) = v.served in
    let f = front-first p.tasks v.rest (emplaced q) item v.ring (omega arith) e in
    let longer = length-append batch (item ∷ []) in
    still p (record p { tasks = reset_head p.tasks }) q (taking_bulk batch limit)
      (taking_bulk (batch ++ (item ∷ [])) limit) running f.later a v refl
      (capacity-reset_head p.tasks)
      (v.queue ∙ ap (λ l. batch ++ l) f.first ∙ sym (append_assoc batch (item ∷ []) f.later)) f.ring
      (
        omega (arith, enough, longer, ap length f.first),
        omega (arith, longer),
        positive,
        few,
        All-end batch item bulk b,
        inl (omega (arith, longer)),
      )

pub fill_up-Moves :
    (p : Pool) (q : Producer) (running : List ℕ) (batch : List TaskItem) (limit : ℕ) (a : Queue)
    → Stands (machine p q (taking_bulk batch limit) running) a
    → limit ≤ length batch
    → Moves a (machine p q (taken batch) running)
fill_up-Moves p q running batch limit a v full =
    let (enough, within, positive, few, bulk, first) = v.served in
    still p p q (taking_bulk batch limit) (taken batch) running v.rest a v refl refl v.queue v.ring
      (omega arith, omega arith, inr bulk)

pub meet_single-Moves :
    (p : Pool) (q : Producer) (running : List ℕ) (batch : List TaskItem) (limit : ℕ)
    (item : TaskItem) (a : Queue)
    → Stands (machine p q (taking_bulk batch limit) running) a
    → length batch < limit
    → front p.tasks ≡ some item
    → item.bulk ≡ false
    → Moves a (machine p q (taken batch) running)
meet_single-Moves p q running batch limit item a v more e n =
    let (enough, within, positive, few, bulk, first) = v.served in
    let f = front-first p.tasks v.rest (emplaced q) item v.ring (omega arith) e in
    let begun : 1 ≤ length batch = elim first [
      | inl h ↦ h
      | inr (x, xs, there, b) ↦
          let both : x ∷ xs ≡ item ∷ f.later = sym there ∙ f.first in ground (arith, both, b, n)
    ] in
    still p p q (taking_bulk batch limit) (taken batch) running v.rest a v refl refl v.queue v.ring
      (begun, omega arith, inr bulk)
