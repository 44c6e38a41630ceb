-- ===== src/Pool/Overlap/Producers.antt =====
-- The accesses of the producers of include/vosp/worker_pool.hpp, with a consumer at work.
use micro_error_framework.Prelude.{
  ℕ, ◌+◌, ◌^◌, ◌≤◌, ◌<◌, ◌≡◌, refl, sym, ap, subst, ◌∙◌, inl, inr, true, false, List, [], ◌∷◌, ◌++◌,
  append-nil, append_assoc, arith, length, length-append,
}
use micro_error_framework.Pool.Word.{fetch_add, fetch_or_stopping}
use micro_error_framework.Pool.Word.Fields.{word, Fits, fetch_add-queued, fetch_or_stopping-word}
use micro_error_framework.Pool.Word.{fetch_add, fetch_or_stopping}
use micro_error_framework.Pool.Slots.{emplace_tail}
use micro_error_framework.Pool.Slots.Refine.{Represents, emplace_tail-Represents}
use micro_error_framework.Pool.Task.{TaskItem}
use micro_error_framework.Pool.{Pool}
use micro_error_framework.Pool.Shutdown.{stop_accepting}
use micro_error_framework.Pool.Overlap.{
  absent, filling, Consumer, taking_one, taking_bulk, taken, Machine, machine, count,
}
use micro_error_framework.Pool.Overlap.Abstract.{Queue, appends, closes, Follows}
use micro_error_framework.Pool.Overlap.Invariant.{in_hand, IsServed, Stands, Stands-Fits}

-- A machine stands for a queue that is as it was, or one step on.
pub record Moves (a : Queue) (m : Machine) : Type 0 where
  pub after : Queue
  pub follows : Follows m.pool.tasks.capacity a after
  pub stands : Stands m after

-- A section begins for tasks that there is room for.
pub begins :
    (p : Pool) (c : Consumer) (running : List ℕ) (items : List TaskItem) (a : Queue)
    → Stands (machine p absent c running) a
    → length a.tasks + length items ≤ p.tasks.capacity
    → a.stopping ≡ false
    → Moves a (machine p (filling items []) c running)
begins p c running items a v room admits = record {
  after = a;
  follows = inl refl;
  stands = record {
    rest = v.rest;
    queue = v.queue;
    ring = v.ring;
    small = v.small;
    state = v.state;
    claims = v.claims;
    room = omega arith;
    admits = admits;
    served = v.served;
    counter = v.counter;
  };
}

pub emplace-Moves :
    (p : Pool) (item : TaskItem) (items done : List TaskItem) (c : Consumer) (running : List ℕ)
    (a : Queue)
    → Stands (machine p (filling (item ∷ items) done) c running) a
    → Moves a (
        machine
          (record p { tasks = emplace_tail p.tasks item })
          (filling items (done ++ (item ∷ [])))
          c
          running)
unfolding emplace_tail
emplace-Moves p item items done c running a v =
    let free : length (v.rest ++ done) < p.tasks.capacity = omega (
      arith,
      v.room,
      ap length v.queue,
      length-append (in_hand c) v.rest,
      length-append v.rest done,
    ) in
    record {
      after = a;
      follows = inl refl;
      stands = record {
        rest = v.rest;
        queue = v.queue;
        ring =
            subst (Represents (emplace_tail p.tasks item)) (append_assoc v.rest done (item ∷ []))
              (emplace_tail-Represents p.tasks (v.rest ++ done) item v.ring free);
        small = v.small;
        state = v.state;
        claims = v.claims;
        room = omega (arith, v.room, length-append done (item ∷ []));
        admits = v.admits;
        served = v.served;
        counter = v.counter;
      };
    }

-- More tasks behind what the ring has of the queue do not disturb the consumer.
IsServed-longer :
    (c : Consumer) (rest more : List TaskItem) → IsServed c rest → IsServed c (rest ++ more)
IsServed-longer Consumer.absent rest more h = tt
IsServed-longer taking_one rest more h = omega (arith, length-append rest more)
IsServed-longer (taking_bulk batch limit) rest more (enough, within, positive, few, bulk, first) = (
  omega (arith, enough, length-append rest more),
  within,
  positive,
  few,
  bulk,
  elim first [
    | inl begun ↦ inl begun
    | inr (x, xs, e, b) ↦ inr (x, xs ++ more, ap (λ l. l ++ more) e, b)
  ],
)
IsServed-longer (taken batch) rest more h = h

pub count-Moves :
    (p : Pool) (done : List TaskItem) (c : Consumer) (running : List ℕ) (a : Queue)
    → Stands (machine p (filling [] done) c running) a
    → a.active < 2 ^ 52
    → Moves a (machine (count p (length done)) absent c running)
count-Moves p done c running a v h =
    let grown = length-append a.tasks done in
    let fits : Fits (length a.tasks + length done) a.active = record {
      pending_fits = omega (arith, v.room, v.small);
      active_fits = h;
    } in
    record {
      after = record a { tasks = a.tasks ++ done };
      follows = inr (appends done v.admits (omega (arith, v.room)));
      stands = record {
        rest = v.rest ++ done;
        queue = ap (λ l. l ++ done) v.queue ∙ append_assoc (in_hand c) v.rest done;
        ring = subst (Represents p.tasks) (sym (append-nil (v.rest ++ done))) v.ring;
        small = v.small;
        state =
            ap (λ s. fetch_add s (length done)) v.state
            ∙ fetch_add-queued (length a.tasks) a.active (length done) a.stopping fits
            ∙ ap (λ n. word n a.active a.stopping) (sym grown);
        claims = v.claims;
        room = omega (arith, v.room, grown);
        admits = tt;
        served = IsServed-longer c v.rest done v.served;
        counter = v.counter;
      };
    }

pub stop-Moves :
    (p : Pool) (c : Consumer) (running : List ℕ) (a : Queue)
    → Stands (machine p absent c running) a
    → a.active < 2 ^ 52
    → Moves a (machine (stop_accepting p) absent c running)
unfolding stop_accepting
stop-Moves p c running a v h = record {
  after = record a { stopping = true };
  follows = inr closes;
  stands = record {
    rest = v.rest;
    queue = v.queue;
    ring = v.ring;
    small = v.small;
    state =
        ap fetch_or_stopping v.state
        ∙ fetch_or_stopping-word (length a.tasks) a.active a.stopping
            (Stands-Fits (machine p absent c running) a v h);
    claims = v.claims;
    room = v.room;
    admits = tt;
    served = v.served;
    counter = v.counter;
  };
}
