-- ===== src/Pool/Overlap/Tests.antt =====
-- A producer and a consumer of include/vosp/worker_pool.hpp in their sections at the same time.
use micro_error_framework.Prelude.{
  ◌+◌, ◌*◌, ◌≡◌, refl, false, none, some, List, [], ◌∷◌, ◌++◌, arith,
}
use micro_error_framework.Error.{threw_unknown, returned}
use micro_error_framework.Pool.Word.Fields.{word}
use micro_error_framework.Pool.Slots.{create, front, emplace_tail, next_queue_index}
use micro_error_framework.Pool.Task.{TaskItem, dispatch_item}
use micro_error_framework.Pool.{Pool}
use micro_error_framework.Pool.Overlap.Sections.{Accesses, claim-Accesses}
use micro_error_framework.Pool.Word.{is_stopping_state, pending_from_state, fetch_add}
use micro_error_framework.Pool.Slots.{reset_head}
use micro_error_framework.Pool.{construct, validate_queue_capacity, claim, claim_seen}
use micro_error_framework.Pool.Overlap.{
  Consumer, absent, filling, taking_one, Machine, machine, emplaces, begins_enqueue, counts, looks,
}
use micro_error_framework.Pool.Overlap.Abstract.{Queue}
use micro_error_framework.Pool.Overlap.Invariant.{Stands}
use micro_error_framework.Pool.Overlap.Producers.{Moves}
use micro_error_framework.Pool.Overlap.Steps.{Access-Moves}
use micro_error_framework.Pool.Overlap.Reach.{AccessReach, here, next, consumer-served}

abbrev item : TaskItem
item = dispatch_item threw_unknown

-- One of two slots taken, one task claimed.
abbrev half_full : Pool
half_full = record {
  worker_count = 2;
  tasks = record { slots = some item ∷ none ∷ []; capacity = 2; head = 0; tail = 1 };
  queue_state = 1 + 2048;
  failed_dispatches = 0;
  cancelled_dispatches = 0;
  futures = [];
  stop_requested = false;
  joining = false;
}

-- The consumer has seen the front task; the producer is about to write its own.
abbrev both : Machine
both = machine half_full (filling (item ∷ []) []) taking_one (1 ∷ [])

abbrev one_task : Queue
one_task = record { tasks = item ∷ []; active = 1; stopping = false }

both-Stands : Stands both one_task
unfolding word next_queue_index
both-Stands = record {
  rest = item ∷ [];
  queue = refl;
  ring = record {
    sized = refl;
    head_in = omega arith;
    bounded = omega arith;
    ends = refl;
    holds = (refl, tt);
  };
  small = omega arith;
  state = refl;
  claims = refl;
  room = omega arith;
  admits = refl;
  served = omega arith;
  counter = omega arith;
}

Access-Moves_example : Moves one_task (
    machine
      (record half_full { tasks = emplace_tail half_full.tasks item })
      (filling [] (item ∷ []))
      taking_one
      (1 ∷ []))
Access-Moves_example =
    Access-Moves both _ one_task (emplaces half_full item [] [] taking_one (1 ∷ [])) both-Stands
      (omega arith)

-- A pool of two workers and two slots, as constructed; one task is submitted, and a consumer sees it.
abbrev new : Pool
new = record {
  worker_count = 2;
  tasks = record { slots = none ∷ none ∷ []; capacity = 2; head = 0; tail = 0 };
  queue_state = 0;
  failed_dispatches = 0;
  cancelled_dispatches = 0;
  futures = [];
  stop_requested = false;
  joining = false;
}

constructing : construct 4 2 2 ≡ returned new
unfolding construct create validate_queue_capacity
constructing = refl

abbrev emplaced_one : Pool
emplaced_one = record new {
  tasks = record { slots = some item ∷ none ∷ []; capacity = 2; head = 0; tail = 1 };
}

abbrev counted : Pool
counted = record emplaced_one { queue_state = 1 }

to_looking : AccessReach new (machine counted absent taking_one [])
unfolding is_stopping_state pending_from_state emplace_tail next_queue_index fetch_add front
    dispatch_item
to_looking =
    next
      (next
        (next (next here (omega arith) (begins_enqueue new Consumer.absent [] item refl refl))
          (omega arith) (emplaces new item [] [] Consumer.absent []))
        (omega arith) (counts emplaced_one (item ∷ []) Consumer.absent []))
      (omega arith) (looks counted absent [] item refl refl)

consumer-served_example :
    (a : Queue) × (x : TaskItem) × (later : List TaskItem) × Stands
      (machine counted absent taking_one [])
      a
    × (front counted.tasks ≡ some x)
    × (a.tasks ≡ [] ++ (x ∷ later))
consumer-served_example =
    consumer-served 4 2 2 new (machine counted absent taking_one []) constructing to_looking tt

abbrev claimed : Pool
claimed = record half_full {
  tasks = record { slots = none ∷ none ∷ []; capacity = 2; head = 1; tail = 1 };
  queue_state = 2 * 2048;
}

claim-half_full : claim half_full ≡ some (claimed, item ∷ [])
unfolding claim claim_seen front reset_head pending_from_state fetch_add next_queue_index
    dispatch_item
claim-half_full = refl

claim-Accesses_half_full :
    Accesses
      (machine half_full absent Consumer.absent (1 ∷ []))
      (machine claimed absent Consumer.absent (1 ∷ (1 ∷ [])))
unfolding pending_from_state
claim-Accesses_half_full =
    claim-Accesses half_full (claimed, item ∷ []) absent (1 ∷ []) claim-half_full refl
