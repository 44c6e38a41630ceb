-- ===== src/Pool/Bulk/Tests.antt =====
-- `dispatch_bulk` of include/vosp/worker_pool.hpp on three callbacks and a queue of two slots.
use micro_error_framework.Prelude.{ℕ, ◌+◌, ◌≡◌, refl, true, false, none, some, List, [], ◌∷◌, arith}
use micro_error_framework.Error.{ok, OperationResult, Outcome, returned, threw_unknown}
use micro_error_framework.Pool.Word.{is_stopping_state, pending_from_state}
use micro_error_framework.Pool.Word.Fields.{word}
use micro_error_framework.Pool.Slots.{Ring, next_queue_index}
use micro_error_framework.Pool.Task.{TaskItem, bulk_item}
use micro_error_framework.Pool.{Pool}
use micro_error_framework.Pool.Bulk.{
  Round, BulkSpec, dispatch_bulk, pools_of, dispatch_bulk_lem, dispatch_bulk-returns,
}

abbrev callbacks : List (Outcome OperationResult)
callbacks = returned (ok tt) ∷ threw_unknown ∷ returned (ok tt) ∷ []

abbrev two_slots : Ring TaskItem → ℕ → Pool
two_slots tasks queue_state = record {
  worker_count = 1;
  tasks = tasks;
  queue_state = queue_state;
  failed_dispatches = 0;
  cancelled_dispatches = 0;
  futures = [];
  stop_requested = false;
  joining = false;
}

-- The pool is empty at first.
abbrev empty : Round
unfolding word
empty = record {
  pool = two_slots (record { slots = none ∷ none ∷ []; capacity = 2; head = 0; tail = 0 }) 0;
  queue = [];
  active = 0;
  stopping = false;
  valid = record {
    ring = record {
      sized = refl;
      head_in = omega arith;
      bounded = omega arith;
      ends = refl;
      holds = tt;
    };
    small = omega arith;
    claims = omega arith;
    state = refl;
  };
}

-- Later a worker has claimed one of the two tasks.
abbrev half_full : Round
unfolding word next_queue_index
half_full = record {
  pool =
      two_slots
        (record {
          slots = none ∷ some (bulk_item threw_unknown) ∷ [];
          capacity = 2;
          head = 1;
          tail = 0;
        })
        (1 + 2048);
  queue = bulk_item threw_unknown ∷ [];
  active = 1;
  stopping = false;
  valid = record {
    ring = record {
      sized = refl;
      head_in = omega arith;
      bounded = omega arith;
      ends = refl;
      holds = (refl, tt);
    };
    small = omega arith;
    claims = omega arith;
    state = refl;
  };
}

abbrev rounds : List Round
rounds = empty ∷ half_full ∷ half_full ∷ []

accepted-callbacks : (dispatch_bulk (pools_of rounds) callbacks).accepted ≡ 3
unfolding dispatch_bulk is_stopping_state pending_from_state empty half_full
accepted-callbacks = refl

dispatch_bulk_lem_example : BulkSpec rounds callbacks (dispatch_bulk (pools_of rounds) callbacks)
dispatch_bulk_lem_example = dispatch_bulk_lem rounds callbacks

dispatch_bulk-returns_example :
    ((dispatch_bulk (pools_of rounds) callbacks).returns ≡ true)
    × ((dispatch_bulk (pools_of rounds) callbacks).accepted ≡ 3)
unfolding empty half_full
dispatch_bulk-returns_example =
    dispatch_bulk-returns rounds callbacks
      ((refl, omega arith), ((refl, omega arith), ((refl, omega arith), tt))) (omega arith)
