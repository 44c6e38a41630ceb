-- ===== src/Pool/Tests.antt =====
-- Runs of include/vosp/worker_pool.hpp, and the theorems on its sections at concrete inputs.
use micro_error_framework.Prelude.{
  ◌+◌, ◌≡◌, refl, ◌≢◌, true, false, none, some, List, [], ◌∷◌, arith,
}
use micro_error_framework.Error.{OperationResult, ok, Outcome, returned, threw_unknown}
use micro_error_framework.Pool.Word.{pending_from_state, is_stopping_state}
use micro_error_framework.Pool.Word.Fields.{word}
use micro_error_framework.Pool.Slots.{next_queue_index}
use micro_error_framework.Pool.Task.{TaskItem, submit_item, dispatch_item, drain, cancel_pending}
use micro_error_framework.Pool.{Pool, construct, enqueue, full, refill, claim}
use micro_error_framework.Pool.Shutdown.{clear_queue, signal_shutdown}
use micro_error_framework.Pool.Refine.{IsValid, EnqueueSpec, enqueue_lem, RefillSpec, refill_lem}
use micro_error_framework.Pool.Refine.Claims.{Claimed, claimable, claim_lem}
use micro_error_framework.Pool.Refine.Shutdown.{
  Cleared, clear_queue_lem, cancellations, signal_shutdown_lem,
}

abbrev succeeds : Outcome OperationResult
succeeds = returned (ok tt)

-- Two workers and two slots.
abbrev fresh : Pool
fresh = record {
  worker_count = 2;
  tasks = record { slots = none ∷ none ∷ []; capacity = 2; head = 0; tail = 0 };
  queue_state = 0;
  failed_dispatches = 0;
  cancelled_dispatches = 0;
  futures = [];
  stop_requested = false;
  joining = false;
}

construct-fresh : construct 8 2 2 ≡ returned fresh
unfolding construct
construct-fresh = refl

construct-hardware : construct 0 0 2 ≢ returned fresh
unfolding construct
construct-hardware h = cc

fresh-IsValid : IsValid fresh [] 0 false
unfolding word
fresh-IsValid = record {
  ring = record {
    sized = refl;
    head_in = omega arith;
    bounded = omega arith;
    ends = refl;
    holds = tt;
  };
  small = omega arith;
  claims = omega arith;
  state = refl;
}

-- Both slots taken; one task is claimed.
abbrev busy : Pool
busy = record fresh {
  tasks = record {
    slots = some (submit_item succeeds 4) ∷ some (dispatch_item threw_unknown) ∷ [];
    capacity = 2;
    head = 1;
    tail = 1;
  };
  queue_state = 2 + 2048;
}

abbrev waiting : List TaskItem
waiting = dispatch_item threw_unknown ∷ submit_item succeeds 4 ∷ []

busy-IsValid : IsValid busy waiting 1 false
unfolding word next_queue_index
busy-IsValid = record {
  ring = record {
    sized = refl;
    head_in = omega arith;
    bounded = omega arith;
    ends = refl;
    holds = (refl, (refl, tt));
  };
  small = omega arith;
  claims = omega arith;
  state = refl;
}

enqueue-busy : enqueue busy (dispatch_item succeeds) ≡ full
unfolding enqueue is_stopping_state pending_from_state
enqueue-busy = refl

enqueue_lem_example :
    EnqueueSpec fresh [] 0 false (submit_item succeeds 4) (enqueue fresh (submit_item succeeds 4))
enqueue_lem_example = enqueue_lem fresh [] 0 false (submit_item succeeds 4) fresh-IsValid

refill_lem_example :
    RefillSpec fresh [] 0 false
      (succeeds ∷ threw_unknown ∷ succeeds ∷ [])
      (refill fresh (succeeds ∷ threw_unknown ∷ succeeds ∷ []))
refill_lem_example =
    refill_lem fresh [] 0 false (succeeds ∷ threw_unknown ∷ succeeds ∷ []) fresh-IsValid

claim_lem_example : Claimed busy waiting 1 (claimable waiting) false (claim busy)
claim_lem_example = claim_lem busy waiting 1 false busy-IsValid (omega arith)

clear_queue_lem_example : Cleared busy waiting 1 false (clear_queue busy)
clear_queue_lem_example = clear_queue_lem busy waiting 1 false busy-IsValid (omega arith)

signal_shutdown_lem_example :
    ((q : Pool) × (signal_shutdown busy drain ≡ some q)
      × IsValid q waiting 1 true
      × (q.futures ≡ [])
      × (q.cancelled_dispatches ≡ 0)
      × (q.stop_requested ≡ false))
    × ((q : Pool) × (signal_shutdown busy cancel_pending ≡ some q)
        × IsValid q [] 1 true
        × (q.futures ≡ cancellations waiting)
        × (q.cancelled_dispatches ≡ 1)
        × (q.stop_requested ≡ true))
unfolding dispatch_item submit_item
signal_shutdown_lem_example = signal_shutdown_lem busy waiting 1 false busy-IsValid (omega arith)
