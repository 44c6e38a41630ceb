-- ===== src/Async/Tests.antt =====
-- The theorems on the asynchronous logger at concrete inputs (include/vosp/logger.hpp).
use micro_error_framework.Prelude.{
  ℕ, ◌+◌, ◌≤◌, ◌≡◌, refl, Bool, true, false, some, List, [], ◌∷◌, ◌++◌, map, Text, codes,
}
use micro_error_framework.Error.{Error, Category, Outcome, returned}
use micro_error_framework.Logger.{Level, Policy, accepts, MetadataPolicy, LogEntry}
use micro_error_framework.Sync.{Logger, write_entry}
use micro_error_framework.Async.{
  PendingRecord, waiting, delivering, finished, AsyncLogger, construct, enqueue, take_batch,
  deliver_next, finish_batch, is_drained, signal_shutdown, System, Step, writes, takes, delivers,
  finishes, shuts_down, Reach, here, next,
}
use micro_error_framework.Async.Invariant.{IsOrdered}
use micro_error_framework.Async.Steps.{Step-IsOrdered, Reach-IsOrdered}
use micro_error_framework.Async.Delivery.{flush_complete, shutdown_complete}
use micro_error_framework.Async.Drain.{work, Rounds, done, more, Rounds-le, shutdown_drains}

-- The world lists what each sink was given. Every sink accepts.
abbrev World : Type 0
World = List (ℕ × Text)

abbrev write_to : World → ℕ → LogEntry → World × Outcome Bool
write_to w sink entry = (w ++ ((sink, entry.error.message) ∷ []), returned true)

abbrev refused : Error
refused = record { message = codes "refused"; code = 7; category = Category.network }

abbrev errors_only : Policy
errors_only = Policy.minimum_level Level.error

abbrev full : MetadataPolicy
full = MetadataPolicy.full_metadata

abbrev one_sink : Logger
one_sink = record {
  sinks = record { sink = 4; owned = false } ∷ [];
  single_non_owning_sink = some 4;
}

abbrev AStep : System World → System World → Type 0
AStep = Step write_to errors_only full

abbrev AReach : System World → Type 0
AReach = Reach write_to errors_only full [] one_sink

abbrev pending : PendingRecord
pending = record { level = Level.error; error = refused }

abbrev fresh : AsyncLogger World
fresh = record {
  world = [];
  backend = one_sink;
  queue = [];
  batch = [];
  worker = waiting;
  failed_records = 0;
  stopping = false;
  batch_active = false;
}

abbrev queued : AsyncLogger World
queued = record fresh { queue = pending ∷ [] }

abbrev taken : AsyncLogger World
taken = record fresh { batch = pending ∷ []; worker = delivering; batch_active = true }

abbrev delivered : AsyncLogger World
delivered = record taken { batch = []; world = (4, codes "refused") ∷ [] }

abbrev drained : AsyncLogger World
drained = record delivered { worker = waiting; batch_active = false }

abbrev stopped : AsyncLogger World
stopped = record drained { stopping = true }

abbrev over : AsyncLogger World
over = record stopped { worker = finished }

abbrev at_start : System World
at_start = record { logger = fresh; accepted = []; delivered = [] }

abbrev with_queue : System World
with_queue = record { logger = queued; accepted = pending ∷ []; delivered = [] }

abbrev after_delivery : AsyncLogger World → System World
after_delivery a = record { logger = a; accepted = pending ∷ []; delivered = (pending, true) ∷ [] }

accepted : accepts errors_only Level.error ≡ true
unfolding accepts
accepted = refl

put : enqueue errors_only fresh Level.error refused ≡ some (queued, true)
unfolding enqueue accepts
put = refl

writing : AStep at_start with_queue
writing = writes Level.error refused queued accepted put

taking : AStep with_queue (record with_queue { logger = taken })
unfolding take_batch
taking = takes taken refl refl

delivering_it : AStep (record with_queue { logger = taken }) (after_delivery delivered)
unfolding deliver_next write_entry accepts
delivering_it = delivers 11 2 delivered pending true refl refl

finishing : AStep (after_delivery delivered) (after_delivery drained)
unfolding finish_batch
finishing = finishes refl refl

stopping_it : AStep (after_delivery drained) (after_delivery stopped)
unfolding signal_shutdown
stopping_it = shuts_down

leaving : AStep (after_delivery stopped) (after_delivery over)
unfolding take_batch
leaving = takes over refl refl

Reach-start : AReach at_start
unfolding construct
Reach-start = here

Reach-drained : AReach (after_delivery drained)
Reach-drained = next (next (next (next Reach-start writing) taking) delivering_it) finishing

Reach-stopped : AReach (after_delivery stopped)
Reach-stopped = next Reach-drained stopping_it

with_queue-IsOrdered : IsOrdered with_queue
with_queue-IsOrdered =
    Reach-IsOrdered write_to errors_only full [] one_sink with_queue (next Reach-start writing)

Step-IsOrdered_example : IsOrdered with_queue
Step-IsOrdered_example =
    Step-IsOrdered write_to errors_only full at_start with_queue writing
      (Reach-IsOrdered write_to errors_only full [] one_sink at_start Reach-start)

drained-quiet : is_drained drained ≡ true
unfolding is_drained
drained-quiet = refl

flush_complete_example :
    map (λ d. d.0) (after_delivery drained).delivered ≡ (after_delivery drained).accepted
flush_complete_example =
    flush_complete write_to errors_only full [] one_sink (after_delivery drained) Reach-drained
      drained-quiet

shutdown_complete_example :
    (map (λ d. d.0) (after_delivery over).delivered ≡ (after_delivery over).accepted)
    × ((level : Level) (error : Error)
        → accepts errors_only level ≡ true
        → enqueue errors_only over level error ≡ some (over, false))
shutdown_complete_example =
    shutdown_complete write_to errors_only full [] one_sink (after_delivery over)
      (next Reach-stopped leaving) refl

three-Rounds : Rounds write_to errors_only full with_queue 3 (after_delivery drained)
unfolding taking delivering_it finishing
three-Rounds = more taking tt (more delivering_it tt (more finishing tt done))

Rounds-le_example : 3 + work (after_delivery drained) ≤ work with_queue
Rounds-le_example =
    Rounds-le write_to errors_only full 3 (after_delivery drained) with_queue-IsOrdered three-Rounds

shutdown_drains_example :
    (n : ℕ) × (u : System World) × Rounds write_to errors_only full (after_delivery stopped) n u
    × (u.logger.worker ≡ finished)
shutdown_drains_example =
    shutdown_drains write_to errors_only full (after_delivery stopped)
      (Reach-IsOrdered write_to errors_only full [] one_sink (after_delivery stopped) Reach-stopped)
      refl
