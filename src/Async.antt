-- ===== src/Async.antt =====
-- include/vosp/logger.hpp: `Logger` with `AsyncSinkDispatch`. Its sections under `mutex_`, one
-- delivery of its worker, and the steps that these make in any order. A blocked thread takes no step.
pub mod Invariant
pub mod Sections
pub mod Steps
pub mod Delivery
pub mod Drain
mod Tests
use micro_error_framework.Prelude.{
  ℕ, zero, suc, ◌+◌, ◌-◌, ◌*◌, ◌/◌, ◌%◌, ◌^◌, ◌≤◌, ◌<◌, min, compare, Ordering, bit_xor, String,
  ◌≡◌, refl, sym, ap, ap₂, subst, fun_ext, ◌∙◌, ◌≡⟨◌⟩◌, ◌∎, ◌≢◌, ◌↔◌, ◌⊎◌, inl, inr, Bool, true,
  false, not, ◌&&◌, ◌||◌, Option, none, some, List, [], ◌∷◌, ◌++◌, map, append-nil, append_assoc,
  arith, dec_lt, ℕ_discrete, ltb, leb, ◌==◌, if◌then◌else◌, ltb→lt, lt→ltb, leb→le, ==_iff, ==_refl,
  Bool-cases, Option-cases, is_some, Text, codes, text_eq, text_eq_refl, text_eq_iff, length,
  get_elem?, set, take, drop, length-append, length-set, get_elem?-set_self, get_elem?-set_ne,
  length-take, length-drop, take-append-drop, length-map, All,
}
use micro_error_framework.Error.{Error, Outcome, returned, threw_exception, threw_unknown}
use micro_error_framework.Logger.{Level, Policy, accepts, MetadataPolicy, LogEntry}
use micro_error_framework.Sync.{Logger, write_entry}

abbrev pub queue_capacity : ℕ
queue_capacity = 1024

pub record PendingRecord : Type 0 where
  pub level : Level
  pub error : Error

-- Where the worker stands in `run`: at the wait, delivering its batch, or returned.
pub data Worker : Type 0 where
  waiting delivering finished : Worker

-- `world` is what the sinks share. `batch` is what is left of the worker's batch.
pub record AsyncLogger (W : Type 0) : Type 0 where
  pub world : W
  pub backend : Logger
  pub queue : List PendingRecord
  pub batch : List PendingRecord
  pub worker : Worker
  pub failed_records : ℕ
  pub stopping : Bool
  pub batch_active : Bool

unfoldable pub construct : {W : Type 0} → W → Logger → AsyncLogger W
construct w backend = record {
  world = w;
  backend = backend;
  queue = [];
  batch = [];
  worker = waiting;
  failed_records = 0;
  stopping = false;
  batch_active = false;
}

-- `enqueue`: `none` is a wait that goes on.
unfoldable pub enqueue :
    {W : Type 0} → Policy → AsyncLogger W → Level → Error → Option (AsyncLogger W × Bool)
unfolding accepts
enqueue policy a level error =
    if not (accepts policy level)
    then some (a, true)
    else if not (a.stopping || ltb (length a.queue) queue_capacity)
    then none
    else if a.stopping
    then some (a, false)
    else some (record a { queue = a.queue ++ (record { level = level; error = error } ∷ []) }, true)

-- `run`, the first section: `none` is a wait that goes on.
unfoldable pub take_batch : {W : Type 0} → AsyncLogger W → Option (AsyncLogger W)
take_batch a = elim a.queue [
  | [] ↦ if a.stopping then some (record a { worker = finished }) else none
  | record' ∷ queue ↦ some (record a {
    batch = record' ∷ queue;
    queue = a.batch;
    batch_active = true;
    worker = delivering;
  })
]

-- The test `!backend_.write_owned(...)`, where an exception counts as a refusal.
abbrev pub is_accepted : Outcome Bool → Bool
is_accepted (returned b) = b
is_accepted (threw_exception what) = false
is_accepted threw_unknown = false

module _ {W : Type 0} (write_to : W → ℕ → LogEntry → W × Outcome Bool) where
  -- `run`, one round of its loop: the record, whether the backend accepted it, and the new logger.
  -- The backend stamps the record with the time and the thread of the worker.
  unfoldable pub deliver_next :
      Policy
      → MetadataPolicy
      → ℕ
      → ℕ
      → AsyncLogger W
      → Option (AsyncLogger W × PendingRecord × Bool)
  unfolding write_entry
  deliver_next policy metadata now worker_thread a = elim a.batch [
    | [] ↦ none
    | next ∷ rest ↦
        (let (w, reply) =
            write_entry write_to policy metadata now worker_thread a.backend a.backend a.world
              next.level next.error in
          some (
            record a {
              world = w;
              batch = rest;
              failed_records =
                  if is_accepted reply then a.failed_records else (a.failed_records + 1) % 2 ^ 64;
            },
            next,
            is_accepted reply,
          ))
  ]

-- `run`, the last section.
unfoldable pub finish_batch : {W : Type 0} → AsyncLogger W → AsyncLogger W
finish_batch a = record a { batch = []; batch_active = false; worker = waiting }

-- What `flush` waits for.
unfoldable pub is_drained : {W : Type 0} → AsyncLogger W → Bool
is_drained a = (length a.queue == 0) && not a.batch_active

-- `shutdown`, the section under `mutex_`; it then waits for the worker to return.
unfoldable pub signal_shutdown : {W : Type 0} → AsyncLogger W → AsyncLogger W
signal_shutdown a = record a { stopping = true }

-- With the records that `write` accepted, and those that the worker delivered, each with the
-- backend's answer, in their order.
pub record System (W : Type 0) : Type 0 where
  pub logger : AsyncLogger W
  pub accepted : List PendingRecord
  pub delivered : List (PendingRecord × Bool)

module _ {W : Type 0} (write_to : W → ℕ → LogEntry → W × Outcome Bool) (policy : Policy)
    (metadata : MetadataPolicy) where
  pub data Step (s : System W) : System W → Type 0 where
    -- a `write` or `write_owned` of a level that the policy accepts, and that answers true
    writes :
        (level : Level) (error : Error) (a : AsyncLogger W)
        → accepts policy level ≡ true
        → enqueue policy s.logger level error ≡ some (a, true)
        → Step s (record s {
          logger = a;
          accepted = s.accepted ++ (record { level = level; error = error } ∷ []);
        })
    takes :
        (a : AsyncLogger W)
        → s.logger.worker ≡ waiting
        → take_batch s.logger ≡ some a
        → Step s (record s { logger = a })
    delivers :
        (now worker_thread : ℕ) (a : AsyncLogger W) (next : PendingRecord) (b : Bool)
        → s.logger.worker ≡ delivering
        → deliver_next write_to policy metadata now worker_thread s.logger ≡ some (a, next, b)
        → Step s (record s { logger = a; delivered = s.delivered ++ ((next, b) ∷ []) })
    finishes :
        s.logger.worker ≡ delivering
        → s.logger.batch ≡ []
        → Step s (record s { logger = finish_batch s.logger })
    -- `attach`, `detach`
    reconfigures :
        (backend : Logger) → Step s (record s { logger = record s.logger { backend = backend } })
    shuts_down : Step s (record s { logger = signal_shutdown s.logger })

  abbrev pub start : W → Logger → System W
  start w backend = record { logger = construct w backend; accepted = []; delivered = [] }

  pub data Reach (w : W) (backend : Logger) : System W → Type 0 where
    here : Reach w backend (start w backend)
    next : {s t : System W} → Reach w backend s → Step s t → Reach w backend t
