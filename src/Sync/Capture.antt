-- ===== src/Sync/Capture.antt =====
-- `capture` of include/vosp/logger.hpp on a `Logger`, down to its sinks.
use micro_error_framework.Prelude.{ℕ, ◌≡◌, Bool, if◌then◌else◌}
use micro_error_framework.Error.{Error, Result, ok, err, Outcome, returned}
use micro_error_framework.Error.Attempt.{Describes, detail_thrown}
use micro_error_framework.Logger.{
  Level, Policy, accepts, MetadataPolicy, timestamp, thread_id, LogEntry,
}
use micro_error_framework.Sync.{Logger, write_entry}
use micro_error_framework.Sync.Broadcast.{broadcast_some}

module _ {W : Type 0} (write_to : W → ℕ → LogEntry → W × Outcome Bool) (policy : Policy)
    (metadata : MetadataPolicy) (now this_thread : ℕ) (l : Logger) where
  -- `write` and `write_owned` of the logger, which no other thread changes meanwhile.
  abbrev pub log : W → Level → Error → W × Outcome Bool
  log w level e = write_entry write_to policy metadata now this_thread l l w level e

  abbrev pub entry_of : Level → Error → LogEntry
  entry_of level e = record {
    timestamp = timestamp metadata now;
    thread_id = thread_id metadata this_thread;
    level = level;
    error = e;
  }

  -- The invocation returned a value, which `capture` returns, and no sink is called.
  pub record IsPassedOn {ℓ} {A : Type ℓ} (w : W) (invocation : Outcome A)
      (captured : W × Outcome (Result A)) : Type ℓ where
    pub value : A
    pub came : invocation ≡ returned value
    pub captured_value : captured ≡ (w, returned (ok value))

  -- The invocation threw. `capture` returns an error of the category and the code of `failure`, whose
  -- message begins with that of `failure` and ends with the text of the exception; the sinks have been
  -- given that error, as far as they come in a broadcast, if the policy accepts the level.
  pub record IsReported {ℓ} {A : Type ℓ} (w : W) (failure : Error) (invocation : Outcome A)
      (level : Level) (captured : W × Outcome (Result A)) : Type ℓ where
    pub told : Error
    pub category_kept : told.category ≡ failure.category
    pub code_kept : told.code ≡ failure.code
    pub described : Describes failure.message (detail_thrown invocation) told.message
    pub captured_error : captured ≡ (
      (if accepts policy level
          then (broadcast_some write_to w l.sinks (entry_of level told)).0
          else w),
      returned (err told),
    )
