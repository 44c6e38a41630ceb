-- ===== src/Sync/Tests.antt =====
-- The theorems on the logger at concrete inputs (include/vosp/logger.hpp).
use micro_error_framework.Prelude.{
  ℕ, ◌≡◌, refl, Bool, true, false, none, List, [], ◌∷◌, ◌++◌, ◌==◌, if◌then◌else◌, Text, codes,
}
use micro_error_framework.Error.{Error, Category, Outcome, returned, threw_unknown, attempt}
use micro_error_framework.Logger.{
  Level, Policy, accepts, MetadataPolicy, timestamp, thread_id, LogEntry,
}
use micro_error_framework.Sync.{Logger, attach_slot, construct, write_entry}
use micro_error_framework.Sync.Slots.{IsValid, attach_slot_lem, construct-IsValid}
use micro_error_framework.Sync.Broadcast.{broadcast_some, write_entry_lem}
use micro_error_framework.Sync.Facade.{capture, write_best_effort}
use micro_error_framework.Sync.Capture.{log}

-- The world lists what each sink was given. Sink 9 refuses.
abbrev write_to : List (ℕ × Text) → ℕ → LogEntry → List (ℕ × Text) × Outcome Bool
write_to w sink entry =
    (w ++ ((sink, entry.error.message) ∷ []), returned (if sink == 9 then false else true))

abbrev refused : Error
refused = record { message = codes "refused"; code = 7; category = Category.network }

abbrev two_sinks : Logger
two_sinks = record {
  sinks = record { sink = 4; owned = false } ∷ record { sink = 9; owned = true } ∷ [];
  single_non_owning_sink = none;
}

abbrev entry : LogEntry
entry = record { timestamp = 11; thread_id = 2; level = Level.error; error = refused }

two_sinks-IsValid : IsValid two_sinks
unfolding attach_slot construct
two_sinks-IsValid =
    (attach_slot_lem (construct (4 ∷ [])) (record { sink = 9; owned = true })
      (construct-IsValid (4 ∷ []))).0

two_sinks-write :
    write_entry write_to Policy.accept_all MetadataPolicy.full_metadata 11 2 two_sinks two_sinks []
      Level.error refused
    ≡ ((4, codes "refused") ∷ (9, codes "refused") ∷ [], returned false)
unfolding write_entry accepts
two_sinks-write = refl

write_entry_lem_example :
    write_entry write_to Policy.accept_all MetadataPolicy.full_metadata 11 2 two_sinks two_sinks []
      Level.error refused
    ≡ (if accepts Policy.accept_all Level.error
        then broadcast_some write_to [] two_sinks.sinks (record {
          timestamp = timestamp MetadataPolicy.full_metadata 11;
          thread_id = thread_id MetadataPolicy.full_metadata 2;
          level = Level.error;
          error = refused;
        })
        else ([], returned true))
write_entry_lem_example =
    write_entry_lem write_to Policy.accept_all MetadataPolicy.full_metadata 11 2 two_sinks []
      Level.error refused two_sinks-IsValid

accepted : accepts Policy.accept_all Level.error ≡ true
unfolding accepts
accepted = refl

-- A sink 9 that throws.
abbrev throws_at_nine : List (ℕ × Text) → ℕ → LogEntry → List (ℕ × Text) × Outcome Bool
throws_at_nine w sink entry =
    (w ++ ((sink, entry.error.message) ∷ []), (if sink == 9 then threw_unknown else returned true))

abbrev crash : Outcome ℕ
crash = threw_unknown

abbrev logs : List (ℕ × Text) → Level → Error → List (ℕ × Text) × Outcome Bool
logs = log throws_at_nine Policy.accept_all MetadataPolicy.full_metadata 11 2 two_sinks

-- The exception of the sink does not come out.
captured :
    capture logs logs [] refused crash Level.error
    ≡ ((4, codes "refused") ∷ (9, codes "refused") ∷ [], returned (attempt refused crash))
unfolding capture write_best_effort attempt write_entry accepts
captured = refl
