-- ===== src/Sync.antt =====
-- include/vosp/logger.hpp: `Logger`, which broadcasts records to its sinks, and the calls that
-- `ILogger` builds on `write`.
pub mod Slots
pub mod Broadcast
pub mod Facade
pub mod Capture
mod Tests
use micro_error_framework.Prelude.{
  ℕ, zero, suc, ◌+◌, ◌-◌, ◌*◌, ◌/◌, ◌%◌, ◌^◌, ◌≤◌, ◌<◌, min, compare, Ordering, bit_xor, String,
  ◌≡◌, refl, sym, ap, ap₂, subst, fun_ext, ◌∙◌, ◌≡⟨◌⟩◌, ◌∎, ◌≢◌, ◌↔◌, ◌⊎◌, inl, inr, Bool, true,
  false, not, ◌&&◌, ◌||◌, Option, none, some, List, [], ◌∷◌, ◌++◌, map, append-nil, append_assoc,
  arith, dec_lt, ℕ_discrete, ltb, leb, ◌==◌, if◌then◌else◌, ltb→lt, lt→ltb, leb→le, ==_iff, ==_refl,
  Bool-cases, Option-cases, is_some, Text, codes, text_eq, text_eq_refl, text_eq_iff, length,
  get_elem?, set, take, drop, length-append, length-set, get_elem?-set_self, get_elem?-set_ne,
  length-take, length-drop, take-append-drop, length-map, All,
}
use micro_error_framework.Error.{
  Error, Result, ok, err, Outcome, returned, threw_exception, threw_unknown, attempt,
}
use micro_error_framework.Logger.{
  Level, Policy, accepts, MetadataPolicy, timestamp, thread_id, LogEntry,
}

-- A sink is its address. `owned` says that the slot holds a shared pointer to it.
pub record SinkSlot : Type 0 where
  pub sink : ℕ
  pub owned : Bool

-- `single_non_owning_sink_` is read without the lock.
pub record Logger : Type 0 where
  pub sinks : List SinkSlot
  pub single_non_owning_sink : Option ℕ

-- `refresh_single_sink_fast_path`
unfoldable pub single_sink_of : List SinkSlot → Option ℕ
single_sink_of [] = none
single_sink_of (slot ∷ []) = if slot.owned then none else some slot.sink
single_sink_of (slot ∷ (other ∷ slots)) = none

unfoldable pub refresh_single_sink_fast_path : Logger → Logger
unfolding single_sink_of
refresh_single_sink_fast_path l = record l { single_non_owning_sink = single_sink_of l.sinks }

-- `std::ranges::any_of` for a sink of that address.
unfoldable pub is_registered : ℕ → List SinkSlot → Bool
is_registered sink [] = false
is_registered sink (slot ∷ slots) = (slot.sink == sink) || is_registered sink slots

unfoldable pub attach_slot : Logger → SinkSlot → Logger × Bool
unfolding is_registered refresh_single_sink_fast_path
attach_slot l slot =
    if is_registered slot.sink l.sinks
    then (l, false)
    else (refresh_single_sink_fast_path (record l { sinks = l.sinks ++ (slot ∷ []) }), true)

-- `attach(ILogSink&)`
unfoldable pub attach : Logger → ℕ → Logger × Bool
unfolding attach_slot
attach l sink = attach_slot l (record { sink = sink; owned = false })

-- `attach(std::shared_ptr<ILogSink>)`: `none` is a null pointer.
unfoldable pub attach_shared : Logger → Option ℕ → Logger × Bool
unfolding attach_slot
attach_shared l none = (l, false)
attach_shared l (some sink) = attach_slot l (record { sink = sink; owned = true })

-- `std::erase_if`: the slots that are left, and the number erased.
unfoldable pub erase_sink : ℕ → List SinkSlot → List SinkSlot × ℕ
erase_sink sink [] = ([], 0)
erase_sink sink (slot ∷ slots) =
    let (kept, n) = erase_sink sink slots in
    if slot.sink == sink then (kept, suc n) else (slot ∷ kept, n)

unfoldable pub detach : Logger → ℕ → Logger × Bool
unfolding erase_sink refresh_single_sink_fast_path
detach l sink =
    let (kept, n) = erase_sink sink l.sinks in
    if n == 0 then (l, false) else (refresh_single_sink_fast_path (record l { sinks = kept }), true)

abbrev pub empty : Logger
empty = record { sinks = []; single_non_owning_sink = none }

-- The constructors: `Logger(Sinks&...)` and `Logger(std::shared_ptr<Sink>)`.
unfoldable pub attach_all : Logger → List ℕ → Logger
unfolding attach
attach_all l [] = l
attach_all l (sink ∷ sinks) = attach_all (attach l sink).0 sinks

unfoldable pub construct : List ℕ → Logger
unfolding attach_all
construct sinks = attach_all empty sinks

unfoldable pub construct_shared : Option ℕ → Logger
unfolding attach_shared
construct_shared sink = (attach_shared empty sink).0

-- The virtual `ILogSink::write`, on a world that the sinks share.
module _ {W : Type 0} (write_to : W → ℕ → LogEntry → W × Outcome Bool) where
  -- The loop of `deliver`. An exception of a sink leaves it.
  unfoldable pub deliver_loop : W → List SinkSlot → LogEntry → Bool → W × Outcome Bool
  deliver_loop w [] entry accepted = (w, returned accepted)
  deliver_loop w (slot ∷ slots) entry accepted =
      let (w', reply) = write_to w slot.sink entry in
      elim reply [
        | returned b ↦ deliver_loop w' slots entry (b && accepted)
        | threw_exception what ↦ (w', threw_exception what)
        | Outcome.threw_unknown ↦ (w', threw_unknown)
      ]

  unfoldable pub deliver : W → LogEntry → Option ℕ → List SinkSlot → W × Outcome Bool
  unfolding deliver_loop
  deliver w entry (some sink) sinks = write_to w sink entry
  deliver w entry none sinks = deliver_loop w sinks entry true

  -- The section under `mutex_`, and the delivery that follows it.
  unfoldable pub write_registered : Logger → W → LogEntry → W × Outcome Bool
  unfolding deliver
  write_registered l w entry = elim l.sinks [
    | [] ↦ (w, returned false)
    | slot ∷ slots ↦ elim slots [
      | [] ↦ deliver w entry (some slot.sink) []
      | other ∷ others ↦ deliver w entry none (slot ∷ other ∷ others)
    ]
  ]

  -- `write_entry`: `loaded` is the logger when the fast path is read, and `locked` the logger when
  -- the lock is held; other threads may attach and detach between the two. `w` is the world that the
  -- delivery finds.
  unfoldable pub write_entry :
      Policy → MetadataPolicy → ℕ → ℕ → Logger → Logger → W → Level → Error → W × Outcome Bool
  unfolding write_registered
  write_entry policy metadata now this_thread loaded locked w level error =
      if not (accepts policy level)
      then (w, returned true)
      else (let entry : LogEntry = record {
        timestamp = timestamp metadata now;
        thread_id = thread_id metadata this_thread;
        level = level;
        error = error;
      } in
          elim loaded.single_non_owning_sink [
            | some sink ↦ write_to w sink entry
            | none ↦ write_registered locked w entry
          ])
