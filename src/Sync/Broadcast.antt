-- ===== src/Sync/Broadcast.antt =====
-- What a write to a `Logger` comes to, by the fast path or under the lock
-- (include/vosp/logger.hpp, `write_entry`).
use micro_error_framework.Prelude.{
  ℕ, ◌≡◌, refl, sym, ap, ◌∙◌, ◌⊎◌, inl, inr, Bool, true, false, ◌&&◌, Option, some, List, [], ◌∷◌,
  arith, if◌then◌else◌, Bool-cases, Option-cases, Text,
}
use micro_error_framework.Error.{Error, Outcome, returned, threw_exception, threw_unknown}
use micro_error_framework.Logger.{
  Level, Policy, accepts, MetadataPolicy, timestamp, thread_id, LogEntry,
}
use micro_error_framework.Sync.{
  SinkSlot, Logger, single_sink_of, deliver_loop, deliver, write_registered, write_entry,
}
use micro_error_framework.Sync.Slots.{IsValid}

abbrev pub and_reply : Bool → Outcome Bool → Outcome Bool
and_reply b (returned accepted) = returned (b && accepted)
and_reply b (threw_exception what) = threw_exception what
and_reply b threw_unknown = threw_unknown

and_reply_assoc :
    (b c : Bool) (o : Outcome Bool) → and_reply (c && b) o ≡ and_reply b (and_reply c o)
and_reply_assoc b c (returned accepted) = ground arith
and_reply_assoc b c (threw_exception what) = refl
and_reply_assoc b c threw_unknown = refl

and_reply-true : (o : Outcome Bool) → and_reply true o ≡ o
and_reply-true (returned accepted) = refl
and_reply-true (threw_exception what) = refl
and_reply-true threw_unknown = refl

Outcome-cases :
    (o : Outcome Bool)
    → ((b : Bool) × (o ≡ returned b))
      ⊎ (((what : Option Text) × (o ≡ threw_exception what)) ⊎ (o ≡ threw_unknown))
Outcome-cases (returned b) = inl (b, refl)
Outcome-cases (threw_exception what) = inr (inl (what, refl))
Outcome-cases threw_unknown = inr (inr refl)

module _ {W : Type 0} (write_to : W → ℕ → LogEntry → W × Outcome Bool) where
  -- Every sink in turn, up to the first that throws; true if every sink accepted.
  abbrev pub broadcast : W → List SinkSlot → LogEntry → W × Outcome Bool
  broadcast w [] entry = (w, returned true)
  broadcast w (slot ∷ slots) entry =
      let (w', reply) = write_to w slot.sink entry in
      elim reply [
        | returned b ↦ (let (w'', rest) = broadcast w' slots entry in (w'', and_reply b rest))
        | threw_exception what ↦ (w', threw_exception what)
        | Outcome.threw_unknown ↦ (w', threw_unknown)
      ]

  -- A logger without sinks refuses.
  abbrev pub broadcast_some : W → List SinkSlot → LogEntry → W × Outcome Bool
  broadcast_some w [] entry = (w, returned false)
  broadcast_some w (slot ∷ slots) entry = broadcast w (slot ∷ slots) entry

  deliver_loop-broadcast :
      (w : W) (slots : List SinkSlot) (entry : LogEntry) (b : Bool)
      → deliver_loop write_to w slots entry b
        ≡ ((broadcast w slots entry).0, and_reply b (broadcast w slots entry).1)
  unfolding deliver_loop
  deliver_loop-broadcast w [] entry b = ground arith
  deliver_loop-broadcast w (slot ∷ slots) entry b =
      let tail = deliver_loop-broadcast (write_to w slot.sink entry).0 slots entry in
      let rest = broadcast (write_to w slot.sink entry).0 slots entry in
      elim (Outcome-cases (write_to w slot.sink entry).1) [
        | inl (c, e) ↦
            rw (e, deliver_loop, broadcast)
              (tail (c && b) ∙ ap (λ o. (rest.0, o)) (and_reply_assoc b c rest.1))
        | inr (inl (what, e)) ↦ rw (e, deliver_loop, broadcast) refl
        | inr (inr e) ↦ rw (e, deliver_loop, broadcast) refl
      ]

  broadcast-single :
      (w : W) (slot : SinkSlot) (entry : LogEntry)
      → write_to w slot.sink entry ≡ broadcast w (slot ∷ []) entry
  broadcast-single w slot entry =
      let p = write_to w slot.sink entry in
      elim (Outcome-cases p.1) [
        | inl (c, e) ↦
            let same : returned c ≡ returned (c && true) = ground arith in
            rw (e, broadcast) (ap (λ o. (p.0, o)) same)
        | inr (inl (what, e)) ↦ rw (e, broadcast) refl
        | inr (inr e) ↦ rw (e, broadcast) refl
      ]

  write_registered-broadcast :
      (l : Logger) (w : W) (entry : LogEntry)
      → write_registered write_to l w entry ≡ broadcast_some w l.sinks entry
  unfolding write_registered deliver
  write_registered-broadcast l w entry = go l.sinks
    where
      go :
          (slots : List SinkSlot)
          → write_registered write_to (record l { sinks = slots }) w entry
            ≡ broadcast_some w slots entry
      go [] = refl
      go (slot ∷ []) = broadcast-single w slot entry
      go (slot ∷ other ∷ slots) =
          let all = slot ∷ other ∷ slots in
          deliver_loop-broadcast w all entry true
          ∙ ap (λ o. ((broadcast w all entry).0, o)) (and_reply-true (broadcast w all entry).1)

  single_sink-broadcast :
      (slots : List SinkSlot) (sink : ℕ) (w : W) (entry : LogEntry)
      → single_sink_of slots ≡ some sink
      → write_to w sink entry ≡ broadcast_some w slots entry
  unfolding single_sink_of
  single_sink-broadcast [] sink w entry h = cc
  single_sink-broadcast (slot ∷ []) sink w entry h =
      let same : slot.sink ≡ sink = ground arith in rw (← same) (broadcast-single w slot entry)
  single_sink-broadcast (slot ∷ other ∷ slots) sink w entry h = cc

  -- A write whose level the policy accepts, to a logger that was valid when the cached sink was
  -- read, is a broadcast to the sinks registered at that moment or to those registered when the
  -- lock was held. With no sinks it answers false.
  pub write_entry-broadcast :
      (policy : Policy) (metadata : MetadataPolicy) (now this_thread : ℕ) (loaded locked : Logger)
      (w : W) (level : Level) (error : Error)
      → IsValid loaded
      → accepts policy level ≡ true
      → (sinks : List SinkSlot) × ((sinks ≡ loaded.sinks) ⊎ (sinks ≡ locked.sinks))
        × (write_entry write_to policy metadata now this_thread loaded locked w level error
            ≡ broadcast_some w sinks (record {
              timestamp = timestamp metadata now;
              thread_id = thread_id metadata this_thread;
              level = level;
              error = error;
            }))
  unfolding write_entry
  write_entry-broadcast policy metadata now this_thread loaded locked w level error v a =
      let entry : LogEntry = record {
        timestamp = timestamp metadata now;
        thread_id = thread_id metadata this_thread;
        level = level;
        error = error;
      } in
      elim (Option-cases loaded.single_non_owning_sink) [
        | inl e ↦ (locked.sinks, inr refl, rw (a, e) (write_registered-broadcast locked w entry))
        | inr (sink, e) ↦ (
          loaded.sinks,
          inl refl,
          rw (a, e) (single_sink-broadcast loaded.sinks sink w entry (sym v.cache ∙ e)),
        )
      ]

  write_entry-dropped :
      (policy : Policy) (metadata : MetadataPolicy) (now this_thread : ℕ) (l : Logger) (w : W)
      (level : Level) (error : Error)
      → accepts policy level ≡ false
      → write_entry write_to policy metadata now this_thread l l w level error ≡ (w, returned true)
  unfolding write_entry
  write_entry-dropped policy metadata now this_thread l w level error n = rw (n) refl

  -- If no other thread attaches or detaches during the call, a write to a valid logger is a
  -- broadcast to its sinks if the policy accepts the level, and otherwise nothing, with the
  -- answer true.
  pub write_entry_lem :
      (policy : Policy) (metadata : MetadataPolicy) (now this_thread : ℕ) (l : Logger) (w : W)
      (level : Level) (error : Error)
      → IsValid l
      → write_entry write_to policy metadata now this_thread l l w level error ≡ (
          if accepts policy level
          then broadcast_some w l.sinks (record {
            timestamp = timestamp metadata now;
            thread_id = thread_id metadata this_thread;
            level = level;
            error = error;
          })
          else (w, returned true))
  write_entry_lem policy metadata now this_thread l w level error v =
      elim (Bool-cases (accepts policy level)) [
        | inl a ↦
            let (sinks, which, e) =
              write_entry-broadcast policy metadata now this_thread l l w level error v a in
            let same : sinks ≡ l.sinks = elim which [ inl s ↦ s | inr s ↦ s ] in
            rw (a) (
              e
              ∙ ap
                  (λ q. broadcast_some w q (record {
                    timestamp = timestamp metadata now;
                    thread_id = thread_id metadata this_thread;
                    level = level;
                    error = error;
                  }))
                  same)
        | inr n ↦ rw (n) (write_entry-dropped policy metadata now this_thread l w level error n)
      ]
