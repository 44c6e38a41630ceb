-- ===== src/Sync/Slots.antt =====
-- Attaching and detaching sinks (include/vosp/logger.hpp, `Logger`).
use micro_error_framework.Prelude.{
  ℕ, ◌≡◌, refl, sym, inl, inr, true, false, not, ◌&&◌, ◌||◌, Option, none, some, List, [], ◌∷◌,
  ◌++◌, arith, ◌==◌, ==_iff, ==_refl, Bool-cases,
}
use micro_error_framework.Sync.{
  SinkSlot, Logger, single_sink_of, refresh_single_sink_fast_path, is_registered, attach_slot,
  attach, attach_shared, erase_sink, detach, empty, attach_all, construct, construct_shared,
}

-- No two slots have the same sink, and the cached sink is the one that the slots give.
abbrev pub IsDistinct : List SinkSlot → Type 0
IsDistinct [] = Unit {0}
IsDistinct (slot ∷ slots) = (is_registered slot.sink slots ≡ false) × IsDistinct slots

pub record IsValid (l : Logger) : Type 0 where
  pub distinct : IsDistinct l.sinks
  pub cache : l.single_non_owning_sink ≡ single_sink_of l.sinks

is_registered-append :
    (a : ℕ) (xs : List SinkSlot) (slot : SinkSlot)
    → is_registered a (xs ++ (slot ∷ [])) ≡ (is_registered a xs || (slot.sink == a))
unfolding is_registered
is_registered-append a [] slot = ground arith
is_registered-append a (x ∷ xs) slot = ground (arith, is_registered-append a xs slot)

append-IsDistinct :
    (xs : List SinkSlot) (slot : SinkSlot)
    → IsDistinct xs
    → is_registered slot.sink xs ≡ false
    → IsDistinct (xs ++ (slot ∷ []))
unfolding is_registered
append-IsDistinct [] slot h n = (refl, tt)
append-IsDistinct (x ∷ xs) slot h n = (
  ground (arith, is_registered-append x.sink xs slot, (==_iff slot.sink x.sink).0, ==_refl x.sink),
  append-IsDistinct xs slot h.1 (ground arith),
)

is_registered-erase :
    (a b : ℕ) (xs : List SinkSlot)
    → is_registered a (erase_sink b xs).0 ≡ (is_registered a xs && not (a == b))
unfolding is_registered erase_sink
is_registered-erase a b [] = refl
is_registered-erase a b (x ∷ xs) = ground (
  arith,
  is_registered-erase a b xs,
  (==_iff x.sink a).0,
  (==_iff x.sink b).0,
  ==_refl x.sink,
  ==_iff a b,
)

erase_sink-IsDistinct :
    (b : ℕ) (xs : List SinkSlot) → IsDistinct xs → IsDistinct (erase_sink b xs).0
unfolding erase_sink
erase_sink-IsDistinct b [] h = tt
erase_sink-IsDistinct b (x ∷ xs) h =
    ground (arith, erase_sink-IsDistinct b xs h.1, is_registered-erase x.sink b xs, h.0)

erase_sink-count :
    (b : ℕ) (xs : List SinkSlot) → ((erase_sink b xs).1 == 0) ≡ not (is_registered b xs)
unfolding is_registered erase_sink
erase_sink-count b [] = refl
erase_sink-count b (x ∷ xs) = ground (arith, erase_sink-count b xs)

-- On a valid logger, attaching a sink leaves a valid logger; it answers true exactly if the sink was
-- not registered; and afterwards that sink is registered, and every other one as before.
pub attach_slot_lem :
    (l : Logger) (slot : SinkSlot)
    → IsValid l
    → IsValid (attach_slot l slot).0
      × ((attach_slot l slot).1 ≡ not (is_registered slot.sink l.sinks))
      × ((a : ℕ)
          → is_registered a (attach_slot l slot).0.sinks
            ≡ (is_registered a l.sinks || (slot.sink == a)))
unfolding attach_slot refresh_single_sink_fast_path
attach_slot_lem l slot v = elim (Bool-cases (is_registered slot.sink l.sinks)) [
  | inl y ↦ rw (y) (v, refl, λ a. ground (arith, y, (==_iff slot.sink a).0))
  | inr n ↦ rw (n) (
    record { distinct = append-IsDistinct l.sinks slot v.distinct n; cache = refl },
    refl,
    λ a. is_registered-append a l.sinks slot,
  )
]

-- On a valid logger, detaching a sink leaves a valid logger; it answers true exactly if the sink was
-- registered; and afterwards that sink is not registered, and every other one as before.
pub detach_lem :
    (l : Logger) (sink : ℕ)
    → IsValid l
    → IsValid (detach l sink).0
      × ((detach l sink).1 ≡ is_registered sink l.sinks)
      × ((a : ℕ)
          → is_registered a (detach l sink).0.sinks ≡ (is_registered a l.sinks && not (a == sink)))
unfolding detach refresh_single_sink_fast_path
detach_lem l sink v = elim (Bool-cases (is_registered sink l.sinks)) [
  | inl y ↦
      let c : ((erase_sink sink l.sinks).1 == 0) ≡ false =
        ground (arith, erase_sink-count sink l.sinks, y) in
      rw (c) (
        record { distinct = erase_sink-IsDistinct sink l.sinks v.distinct; cache = refl },
        sym y,
        λ a. is_registered-erase a sink l.sinks,
      )
  | inr n ↦
      let c : ((erase_sink sink l.sinks).1 == 0) ≡ true =
        ground (arith, erase_sink-count sink l.sinks, n) in
      rw (c) (v, sym n, λ a. ground (arith, n, (==_iff a sink).0))
]

attach-IsValid : (l : Logger) (sink : ℕ) → IsValid l → IsValid (attach l sink).0
unfolding attach
attach-IsValid l sink v = (attach_slot_lem l (record { sink = sink; owned = false }) v).0

attach_all-IsValid : (l : Logger) (sinks : List ℕ) → IsValid l → IsValid (attach_all l sinks)
unfolding attach_all
attach_all-IsValid l [] v = v
attach_all-IsValid l (sink ∷ sinks) v =
    attach_all-IsValid (attach l sink).0 sinks (attach-IsValid l sink v)

empty-IsValid : IsValid empty
unfolding single_sink_of
empty-IsValid = record { distinct = tt; cache = refl }

pub construct-IsValid : (sinks : List ℕ) → IsValid (construct sinks)
unfolding construct
construct-IsValid sinks = attach_all-IsValid empty sinks empty-IsValid

pub construct_shared-IsValid : (sink : Option ℕ) → IsValid (construct_shared sink)
unfolding construct_shared attach_shared
construct_shared-IsValid none = empty-IsValid
construct_shared-IsValid (some sink) =
    (attach_slot_lem empty (record { sink = sink; owned = true }) empty-IsValid).0
