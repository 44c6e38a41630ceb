-- ===== src/Threads/WakeUps/Tests.antt =====
-- A worker of include/vosp/worker_pool.hpp that blocks, a submission, and its notification.
use micro_error_framework.Prelude.{ℕ, ◌<◌, refl, true, [], ◌∷◌, arith}
use micro_error_framework.Pool.Slots.{emplace_tail, create}
use micro_error_framework.Threads.{Step, start, submits}
use micro_error_framework.Pool.Word.{fetch_add, pending_from_state, is_stopping_state}
use micro_error_framework.Pool.{enqueue, pending_tasks}
use micro_error_framework.Threads.Tests.{fresh, one_worker, queued, job}
use micro_error_framework.Threads.WakeUps.{
  comparing, blocked, Handshake, observed, compared, wakes, raises, acts, enters, counts, observes,
  compares, loads, notifies_one, begun, HandshakeReach, here, next,
}
use micro_error_framework.Threads.WakeUps.Progress.{IsFree, GoesOn, queued_is_served}

submitting : Step (start (fresh 1 2)) queued
unfolding enqueue emplace_tail create is_stopping_state pending_from_state fetch_add
submitting = submits job queued.pool refl

-- The worker blocks on the word 0.
abbrev asleep : Handshake
asleep = record (begun (fresh 1 2)) { stages = blocked 0 ∷ []; waiting_workers = 1 }

to_asleep : HandshakeReach (fresh 1 2) asleep
unfolding observed compared pending_from_state is_stopping_state
to_asleep =
    next (next (next (next here (enters 0 refl refl refl refl)) (counts 0 refl)) (observes 0 refl))
      (compares 0 0 refl)

-- A task is submitted, the submitter finds the worker in the count and wakes it.
abbrev notified : Handshake
notified = record asleep { system = queued; stages = comparing 0 ∷ [] }

to_notified : HandshakeReach (fresh 1 2) notified
unfolding raises submitting
to_notified =
    next (next (next to_asleep (acts submitting tt)) (loads [] [] true refl))
      (notifies_one [] [] (comparing 0 ∷ []) refl (wakes 0 0 refl))

queued_is_served_example : (i : ℕ) × (i < 1) × IsFree notified i × GoesOn notified i
unfolding pending_tasks pending_from_state
queued_is_served_example =
    queued_is_served (fresh 1 2) notified one_worker (omega arith) to_notified refl
      (λ e. omega arith)
