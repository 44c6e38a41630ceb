-- ===== src/Threads/WakeUps/Progress.antt =====
-- With a task queued, and every notification made, some worker of include/vosp/worker_pool.hpp is not
-- blocked and can go on.
use micro_error_framework.Prelude.{
  ℕ, zero, suc, ◌≤◌, ◌<◌, ◌≡◌, refl, ap, ◌∙◌, ◌≢◌, inl, inr, some, List, [], ◌∷◌, arith, length,
  get_elem?, set, take, get_elem?-set_self, get_elem?-bound, All-get,
}
use micro_error_framework.Pool.{Pool, pending_tasks}
use micro_error_framework.Pool.Refine.{queries_lem}
use micro_error_framework.Pool.Refine.Claims.{claimable_seen, claim_seen_lem}
use micro_error_framework.Threads.{
  Worker, idle, running, exited, System, Step, claims, executes, finishes,
}
use micro_error_framework.Threads.Total.{total, claimed_by}
use micro_error_framework.Threads.Invariant.{Inv, IsFresh, room}
use micro_error_framework.Threads.Moves.{IsMoveOf, claimed-ne, queue-cases}
use micro_error_framework.Threads.WakeUps.{
  Stage, outside, entering, counted, leaving, comparing, blocked, Handshake, observed, compared,
  IsBlocked, IsOutside, HandshakeStep, acts, enters, counts, observes, compares, leaves, loads,
  notifies_one, notifies_all, announces, HandshakeReach,
}
use micro_error_framework.Threads.WakeUps.Watch.{HasSeenNone, Watch, observed-free, compared_lem}
use micro_error_framework.Threads.WakeUps.Steps.{HandshakeReach-Watch}

worker_at : (ws : List Worker) (i : ℕ) → i < length ws → (w : Worker) × (get_elem? ws i ≡ some w)
worker_at [] i h = absurd (omega arith)
worker_at (w ∷ ws) zero h = (w, refl)
worker_at (w ∷ ws) (suc i) h = worker_at ws i (omega arith)

-- A step of worker `i`.
abbrev pub IsOwnStep : ℕ → {s t : Handshake} → HandshakeStep s t → Type 0
IsOwnStep i (acts st out) = IsMoveOf i st
IsOwnStep i (enters j at at_stage none_left open_yet) = i ≡ j
IsOwnStep i (counts j at) = i ≡ j
IsOwnStep i (observes j at) = i ≡ j
IsOwnStep i (compares j word at) = i ≡ j
IsOwnStep i (leaves j at) = i ≡ j
IsOwnStep i (loads before after single e) = ⊥
IsOwnStep i (notifies_one before after stages e woken) = ⊥
IsOwnStep i (notifies_all before after e) = ⊥
IsOwnStep i (announces stops) = ⊥

abbrev pub IsFree : Handshake → ℕ → Type 0
IsFree s i = (x : Stage) × (get_elem? s.stages i ≡ some x) × (IsBlocked x → ⊥)

-- Worker `i` can make a step, after which it is not blocked either.
abbrev pub GoesOn : Handshake → ℕ → Type 0
GoesOn s i = (t : Handshake) × (st : HandshakeStep s t) × IsOwnStep i st × IsFree t i

outside_moves :
    (p : Pool) (s : Handshake) (i : ℕ) (x : Worker)
    → Inv p s.system
    → pending_tasks s.system.pool ≢ 0
    → get_elem? s.stages i ≡ some outside
    → get_elem? s.system.workers i ≡ some x
    → (t : System) × (st : Step s.system t) × IsMoveOf i st × IsOutside s.stages st
unfolding pending_tasks
outside_moves p s i idle inv some_task out at =
    let active = total claimed_by s.system.workers in
    let seen = pending_tasks s.system.pool in
    let c =
      claim_seen_lem s.system.pool inv.queue active inv.stopping seen inv.valid
        (room p s.system inv) (omega arith) in
    let fields = queries_lem s.system.pool inv.queue active inv.stopping inv.valid in
    elim (queue-cases inv.queue) [
      | inl e ↦ absurd (some_task (fields.0 ∙ ap length e))
      | inr some_queued ↦ (
        _,
        claims i seen c.rest (take (claimable_seen seen inv.queue) inv.queue) at (omega arith)
            c.done (claimed-ne seen inv.queue (omega (arith, fields.0)) some_queued),
        refl,
        out,
      )
    ]
outside_moves p s i (running [] n) inv some_task out at = (_, finishes i n at, refl, out)
outside_moves p s i (running (x ∷ items) n) inv some_task out at =
    (_, executes i x items n at, refl, out)
outside_moves p s i exited inv some_task out at =
    let active = total claimed_by s.system.workers in
    let fields = queries_lem s.system.pool inv.queue active inv.stopping inv.valid in
    absurd (some_task (fields.0 ∙ ap length (inv.gone i at).1))

free_after :
    (s : Handshake) (i : ℕ) (w x : Stage)
    → get_elem? s.stages i ≡ some w
    → (IsBlocked x → ⊥)
    → (y : Stage) × (get_elem? (set s.stages i x) i ≡ some y) × (IsBlocked y → ⊥)
free_after s i w x at free =
    (x, get_elem?-set_self s.stages i x (get_elem?-bound s.stages i w at), free)

free-GoesOn :
    (p : Pool) (s : Handshake) (i : ℕ) (x : Stage)
    → Watch p s
    → pending_tasks s.system.pool ≢ 0
    → get_elem? s.stages i ≡ some x
    → (IsBlocked x → ⊥)
    → GoesOn s i
unfolding pending_tasks
free-GoesOn p s i outside v some_task at free =
    let there : i < length s.system.workers =
      omega (arith, get_elem?-bound s.stages i outside at, v.paired, v.inv.crew) in
    let (w, at_worker) = worker_at s.system.workers i there in
    let (t, st, own, out) = outside_moves p s i w v.inv some_task at at_worker in
    (_, acts st out, own, (outside, at, λ b. b))
free-GoesOn p s i entering v some_task at free =
    (_, counts i at, refl, free_after s i entering counted at (λ b. b))
free-GoesOn p s i counted v some_task at free =
    let state = s.system.pool.queue_state in
    (_, observes i at, refl, free_after s i counted (observed state) at (observed-free state).1)
free-GoesOn p s i leaving v some_task at free =
    (_, leaves i at, refl, free_after s i leaving outside at (λ b. b))
free-GoesOn p s i (comparing word) v some_task at free =
    let state = s.system.pool.queue_state in
    let none_seen = All-get HasSeenNone s.stages i (comparing word) v.seen at in
    elim (compared_lem state word none_seen).2 [
      | inl none_left ↦ absurd (some_task none_left)
      | inr open_now ↦ (
        _,
        compares i word at,
        refl,
        free_after s i (comparing word) (compared state word) at open_now,
      )
    ]
free-GoesOn p s i (blocked word) v some_task at free = absurd (free tt)

-- From a fresh pool with at least one worker on, in any interleaving of the accesses with which workers
-- wait, submissions queue tasks and threads notify, as long as no call has waited for space: whenever a
-- task is queued and no thread is between what it has queued and its call of `notify_one` or
-- `notify_all`, some worker is not blocked, and it can make a step that does not block it either.
pub queued_is_served :
    (p : Pool) (s : Handshake)
    → IsFresh p
    → 1 ≤ p.worker_count
    → HandshakeReach p s
    → s.wakers ≡ []
    → pending_tasks s.system.pool ≢ 0
    → (i : ℕ) × (i < p.worker_count) × IsFree s i × GoesOn s i
queued_is_served p s f some_worker r all_notified some_task =
    let v = HandshakeReach-Watch p f some_worker r in
    elim (v.watched some_task) [
      | inl some_left ↦ absurd (some_left all_notified)
      | inr (i, x, at, free) ↦ (
        i,
        omega (arith, get_elem?-bound s.stages i x at, v.paired),
        (x, at, free),
        free-GoesOn p s i x v some_task at free,
      )
    ]
